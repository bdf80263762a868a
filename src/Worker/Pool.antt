-- ===== src/Worker/Pool.antt =====
-- The loop of `Run`: the set of active attempts.
use perfeng_control_plane.Base.{
  ltb, ℕ, ◌-◌, Bool, true, false, List, [], ◌∷◌, ◌++◌, ◌||◌, not, length, if◌then◌else◌,
}
use perfeng_control_plane.Base.Int.{pos_part}
use perfeng_control_plane.Text.{Text, text_eq}
use perfeng_control_plane.Errors.{Error, Result, ok, err, validation}
use perfeng_control_plane.Run.Claims.{Claim}
use perfeng_control_plane.Worker.{Config, Completion, Event, claiming, valid_claim}

-- The keys of the map `active`.
unfoldable pub mem : Text → List Text → Bool
mem t [] = false
mem t (s ∷ ss) = text_eq s t || mem t ss

unfoldable pub delete : Text → List Text → List Text
delete t [] = []
delete t (s ∷ ss) = let rest = delete t ss in if text_eq s t then rest else s ∷ rest

pub record Pool : Type 0 where
  pub active : List Text
  pub reported : List Event

abbrev report : Pool → List Event → Pool
report p events = record p { reported = p.reported ++ events }

abbrev refused : Claim → Event
refused c = record { run_id = c.run.id; operation = claiming; error = validation }

-- One claim of a batch: an attempt starts unless the claim is malformed or its Run is active.
unfoldable pub start : Pool → Claim → Pool
start p c =
    if not (valid_claim c) || mem c.run.id p.active
    then report p (refused c ∷ [])
    else record p { active = c.run.id ∷ p.active }

unfoldable pub start_all : Pool → List Claim → Pool
start_all p [] = p
start_all p (c ∷ cs) = start_all (start p c) cs

-- The number of claims that a poll asks for.
abbrev pub free : Config → Pool → ℕ
free config p = pos_part config.capacity - length p.active

-- What the select takes until the context is done: an attempt that came back, or a poll with
-- `ctx.Err() != nil` after it and the answer of `ClaimRuns`.
pub data Taken : Type 0 where
  completed : Completion → Taken
  polled : Bool → Result (List Claim) → Taken

abbrev poll_event : Error → Event
poll_event e = record { run_id = []; operation = claiming; error = e }

-- The timer's channel is nil, and never ready, while all of the capacity is in use.
unfoldable pub can_poll : Config → Pool → Bool
can_poll config p = ltb (length p.active) (pos_part config.capacity)

abbrev pub answered : Pool → Bool → Result (List Claim) → Pool
answered p down (ok claims) = start_all p claims
answered p true (err e) = p
answered p false (err e) = report p (poll_event e ∷ [])

unfoldable pub take : Config → Pool → Taken → Pool
take config p (completed c) = report (record p { active = delete c.run_id p.active }) c.events
take config p (polled down answer) = if can_poll config p then answered p down answer else p

unfoldable pub takes : Config → Pool → List Taken → Pool
takes config p [] = p
takes config p (t ∷ ts) = takes config (take config p t) ts

abbrev pub empty : Pool
empty = record { active = []; reported = [] }
