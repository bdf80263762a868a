-- ===== src/Worker.antt =====
-- internal/worker/worker.go: the worker that claims Runs and keeps a bounded number of attempts going.
-- One goroutine owns the set of active attempts, so its loop is a sequence of the events that its
-- select takes; an attempt is the sequence of the events that its own select takes.
use perfeng_control_plane.Base.{
  ℕ, ◌+◌, ◌-◌, ◌*◌, ◌/◌, Bool, true, false, List, [], ◌∷◌, ◌++◌, Option, none, some, not, ◌&&◌,
  ◌||◌, leb, ltb, length, if◌then◌else◌,
}
use perfeng_control_plane.Base.Int.{ℤ, pos, negsuc}
use perfeng_control_plane.Text.{Text, text_eq}
use perfeng_control_plane.Time.{second, minute, positive_to}
use perfeng_control_plane.Errors.{
  Error, Result, ok, err, validation, lease_lost, cancellation_observed,
}
use perfeng_control_plane.Contract.{State, cancelling}
use perfeng_control_plane.Identity.{valid_retry_delay}
use perfeng_control_plane.Run.{Run}
use perfeng_control_plane.Run.Claims.{Lease, Claim, valid_lease, valid_claim_options}
pub mod Attempt
pub mod Pool
pub mod Bounded
pub mod Release

pub data Operation : Type 0 where
  claiming renewing reconciling releasing : Operation

pub record Event : Type 0 where
  pub run_id : Text
  pub operation : Operation
  pub error : Error

pub record Config : Type 0 where
  pub worker_id : Text
  pub capacity : ℤ
  pub lease_ttl : ℤ
  pub renew_every : ℤ
  pub poll_every : ℤ
  pub failure_delay : ℤ

-- Go's division of a Duration by 2 rounds to zero.
abbrev half : ℤ → ℕ
half (pos n) = n / 2
half (negsuc n) = 0

unfoldable pub valid_config : Config → Bool
valid_config config =
    valid_claim_options config.worker_id config.capacity config.lease_ttl
    && positive_to (half config.lease_ttl) config.renew_every
    && positive_to (5 * minute) config.poll_every
    && valid_retry_delay config.failure_delay

unfoldable pub default_config : Text → Config
default_config worker_id = record {
  worker_id = worker_id;
  capacity = pos 4;
  lease_ttl = pos (30 * second);
  renew_every = pos (10 * second);
  poll_every = pos second;
  failure_delay = pos (5 * second);
}

pub record Completion : Type 0 where
  pub run_id : Text
  pub events : List Event

abbrev unnamed : State → Bool
unnamed (State.other name) = text_eq name []
unnamed _ = false

unfoldable pub valid_claim : Claim → Bool
valid_claim c = valid_lease c.lease && text_eq c.run.id c.lease.run_id && not (unnamed c.run.state)

abbrev pub silent : Claim → Completion
silent c = record { run_id = c.run.id; events = [] }

abbrev pub reports : Claim → Operation → Error → Completion
reports c operation e = record {
  run_id = c.run.id;
  events = record { run_id = c.run.id; operation = operation; error = e } ∷ [];
}

-- What the attempt asks of the store when it ends: nothing, or a release of a lease after a delay.
pub data Ending : Type 0 where
  abandoned : Ending
  released : Lease → ℤ → Ending

-- The release, given what the store answers to it.
unfoldable pub release : Claim → ℤ → Option Error → Completion
release c delay none = silent c
release c delay (some lease_lost) = silent c
release c delay (some e) = reports c releasing e

abbrev after_release : List Event → Completion → Completion
after_release events c = record { run_id = c.run_id; events = events ++ c.events }

-- The delay and the events of an attempt that came back.
abbrev settled : Config → Claim → Result ℤ → ℤ × List Event
settled config c (err e) = (config.failure_delay, (reports c reconciling e).events)
settled config c (ok delay) =
    if not (valid_retry_delay delay)
    then (config.failure_delay, (reports c reconciling validation).events)
    else (delay, [])

abbrev released_with : Claim → ℤ × List Event → Option Error → Ending × Completion
released_with c s answer = (released c.lease s.0, after_release s.1 (release c s.0 answer))

unfoldable pub finish : Config → Claim → Result ℤ → Option Error → Ending × Completion
finish config c (err lease_lost) answer = (abandoned, silent c)
finish config c result answer = released_with c (settled config c result) answer
