-- ===== src/Memory/Runs.antt =====
-- internal/memory/repository.go: Accept, Get, Cancel and Advance.
use perfeng_control_plane.Base.{
  ℕ, ◌+◌, ◌-◌, ◌*◌, ◌/◌, ◌%◌, Bool, not, ◌||◌, List, [], ◌∷◌, ◌++◌, Option, none, some, holds, ltb,
  if◌then◌else◌,
}
use perfeng_control_plane.Base.Maps.{lookup, insert}
use perfeng_control_plane.Text.{Text, Text-discrete, text, text_eq}
use perfeng_control_plane.Time.{hour, format_stamp}
use perfeng_control_plane.Errors.{Error, Result, ok, err, ◌>>=◌, validation, conflict}
use perfeng_control_plane.Run.{
  Run, Request, Request-discrete, ExecutionTarget, ExecutionTarget-discrete, Change, valid_key,
  valid_request, valid_target, transition, request_cancellation,
}
use perfeng_control_plane.Run.History.{accepted_run}
use perfeng_control_plane.Memory.Store.{
  Accepted, OwnedRun, BindingKey-discrete, Binding, Repository, find_run, visible,
}

-- One `rand.Read` of four bytes, or its error.
pub data Draw : Type 0 where
  bytes : ℕ → ℕ → ℕ → ℕ → Draw
  failure : Error → Draw

abbrev hex_digit : ℕ → ℕ
hex_digit n = if ltb n 10 then b'0' + n else b'a' + (n - 10)

abbrev hex_byte : ℕ → Text
hex_byte n = hex_digit (n / 16) ∷ hex_digit (n % 16) ∷ []

-- `"perf-" + now.Format("20060102-150405") + "-" + hex.EncodeToString(suffix[:])`
unfoldable pub run_id : ℕ → ℕ → ℕ → ℕ → ℕ → Text
run_id now a b c d =
    text "perf-"
    ++ (format_stamp now ++ (b'-' ∷ (hex_byte a ++ (hex_byte b ++ (hex_byte c ++ hex_byte d)))))

-- The loop that draws a suffix until the identifier is free; nothing while the draws run out.
unfoldable pub draw_id : Repository → ℕ → List Draw → Option (Result Text)
draw_id m now [] = none
draw_id m now (failure e ∷ draws) = some (err e)
draw_id m now (bytes a b c d ∷ draws) =
    let again = draw_id m now draws in
    elim (find_run m (run_id now a b c d)) [
      | none ↦ some (ok (run_id now a b c d))
      | some o ↦ again
    ]

-- What a live binding answers to a create under its key.
unfoldable pub replay : Binding → Request → ExecutionTarget → Result Accepted
replay b request target =
    if not (holds (Request-discrete b.accepted.run.request request))
      || not (holds (ExecutionTarget-discrete b.target target))
    then err conflict
    else ok b.accepted

abbrev pub live : Option Binding → ℕ → Option Binding
live none now = none
live (some b) now = if ltb now b.accepted.expires_at then some b else none

-- The binding lasts for a day.
abbrev pub acceptance : Text → Request → ℕ → Accepted
acceptance id request now = record {
  run = accepted_run id request now;
  expires_at = now + 24 * hour;
}

unfoldable pub store_run : Repository → Text → Text → Accepted → ExecutionTarget → Repository
store_run m principal key a target = record m {
  runs =
      insert Text-discrete a.run.id (record { principal = principal; run = a.run; target = target })
        m.runs;
  bindings =
      insert BindingKey-discrete (record { principal = principal; key = key })
        (record { accepted = a; target = target }) m.bindings;
}

abbrev created_run :
    Repository
    → Text
    → Text
    → Request
    → ExecutionTarget
    → ℕ
    → Result Text
    → Repository × Result Accepted
created_run m principal key request target now (err e) = (m, err e)
created_run m principal key request target now (ok id) =
    let a = acceptance id request now in (store_run m principal key a target, ok a)

-- Nothing while the identifier is still being drawn.
abbrev pub create_run :
    Repository
    → Text
    → Text
    → Request
    → ExecutionTarget
    → ℕ
    → Option (Result Text)
    → Option (Repository × Result Accepted)
create_run m principal key request target now none = none
create_run m principal key request target now (some drawn) =
    some (created_run m principal key request target now drawn)

abbrev pub find_binding : Repository → Text → Text → Option Binding
find_binding m principal key =
    lookup BindingKey-discrete (record { principal = principal; key = key }) m.bindings

-- The part of `Accept` behind the check of its arguments and of the context.
unfoldable pub accept_valid :
    Repository
    → ℕ
    → List Draw
    → Text
    → Text
    → Request
    → ExecutionTarget
    → Option (Repository × Result Accepted)
accept_valid m now draws principal key request target =
    let drawn = create_run m principal key request target now (draw_id m now draws) in
    elim (live (find_binding m principal key) now) [
      | some b ↦ some (m, replay b request target)
      | none ↦ drawn
    ]

abbrev pub refused_create : Text → Text → Request → ExecutionTarget → Bool
refused_create principal key request target =
    text_eq principal []
    || not (valid_key key)
    || not (valid_request request)
    || not (valid_target target)

unfoldable pub accept :
    Repository
    → Option Error
    → ℕ
    → List Draw
    → Text
    → Text
    → Request
    → ExecutionTarget
    → Option (Repository × Result Accepted)
accept m ctx now draws principal key request target =
    if refused_create principal key request target then some (m, err validation) else elim ctx [
      | some e ↦ some (m, err e)
      | none ↦ accept_valid m now draws principal key request target
    ]

-- `if err := ctx.Err(); err != nil { return err }`.
abbrev pub under {ℓ} : {A : Type ℓ} → Option Error → Result A → Result A
under none r = r
under (some e) r = err e

unfoldable pub get : Repository → Option Error → Text → Text → Result Run
get m ctx principal id = under ctx (visible m principal id >>= λ o. ok o.run)

-- The write of `Cancel` and `Advance`: the record keeps its owner and its target.
abbrev pub written : Repository → Text → OwnedRun → Result Run → Repository × Result Run
written m id o (err e) = (m, err e)
written m id o (ok next) =
    (record m { runs = insert Text-discrete id (record o { run = next }) m.runs }, ok next)

abbrev pub update :
    Repository → Text → Result OwnedRun → (Run → Result Run) → Repository × Result Run
update m id (err e) f = (m, err e)
update m id (ok o) f = written m id o (f o.run)

unfoldable pub cancel : Repository → Option Error → ℕ → Text → Text → Repository × Result Run
cancel m ctx now principal id =
    update m id (under ctx (visible m principal id)) (λ r. request_cancellation r now)

unfoldable pub advance :
    Repository → Option Error → ℕ → Text → Text → ℕ → Change → Repository × Result Run
advance m ctx now principal id revision change =
    update m id (under ctx (visible m principal id)) (λ r. transition r revision change now)
