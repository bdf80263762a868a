-- ===== src/Memory/Created.antt =====
-- What a create that succeeds has stored, by what is read afterwards (internal/memory/repository.go).
use perfeng_control_plane.Base.{ℕ, ◌+◌, ◌≡◌, refl, ◌≢◌, false, List, none, some, ap}
use perfeng_control_plane.Base.Maps.{lookup-insert_self, lookup-insert_ne}
use perfeng_control_plane.Text.{Text, Text-discrete}
use perfeng_control_plane.Errors.{ok}
use perfeng_control_plane.Contract.{created}
use perfeng_control_plane.Run.{Run, Request, ExecutionTarget}
use perfeng_control_plane.Run.History.{accepted_run}
use perfeng_control_plane.Memory.Store.{
  OwnedRun, Accepted, BindingKey, BindingKey-discrete, Binding, Repository, find_run,
}
use perfeng_control_plane.Memory.Runs.{
  Draw, store_run, accept, refused_create, find_binding, live, acceptance,
}
use perfeng_control_plane.Memory.Acceptance.{FreeDraw, accept-store_run}

-- The Run that a create answers with.
pub record Fresh (id : Text) (request : Request) (now : ℕ) (r : Run) : Type 0 where
  pub named : r.id ≡ id
  pub asked : r.request ≡ request
  pub state : r.state ≡ created
  pub revision : r.revision ≡ 1
  pub created_at : r.created_at ≡ now
  pub updated_at : r.updated_at ≡ now
  pub unfinished : r.finished_at ≡ none
  pub no_failure : r.failure ≡ none
  pub no_exit : r.tool_exit_code ≡ none

-- The store has one Run and one binding more, and nothing else has changed.
pub record Stored (m new : Repository) (principal key : Text) (a : Accepted)
    (target : ExecutionTarget) : Type 0 where
  pub run :
      find_run new a.run.id ≡ some (record { principal = principal; run = a.run; target = target })
  pub binding : find_binding new principal key ≡ some (record { accepted = a; target = target })
  pub other_runs : (j : Text) → a.run.id ≢ j → find_run new j ≡ find_run m j
  pub other_bindings :
      (p k : Text) → ¬ ((principal ≡ p) × (key ≡ k)) → find_binding new p k ≡ find_binding m p k
  pub artifacts : new.artifacts ≡ m.artifacts
  pub baselines : new.baselines ≡ m.baselines

accepted_run-Fresh :
    (id : Text) (request : Request) (now : ℕ) → Fresh id request now (accepted_run id request now)
unfolding accepted_run
accepted_run-Fresh id request now = record {
  named = refl;
  asked = refl;
  state = refl;
  revision = refl;
  created_at = refl;
  updated_at = refl;
  unfinished = refl;
  no_failure = refl;
  no_exit = refl;
}

store_run-Stored :
    (m : Repository) (principal key : Text) (a : Accepted) (target : ExecutionTarget)
    → Stored m (store_run m principal key a target) principal key a target
unfolding store_run
store_run-Stored m principal key a target =
    let owned : OwnedRun = record { principal = principal; run = a.run; target = target } in
    let bound : Binding = record { accepted = a; target = target } in
    let at : BindingKey = record { principal = principal; key = key } in
    record {
      run = lookup-insert_self Text-discrete a.run.id owned m.runs;
      binding = lookup-insert_self BindingKey-discrete at bound m.bindings;
      other_runs = λ j other. lookup-insert_ne Text-discrete a.run.id j owned m.runs other;
      other_bindings = λ p k other.
          lookup-insert_ne BindingKey-discrete at (record { principal = p; key = k }) bound
            m.bindings (λ e. other (ap (λ b. b.principal) e, ap (λ b. b.key) e));
      artifacts = refl;
      baselines = refl;
    }

-- A create with valid arguments, no live binding for its key and a free identifier among its draws
-- succeeds. It answers with the CREATED Run of revision 1 for the request under the first free
-- identifier, and with an expiry 86,400 seconds later. Afterwards the Run is found with its owner and
-- target, the binding of the key is that answer, and every other Run, binding, artifact and baseline
-- is as before.
pub accept_new :
    (m : Repository) (now : ℕ) (draws : List Draw) (principal key id : Text) (request : Request)
    (target : ExecutionTarget)
    → refused_create principal key request target ≡ false
    → live (find_binding m principal key) now ≡ none
    → FreeDraw m now draws id
    → (new : Repository) × (a : Accepted) × (accept m none now draws principal key request target
        ≡ some (new, ok a))
      × Fresh id request now a.run
      × (a.expires_at ≡ now + 86400000000000)
      × Stored m new principal key a target
accept_new m now draws principal key id request target fine fresh d =
    let a = acceptance id request now in
    (
      store_run m principal key a target,
      a,
      accept-store_run m now draws principal key id request target fine fresh d,
      accepted_run-Fresh id request now,
      refl,
      store_run-Stored m principal key a target,
    )
