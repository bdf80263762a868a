-- ===== src/Memory/Refused.antt =====
-- A call that is refused (internal/memory/repository.go, artifacts.go, baselines.go).
use perfeng_control_plane.Base.{
  ℕ, ◌≡◌, refl, Bool, true, false, Option, none, some, arith, not, if◌then◌else◌, List,
}
use perfeng_control_plane.Text.{Text}
use perfeng_control_plane.Errors.{Error, Result, ok, err, validation}
use perfeng_control_plane.Run.{Run, Request, ExecutionTarget, request_cancellation, transition}
use perfeng_control_plane.Run.Artifact.{Artifact, Url, valid_artifact}
use perfeng_control_plane.Baseline.Data.{Record}
use perfeng_control_plane.Memory.Store.{
  OwnedRun, Accepted, BaselineKey, Binding, Repository, visible,
}
use perfeng_control_plane.Memory.Runs.{
  Draw, draw_id, create_run, find_binding, live, replay, accept_valid, accept, refused_create,
  under, written, update, cancel, advance,
}
use perfeng_control_plane.Memory.Artifacts.{
  find_artifact, bind_artifact, bind_visible, lowered, register_artifact,
}
use perfeng_control_plane.Memory.Baselines.{
  baseline_key, stored_baseline, replaced_baseline, create_baseline, transition_baseline,
}
use perfeng_control_plane.Memory.Calls.{
  Call, accepts, cancels, advances, registers, creates_baseline, decides_baseline, after_accept,
  step,
}

abbrev error_of {ℓ} : {A : Type ℓ} → Result A → Option Error
error_of (err e) = some e
error_of (ok a) = none

-- A create that still draws has not answered.
abbrev accept_error : Option (Repository × Result Accepted) → Option Error
accept_error none = none
accept_error (some (m, r)) = error_of r

unfoldable pub refusal : (Text → Option Url) → Repository → Call → Option Error
refusal parse_url m (accepts ctx now draws principal key request target) =
    accept_error (accept m ctx now draws principal key request target)
refusal parse_url m (cancels ctx now principal id) = error_of (cancel m ctx now principal id).1
refusal parse_url m (advances ctx now principal id revision change) =
    error_of (advance m ctx now principal id revision change).1
refusal parse_url m (registers ctx principal a) =
    error_of (register_artifact parse_url m ctx principal a).1
refusal parse_url m (creates_baseline ctx now principal input) =
    error_of (create_baseline parse_url m ctx now principal input).1
refusal parse_url m (decides_baseline ctx now principal id version revision change) =
    error_of (transition_baseline parse_url m ctx now principal id version revision change).1

-- Each write stands behind its last check.
abbrev Unwritten {ℓ} : {A : Type ℓ} → Repository → Repository × Result A → Type 0
Unwritten m p = (e : Error) → error_of p.1 ≡ some e → p.0 ≡ m

written-Unwritten :
    (m : Repository) (id : Text) (o : OwnedRun) (r : Result Run) → Unwritten m (written m id o r)
written-Unwritten m id o (err f) e h = refl
written-Unwritten m id o (ok next) e h = absurd (ground (arith, h))

update-Unwritten :
    (m : Repository) (id : Text) (o : Result OwnedRun) (f : Run → Result Run)
    → Unwritten m (update m id o f)
update-Unwritten m id (err g) f e h = refl
update-Unwritten m id (ok o) f e h = written-Unwritten m id o (f o.run) e h

bound-Unwritten :
    (m : Repository) (a : Artifact) (o : Option Artifact) → Unwritten m (bind_artifact m a o)
bound-Unwritten m a none e h = absurd (ground (arith, h))
bound-Unwritten m a (some previous) e h = ground (arith, h)

visible-Unwritten :
    (m : Repository) (a : Artifact) (o : Result OwnedRun) → Unwritten m (bind_visible m a o)
visible-Unwritten m a (err g) e h = refl
visible-Unwritten m a (ok o) e h = bound-Unwritten m a (find_artifact m a.id) e h

stored-Unwritten :
    (m : Repository) (principal : Text) (r : Result Record)
    → Unwritten m (stored_baseline m principal r)
stored-Unwritten m principal (err g) e h = refl
stored-Unwritten m principal (ok r) e h = absurd (ground (arith, h))

replaced-Unwritten :
    (m : Repository) (key : BaselineKey) (r : Result Record)
    → Unwritten m (replaced_baseline m key r)
replaced-Unwritten m key (err g) e h = refl
replaced-Unwritten m key (ok r) e h = absurd (ground (arith, h))

guarded-Unwritten {ℓ} :
    {A : Type ℓ} (m : Repository) (bad : Bool) (reason : Error) (p : Repository × Result A)
    → Unwritten m p
    → Unwritten m (if bad then (m, err reason) else p)
guarded-Unwritten m true reason p f e h = refl
guarded-Unwritten m false reason p f e h = f e h

abbrev Unaccepted : Repository → Option (Repository × Result Accepted) → Type 0
Unaccepted m p = (e : Error) → accept_error p ≡ some e → after_accept m p ≡ m

created-Unwritten :
    (m : Repository) (principal key : Text) (request : Request) (target : ExecutionTarget) (now : ℕ)
    (drawn : Option (Result Text))
    → Unaccepted m (create_run m principal key request target now drawn)
created-Unwritten m principal key request target now none e h = refl
created-Unwritten m principal key request target now (some (err f)) e h = refl
created-Unwritten m principal key request target now (some (ok id)) e h = absurd (ground (arith, h))

picked-Unwritten :
    (m : Repository) (o : Option Binding) (answered : Binding → Result Accepted)
    (made : Option (Repository × Result Accepted))
    → Unaccepted m made
    → Unaccepted m (elim o [ some b ↦ some (m, answered b) | none ↦ made ])
picked-Unwritten m none answered made f e h = f e h
picked-Unwritten m (some b) answered made f e h = refl

accept_valid-Unwritten :
    (m : Repository) (now : ℕ) (draws : List Draw) (principal key : Text) (request : Request)
    (target : ExecutionTarget)
    → Unaccepted m (accept_valid m now draws principal key request target)
unfolding accept_valid
accept_valid-Unwritten m now draws principal key request target =
    picked-Unwritten m (live (find_binding m principal key) now) (λ b. replay b request target)
      (create_run m principal key request target now (draw_id m now draws))
      (created-Unwritten m principal key request target now (draw_id m now draws))

under_context :
    (m : Repository) (ctx : Option Error) (p : Option (Repository × Result Accepted))
    → Unaccepted m p
    → Unaccepted m (elim ctx [ some e ↦ some (m, err e) | none ↦ p ])
under_context m none p f e h = f e h
under_context m (some d) p f e h = refl

refused-first :
    (m : Repository) (bad : Bool) (p : Option (Repository × Result Accepted))
    → Unaccepted m p
    → Unaccepted m (if bad then some (m, err validation) else p)
refused-first m true p f e h = refl
refused-first m false p f e h = f e h

module _ (parse_url : Text → Option Url) where
  -- A call that answers with an error, a create, a cancellation, a transition, the registration of an
  -- artifact, or the creation or a decision of a baseline, has left the whole store as it was.
  pub step-refusal :
      (m : Repository) (c : Call) (e : Error)
      → refusal parse_url m c ≡ some e
      → step parse_url m c ≡ m
  unfolding refusal step accept cancel advance register_artifact create_baseline transition_baseline
  step-refusal m (accepts ctx now draws principal key request target) e h =
      let valid = accept_valid m now draws principal key request target in
      let p : Option (Repository × Result Accepted) = elim ctx [
        | some d ↦ some (m, err d)
        | none ↦ valid
      ] in
      refused-first m (refused_create principal key request target) p
        (under_context m ctx valid
          (accept_valid-Unwritten m now draws principal key request target))
        e h
  step-refusal m (cancels ctx now principal id) e h =
      update-Unwritten m id (under ctx (visible m principal id)) (λ r. request_cancellation r now) e
        h
  step-refusal m (advances ctx now principal id revision change) e h =
      update-Unwritten m id (under ctx (visible m principal id))
        (λ r. transition r revision change now) e h
  step-refusal m (registers ctx principal a) e h =
      let o = under ctx (visible m principal a.run_id) in
      guarded-Unwritten m (not (valid_artifact parse_url (lowered a))) validation
        (bind_visible m (lowered a) o) (visible-Unwritten m (lowered a) o) e h
  step-refusal m (creates_baseline ctx now principal input) e h = stored-Unwritten m principal _ e h
  step-refusal m (decides_baseline ctx now principal id version revision change) e h =
      replaced-Unwritten m (baseline_key principal id version) _ e h
