-- ===== src/Reconcile/Lifecycle.antt =====
-- internal/reconcile/lifecycle.go: what an observation of the Job means for the Run.
use perfeng_control_plane.Base.{Bool, true, false, none, some, not, if◌then◌else◌}
use perfeng_control_plane.Text.{Text, text}
use perfeng_control_plane.Errors.{Result, ok, err, validation, state_not_handled}
use perfeng_control_plane.Contract.{
  State, provisioning, warming_up, running, collecting, cancelling, infrastructure_failure,
}
use perfeng_control_plane.Run.{Change, to_state, infrastructure_error}

-- `JobPhase` (internal/kubernetes/observer.go).
pub data JobPhase : Type 0 where
  absent pending active succeeded failed : JobPhase
  other : Text → JobPhase

-- The fields of `Observation` that the decision reads.
pub record Observation : Type 0 where
  pub phase : JobPhase
  pub deleting : Bool

-- `Action` with the change of an advance.
pub data Decision : Type 0 where
  wait stop confirm_stop : Decision
  advance : Change → Decision

unfoldable pub valid_phase : JobPhase → Bool
valid_phase (JobPhase.other name) = false
valid_phase _ = true

unfoldable pub ended : JobPhase → Bool
ended succeeded = true
ended failed = true
ended _ = false

abbrev pub is_absent : JobPhase → Bool
is_absent absent = true
is_absent _ = false

abbrev is_pending : JobPhase → Bool
is_pending pending = true
is_pending _ = false

unfoldable pub disappeared : Text
disappeared = text "Kubernetes Job disappeared before artifact collection"

unfoldable pub deletion : Text
deletion = text "Kubernetes Job deletion was not requested by the run"

abbrev pub failure_change : Text → Change
failure_change message = record {
  state = infrastructure_failure;
  failure = some (record { code = infrastructure_error; message = message });
  tool_exit_code = none;
}

abbrev broken : Text → Decision
broken message = Decision.advance (failure_change message)

-- The last switch.
unfoldable pub decide_observed : State → JobPhase → Result Decision
decide_observed provisioning phase =
    if is_pending phase then ok wait else ok (Decision.advance (to_state running))
decide_observed warming_up phase =
    if ended phase then ok (Decision.advance (to_state collecting)) else ok wait
decide_observed running phase =
    if ended phase then ok (Decision.advance (to_state collecting)) else ok wait
decide_observed _ phase = err state_not_handled

abbrev pub is_execution : State → Bool
is_execution provisioning = true
is_execution warming_up = true
is_execution running = true
is_execution _ = false

unfoldable pub decide_execution : State → Observation → Result Decision
decide_execution state o =
    if not (is_execution state)
    then err state_not_handled
    else if is_absent o.phase
    then ok (broken disappeared)
    else if o.deleting
    then ok (broken deletion)
    else decide_observed state o.phase

unfoldable pub decide_state : State → Observation → Result Decision
decide_state cancelling o = if is_absent o.phase then ok confirm_stop else ok stop
decide_state state o = decide_execution state o

unfoldable pub decide_bound_execution : State → Observation → Result Decision
decide_bound_execution state o =
    if not (valid_phase o.phase) then err validation else decide_state state o
