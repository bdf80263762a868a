-- ===== src/Memory/Baselines.antt =====
-- internal/memory/baselines.go: CreateBaseline, GetBaseline, ResolveApprovedBaseline and
-- TransitionBaseline.
use perfeng_control_plane.Base.{
  ℕ, ◌-◌, ◌%◌, not, ◌||◌, [], Option, none, some, holds, if◌then◌else◌,
}
use perfeng_control_plane.Base.Maps.{lookup, insert}
use perfeng_control_plane.Text.{Text, text_eq}
use perfeng_control_plane.Errors.{Error, Result, ok, err, ◌>>=◌, validation, not_found, conflict}
use perfeng_control_plane.Contract.{completed, state_eq}
use perfeng_control_plane.Run.Artifact.{Artifact, Artifact-discrete, Url}
use perfeng_control_plane.Baseline.Data.{Record, Create, Change, Selection}
use perfeng_control_plane.Baseline.Lifecycle
use perfeng_control_plane.Baseline.Lifecycle.{valid_selection, matches_selection}
use perfeng_control_plane.Memory.Store.{
  OwnedRun, BaselineKey, BaselineKey-discrete, Repository, visible,
}
use perfeng_control_plane.Memory.Runs.{under}
use perfeng_control_plane.Memory.Artifacts.{find_artifact}

-- `baselineTime`: whole microseconds.
unfoldable pub baseline_time : ℕ → ℕ
baseline_time now = now - now % 1000

abbrev pub baseline_key : Text → Text → Text → BaselineKey
baseline_key principal id version = record { principal = principal; id = id; version = version }

abbrev pub find_baseline : Repository → Text → Text → Text → Option Record
find_baseline m principal id version =
    lookup BaselineKey-discrete (baseline_key principal id version) m.baselines

-- `!exists || principal == ""`.
abbrev pub owned_baseline : Text → Option Record → Result Record
owned_baseline principal none = err not_found
owned_baseline principal (some r) = if text_eq principal [] then err not_found else ok r

-- The evidence that a new candidate names must be registered as it names it.
abbrev pub check_registered : Record → Option Artifact → Result (Unit {0})
check_registered r none = err not_found
check_registered r (some registered) =
    if holds (Artifact-discrete registered r.artifact) then ok tt else err validation

abbrev pub check_completed : OwnedRun → Result (Unit {0})
check_completed o = if state_eq o.run.state completed then ok tt else err validation

abbrev pub check_absent : Option Record → Result (Unit {0})
check_absent none = ok tt
check_absent (some r) = err conflict

-- The checks of `CreateBaseline`, in order; the record that they let pass is stored.
unfoldable pub checked_baseline : Repository → Text → Record → Result Record
checked_baseline m principal r = visible m principal r.source_run_id >>= λ o.
    check_completed o >>= λ _. check_registered r (find_artifact m r.artifact.id) >>= λ _.
    check_absent (find_baseline m principal r.id r.version) >>= λ _. ok r

abbrev pub store_baseline : Repository → Text → Record → Repository
store_baseline m principal r = record m {
  baselines = insert BaselineKey-discrete (baseline_key principal r.id r.version) r m.baselines;
}

abbrev pub stored_baseline : Repository → Text → Result Record → Repository × Result Record
stored_baseline m principal (err e) = (m, err e)
stored_baseline m principal (ok r) = (store_baseline m principal r, ok r)

-- The write of `TransitionBaseline`, under the key of the call.
abbrev pub replaced_baseline : Repository → BaselineKey → Result Record → Repository × Result Record
replaced_baseline m key (err e) = (m, err e)
replaced_baseline m key (ok r) =
    (record m { baselines = insert BaselineKey-discrete key r m.baselines }, ok r)

unfoldable pub get_baseline : Repository → Option Error → Text → Text → Text → Result Record
get_baseline m ctx principal id version =
    under ctx (owned_baseline principal (find_baseline m principal id version))

module _ (parse_url : Text → Option Url) where
  unfoldable pub create_baseline :
      Repository → Option Error → ℕ → Text → Create → Repository × Result Record
  create_baseline m ctx now principal input = stored_baseline m principal (
      under ctx
        (Lifecycle.new parse_url input (baseline_time now) >>= λ r. checked_baseline m principal r))

  -- An absent record is an answer, any other error of the read is passed on.
  abbrev pub resolved : Selection → Result Record → Result (Option Record)
  resolved s (ok r) = if matches_selection parse_url r s then ok (some r) else ok none
  resolved s (err not_found) = ok none
  resolved s (err e) = err e

  unfoldable pub resolve_approved_baseline :
      Repository → Option Error → Text → Selection → Result (Option Record)
  resolve_approved_baseline m ctx principal s =
      if text_eq principal [] || not (valid_selection s)
      then err validation
      else resolved s (get_baseline m ctx principal s.id s.version)

  unfoldable pub transition_baseline :
      Repository → Option Error → ℕ → Text → Text → Text → ℕ → Change → Repository × Result Record
  transition_baseline m ctx now principal id version revision change =
      replaced_baseline m (baseline_key principal id version) (
        get_baseline m ctx principal id version >>= λ r.
        Lifecycle.transition parse_url r revision change (baseline_time now))
