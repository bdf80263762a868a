-- ===== src/Baseline/Lifecycle.antt =====
-- internal/baseline/domain.go: the lifecycle of a baseline version and its audit trail. `parse_url` is
-- the address parser of net/url that the check of the evidence uses.
use perfeng_control_plane.Base.{
  ℕ, ◌+◌, Bool, true, false, not, ◌&&◌, ◌||◌, List, [], ◌∷◌, ◌++◌, Option, none, some, leb, ltb,
  ◌==◌, holds, length, if◌then◌else◌,
}
use perfeng_control_plane.Text.{Text, text, text_eq}
use perfeng_control_plane.Contract.{valid_id}
use perfeng_control_plane.Errors.{
  Result, ok, err, validation, stale_revision, invalid_baseline_transition,
}
use perfeng_control_plane.Identity.{
  Identity-discrete, valid_resource_id, valid_contracts_version, valid_identity, valid_timestamp,
}
use perfeng_control_plane.Run.Artifact.{Artifact, Url, valid_artifact}
use perfeng_control_plane.Baseline.Data.{
  State, candidate, qualified, approved, retired, state_eq, QualificationStatus, pending, is_passed,
  is_failed, maximum_revision, Environment-discrete, Qualification, Event, Record, Create, Change,
  Selection,
}
use perfeng_control_plane.Baseline.Evidence.{
  valid_audit_text, valid_qualification, valid_dataset, dataset_equal, valid_software,
  valid_environment,
}

unfoldable pub allowed_transition : State → State → Bool
allowed_transition candidate qualified = true
allowed_transition candidate retired = true
allowed_transition qualified approved = true
allowed_transition qualified retired = true
allowed_transition approved retired = true
allowed_transition _ _ = false

unfoldable pub valid_event : Event → Bool
unfolding valid_timestamp valid_audit_text
valid_event e =
    valid_timestamp e.at && valid_audit_text e.actor 128 && valid_audit_text e.reason 1024

-- The loop over the events behind the first, with the event before.
unfoldable pub valid_trail : Event → List Event → Bool
valid_trail before [] = true
valid_trail before (e ∷ es) =
    valid_event e
    && allowed_transition before.state e.state
    && not (ltb e.at before.at)
    && valid_trail e es

-- `lifecycle[len(lifecycle)-1]`, behind a first event.
unfoldable pub last_event : Event → List Event → Event
last_event e [] = e
last_event e (f ∷ fs) = last_event f fs

-- The tests of `Validate` on the lifecycle.
unfoldable pub valid_lifecycle : State → ℕ → List Event → Bool
valid_lifecycle state created_at [] = false
valid_lifecycle state created_at (e ∷ es) =
    state_eq e.state candidate
    && e.at == created_at
    && state_eq (last_event e es).state state
    && valid_event e
    && valid_trail e es

-- The tests of `Validate` that join the state with the qualification.
unfoldable pub valid_standing : State → QualificationStatus → Bool
valid_standing candidate status = not (is_passed status)
valid_standing qualified status = is_passed status
valid_standing approved status = is_passed status
valid_standing _ status = true

abbrev pub drafted : Create → ℕ → Record
drafted input now = record {
  schema_version = 1;
  kind = text "PerformanceBaseline";
  id = input.id;
  version = input.version;
  revision = 1;
  state = candidate;
  test_id = input.test_id;
  source_run_id = input.source_run_id;
  artifact = input.artifact;
  software = input.software;
  workload = input.workload;
  environment = input.environment;
  dataset = input.dataset;
  qualification = record { status = pending; reasons = []; sample_count = none; maximum_cv = none };
  created_at = now;
  lifecycle =
      record { state = candidate; at = now; actor = input.actor; reason = input.reason } ∷ [];
}

-- `lifecycle[len-1].At`; `Validate` has refused the empty lifecycle before.
abbrev pub last_at : List Event → ℕ
last_at [] = 0
last_at (e ∷ es) = (last_event e es).at

-- The `switch` on the target state: the next qualification, or nothing where it is refused.
unfoldable pub next_qualification :
    State → State → Qualification → Option Qualification → Option Qualification
next_qualification qualified from old none = none
next_qualification qualified from old (some q) =
    if is_passed q.status && valid_qualification q then some q else none
next_qualification retired from old none = some old
next_qualification retired from old (some q) =
    if state_eq from candidate && is_failed q.status && valid_qualification q then some q else none
next_qualification _ from old none = some old
next_qualification _ from old (some q) = none

unfoldable pub decided : Record → Change → Qualification → ℕ → Record
decided r change q now = record r {
  qualification = q;
  state = change.state;
  revision = r.revision + 1;
  lifecycle =
      r.lifecycle
      ++ record { state = change.state; at = now; actor = change.actor; reason = change.reason }
        ∷ [];
}

unfoldable pub valid_selection : Selection → Bool
valid_selection s =
    valid_resource_id s.id
    && valid_contracts_version s.version
    && valid_resource_id s.test_id
    && valid_identity s.workload
    && valid_environment s.environment
    && valid_dataset s.dataset

module _ (parse_url : Text → Option Url) where
  unfoldable pub valid_evidence_artifact : Artifact → Text → Bool
  unfolding valid_artifact
  valid_evidence_artifact a source_run_id =
      valid_artifact parse_url a
      && text_eq a.run_id source_run_id
      && text_eq a.kind (text "normalized")
      && text_eq a.media_type (text "application/json")
      && text_eq a.format (text "normalized-result/v1")

  -- The tests of `Validate` on what no transition changes.
  unfoldable pub valid_provenance : Record → Bool
  unfolding valid_resource_id valid_contracts_version valid_id valid_evidence_artifact
      valid_software valid_identity valid_environment valid_dataset valid_timestamp
  valid_provenance r =
      r.schema_version == 1
      && text_eq r.kind (text "PerformanceBaseline")
      && valid_resource_id r.id
      && valid_contracts_version r.version
      && valid_resource_id r.test_id
      && valid_id r.source_run_id
      && valid_evidence_artifact r.artifact r.source_run_id
      && valid_software r.software
      && valid_identity r.workload
      && valid_environment r.environment
      && valid_dataset r.dataset
      && valid_timestamp r.created_at

  -- `Validate`; it has the one error, so the order of its tests does not show.
  unfoldable pub valid_record : Record → Bool
  valid_record r =
      valid_provenance r
      && leb 1 r.revision
      && leb r.revision maximum_revision
      && valid_qualification r.qualification
      && r.revision == length r.lifecycle
      && valid_standing r.state r.qualification.status
      && valid_lifecycle r.state r.created_at r.lifecycle

  unfoldable pub new : Create → ℕ → Result Record
  new input now =
      if valid_record (drafted input now) then ok (drafted input now) else err validation

  -- The end of `Transition`: the record that is written is checked once more.
  abbrev pub rechecked : Record → Change → ℕ → Option Qualification → Result Record
  rechecked r change now none = err validation
  rechecked r change now (some q) =
      if valid_record (decided r change q now) then ok (decided r change q now) else err validation

  unfoldable pub transition : Record → ℕ → Change → ℕ → Result Record
  transition r expected change now =
      if not (r.revision == expected)
      then err stale_revision
      else if not (valid_record r)
      then err validation
      else if leb maximum_revision r.revision || not (allowed_transition r.state change.state)
      then err invalid_baseline_transition
      else if not (valid_audit_text change.actor 128)
          || not (valid_audit_text change.reason 1024)
          || not (valid_timestamp now)
          || ltb now (last_at r.lifecycle)
      then err validation
      else rechecked r change now
          (next_qualification change.state r.state r.qualification change.qualification)

  unfoldable pub matches_selection : Record → Selection → Bool
  matches_selection r s =
      valid_record r
      && valid_selection s
      && state_eq r.state approved
      && text_eq r.id s.id
      && text_eq r.version s.version
      && text_eq r.test_id s.test_id
      && holds (Identity-discrete r.workload s.workload)
      && holds (Environment-discrete r.environment s.environment)
      && dataset_equal r.dataset s.dataset
