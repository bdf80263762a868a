-- ===== src/Tests/Baselines.antt =====
-- Baseline versions (internal/baseline/domain.go).
use perfeng_control_plane.Base.{ℕ, ◌+◌, ◌≡◌, refl, none, some, true, false, [], ◌∷◌, Option}
use perfeng_control_plane.Base.Int.{pos}
use perfeng_control_plane.Float64.{finite}
use perfeng_control_plane.Text.{Text, text, Text-discrete}
use perfeng_control_plane.Run.Artifact.{Artifact, Url}
use perfeng_control_plane.Baseline.Data.{
  State, State-discrete, candidate, qualified, approved, retired, passed, Record, Change, Selection,
  Environment, Environment-discrete, Event, Qualification,
}
use perfeng_control_plane.Identity.{Identity, Identity-discrete}
use perfeng_control_plane.Baseline.Evidence.{
  valid_dataset, valid_environment, valid_software, valid_qualification, dataset_equal,
}
use perfeng_control_plane.Baseline.Lifecycle.{
  valid_record, matches_selection, transition, valid_provenance, valid_standing, valid_lifecycle,
  valid_trail, last_event, valid_event, allowed_transition, valid_selection,
  valid_evidence_artifact,
}
use perfeng_control_plane.Baseline.Trail.{states}
use perfeng_control_plane.Baseline.Decision.{outcome, transition-outcome}
use perfeng_control_plane.Baseline.Approved.{Passed, matches_selection-evidence}
use perfeng_control_plane.Tests.Samples.{noon, hash}

-- The address parser, on the one address that is used here.
abbrev parser : Text → Option Url
parser uri =
    some (record { hostname = text "bucket"; has_user = false; raw_query = []; fragment = [] })

abbrev run_name : Text
run_name = text "perf-20260903-000000-0a0b0c0d"

abbrev evidence : Artifact
evidence = record {
  id = text "1cfa0000-0000-4000-8000-000000000001";
  run_id = run_name;
  kind = text "normalized";
  uri = text "s3://bucket/runs/normalized.json";
  sha256 = hash;
  size_bytes = pos 42;
  media_type = text "application/json";
  format = text "normalized-result/v1";
}

abbrev identity : Identity
identity = record { id = text "shop"; version = text "1.2.0"; sha256 = hash }

abbrev environment : Environment
environment = record { identity = identity; fingerprint = hash }

abbrev event : State → ℕ → Event
event state at = record { state = state; at = at; actor = text "ann"; reason = text "reviewed" }

abbrev proof : Qualification
proof = record {
  status = passed;
  reasons = [];
  sample_count = some (pos 30);
  maximum_cv = some (finite false 1 (pos 0));
}

abbrev anchor : Record
anchor = record {
  schema_version = 1;
  kind = text "PerformanceBaseline";
  id = text "shop-checkout";
  version = text "1.0.0";
  revision = 3;
  state = approved;
  test_id = text "checkout";
  source_run_id = run_name;
  artifact = evidence;
  software = record {
    git_sha = text "0123456789abcdef0123456789abcdef01234567";
    image =
        text
          "ghcr.io/acme/shop@sha256:0123456789abcdef0123456789abcdef0123456789abcdef0123456789abcdef";
    version = [];
  };
  workload = identity;
  environment = environment;
  dataset = record { kind = text "none"; id = []; version = []; sha256 = []; seed = none };
  qualification = proof;
  created_at = noon;
  lifecycle = event candidate noon ∷ event qualified noon ∷ event approved (noon + 1000) ∷ [];
}

anchor-valid : valid_record parser anchor ≡ true
unfolding valid_record valid_provenance valid_standing valid_lifecycle valid_trail last_event
    valid_event allowed_transition valid_qualification valid_evidence_artifact valid_dataset
    valid_environment valid_software Text-discrete State-discrete
anchor-valid = refl

abbrev retirement : Change
retirement = record {
  state = retired;
  qualification = none;
  actor = text "bob";
  reason = text "superseded";
}

transition-outcome_example :
    transition parser anchor 3 retirement (noon + 2000) ≡ outcome anchor retirement (noon + 2000)
transition-outcome_example = transition-outcome parser anchor retirement (noon + 2000) anchor-valid

abbrev selection : Selection
selection = record {
  id = text "shop-checkout";
  version = text "1.0.0";
  test_id = text "checkout";
  workload = identity;
  environment = environment;
  dataset = record { kind = text "none"; id = []; version = []; sha256 = []; seed = none };
}

anchor-selected : matches_selection parser anchor selection ≡ true
unfolding matches_selection valid_record valid_provenance valid_standing valid_lifecycle valid_trail
    last_event valid_event allowed_transition valid_qualification valid_evidence_artifact
    valid_dataset valid_environment valid_software Text-discrete State-discrete valid_selection
    Identity-discrete Environment-discrete dataset_equal
anchor-selected = refl

matches_selection-evidence_example :
    Passed anchor.qualification
    × (states anchor.lifecycle ≡ candidate ∷ qualified ∷ approved ∷ [])
    × (anchor.revision ≡ 3)
    × (anchor.id ≡ selection.id)
    × (anchor.version ≡ selection.version)
    × (anchor.test_id ≡ selection.test_id)
    × (anchor.workload ≡ selection.workload)
    × (anchor.environment ≡ selection.environment)
matches_selection-evidence_example =
    matches_selection-evidence parser anchor selection anchor-selected
