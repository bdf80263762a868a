-- ===== src/Tests/Collectors.antt =====
-- The collector of raw evidence on one manifest (internal/reconcile/raw_collector.go).
use perfeng_control_plane.Base.{ℕ, ◌≡◌, refl, [], ◌∷◌, Option, none, some}
use perfeng_control_plane.Base.Int.{pos}
unfoldable use perfeng_control_plane.Text.{Text-discrete}
use perfeng_control_plane.Text.{Text, text}
use perfeng_control_plane.Base.Distinct.{has}
use perfeng_control_plane.Contract.{valid_id}
use perfeng_control_plane.Time.Rfc3339.{parse_timestamp}
use perfeng_control_plane.Identity.{
  valid_contracts_version, valid_resource_id, valid_identity, valid_image, valid_hash,
}
use perfeng_control_plane.Run.History.{accepted_run}
use perfeng_control_plane.Run.Artifact.{Artifact, valid_artifact}
use perfeng_control_plane.RawResult.Producer.{Producer, RequestUri, valid_producer}
use perfeng_control_plane.RawResult.Manifest.{Manifest, validate}
use perfeng_control_plane.Reconcile.Evidence.{
  RawArtifactSet, valid_raw_manifest_format, valid_raw_artifact_set,
}
use perfeng_control_plane.Reconcile.Attempts.{done}
use perfeng_control_plane.Reconcile.Collector.{
  World, given, evidence_contracts_version, raw_manifest_format, valid_raw_manifest_reference,
  collect_raw_artifacts,
}
use perfeng_control_plane.Reconcile.Verified.{Verified, collect_raw_artifacts-Verified}
use perfeng_control_plane.Tests.Samples.{fresh_run}
use perfeng_control_plane.Tests.Evidence.{hash, artifact, samples, parse_url}

abbrev reference : Artifact
reference =
    artifact (text "6663abcd-0123-4abc-8abc-0123456789ab") (text "s3://evidence/raw") (text "raw")
      (text "application/json") (text "raw-result/v1")

abbrev producer : Producer
producer = record {
  name = text "k6";
  version = text "1.0.0";
  image =
      text "registry/k6@sha256:0123456789abcdef0123456789abcdef0123456789abcdef0123456789abcdef";
  artifact = none;
}

abbrev manifest : Manifest
manifest = record {
  schema_version = pos 1;
  kind = text "RawResult";
  contracts_version = text "1.2.3";
  run_id = fresh_run.id;
  test_id = text "checkout";
  workload = record { id = text "browse"; version = text "1.0.0"; sha256 = hash };
  producer = producer;
  measurement_window = record {
    start = text "2026-01-01T00:00:00Z";
    end = text "2026-01-01T00:01:00Z";
  };
  created_at = text "2026-01-01T00:02:00Z";
  artifacts = samples ∷ [];
}

abbrev no_uri : Text → Option RequestUri
no_uri address = none

abbrev decode : Text → Option Manifest
decode bytes = some manifest

abbrev bucket : World ℕ
bucket = record {
  resolve_contracts_version = λ n principal r. (n, given (text "1.2.3"));
  resolve_raw_manifest = λ n principal r. (n, given reference);
  read = λ n a. (n, given (text "bytes"));
  approve_raw_manifest = λ n principal r m. (n, none);
  context_error = λ n. none;
}

abbrev bucket_set : RawArtifactSet
bucket_set = record { manifest = reference; artifacts = samples ∷ [] }

bucket-collected :
    collect_raw_artifacts bucket parse_url no_uri decode 0 (text "alice") fresh_run
    ≡ (0, done bucket_set)
unfolding collect_raw_artifacts Text-discrete valid_id accepted_run evidence_contracts_version
    valid_contracts_version valid_raw_manifest_reference valid_raw_manifest_format valid_artifact
    validate valid_resource_id valid_identity valid_producer valid_image parse_timestamp has
    raw_manifest_format valid_raw_artifact_set valid_hash
bucket-collected = refl

collect_raw_artifacts-Verified_example :
    Verified bucket parse_url no_uri decode 0 (text "alice") fresh_run bucket_set
collect_raw_artifacts-Verified_example =
    collect_raw_artifacts-Verified bucket parse_url no_uri decode 0 0 (text "alice") fresh_run
      bucket_set bucket-collected
