-- ===== src/Tests/Policies.antt =====
-- A report against a policy (internal/policy/policy.go).
use perfeng_control_plane.Base.{ℕ, ◌≡◌, refl, false, [], ◌∷◌, Option, none, some, ◌↔◌}
use perfeng_control_plane.Base.Int.{pos, negsuc}
use perfeng_control_plane.Base.Distinct.{NoRepeat, has, without}
use perfeng_control_plane.Base.Maps.{lookup, insert}
use perfeng_control_plane.Float64.{Float64, finite, is_finite, is_nan, is_inf, negative}
use perfeng_control_plane.Float64.Order.{float_le, float_gt, is_zero}
use perfeng_control_plane.Float64.Arithmetic.{
  float_sub, float_mul, float_div, float_max, round, bits,
}
use perfeng_control_plane.Text.{Text, Text-discrete, text}
use perfeng_control_plane.Text.Regex.{matches}
use perfeng_control_plane.Text.Utf8.{valid_string, has_text}
use perfeng_control_plane.Time.Rfc3339.{parse_timestamp, skip, pair_at, fraction}
use perfeng_control_plane.Errors.{ok}
use perfeng_control_plane.Run.Artifact.{Artifact, Url}
use perfeng_control_plane.Analysis.Report
use perfeng_control_plane.Analysis.Valid.{
  pass, valid_verdict, distinct_reasons, decisive, valid_normalized_artifact,
}
use perfeng_control_plane.Policy.Document.{
  Document, Rule, Reference, Reference-discrete, Selector-discrete, baseline_references,
}
use perfeng_control_plane.Policy.Document as Doc
use perfeng_control_plane.Policy.Verdicts
use perfeng_control_plane.Analysis.Valid
use perfeng_control_plane.Identity
use perfeng_control_plane.Contract
use perfeng_control_plane.Baseline.Evidence
use perfeng_control_plane.RawResult.Producer
use perfeng_control_plane.Run.Artifact as Artifacts
unfoldable use perfeng_control_plane.Base.{ℕ_discrete}
use perfeng_control_plane.Policy.Verdicts.{BaselineResolution, approve_report_verdicts}
use perfeng_control_plane.Policy.References.{Listed, From, baseline_references-distinct}
use perfeng_control_plane.Policy.Approval.{Approved, approve_report_verdicts-Approved}
use perfeng_control_plane.Tests.Samples.{hash}

abbrev whole : ℕ → Float64
whole n = finite false n (pos 0)

abbrev latency : Report.Metric
latency = record { name = text "http.latency"; statistic = text "p95"; unit = text "ms" }

abbrev shop_base : Reference
shop_base = record { baseline_id = text "shop-base"; version = text "1.0.0" }

-- At most 200 ms, and less than 10 percent above the baseline.
abbrev latency_rule : Rule
latency_rule = record {
  id = text "latency";
  metric = latency;
  quality = none;
  slo = some (record { min = none; max = some (whole 200) });
  regression = some (record {
    direction = text "lower-is-better";
    practical_difference = record {
      kind = text "relative";
      value = finite false 3602879701896397 (negsuc 54);
    };
    reference = shop_base;
  });
}

abbrev document : Document
document = record {
  api_version = text "performance.perfeng.io/v1";
  kind = text "PerformancePolicy";
  metadata = record { name = text "shop"; version = text "1.2.0"; owner = text "team" };
  spec = record {
    mode = text "inform";
    missing_data = text "inconclusive";
    rules = latency_rule ∷ [];
  };
}

abbrev normalized : Text → Text → Text → Artifact
normalized id run_id uri = record {
  id = id;
  run_id = run_id;
  kind = text "normalized";
  uri = uri;
  sha256 = hash;
  size_bytes = pos 10;
  media_type = text "application/json";
  format = text "normalized-result/v1";
}

abbrev base_artifact : Artifact
base_artifact =
    normalized (text "0123abcd-0123-4abc-8abc-0123456789ab") (text "perf-20260101-000000-0a0b0c0d")
      (text "s3://evidence/base")

-- 105 ms against 100 ms.
abbrev evaluation : Report.Evaluation
evaluation = record {
  rule_id = text "latency";
  metric = latency;
  quality = record { status = pass; reasons = []; samples = none; cv = none };
  slo = record { status = pass; reasons = []; value = some (whole 105) };
  regression = record {
    status = pass;
    reasons = [];
    candidate_value = some (whole 105);
    reference_value = some (whole 100);
    reference_artifact_id = some base_artifact.id;
    effect =
        some (record { kind = text "relative"; value = finite false 3602879701896397 (negsuc 55) });
    method = some (record { name = text "difference"; version = text "1.0.0" });
  };
}

abbrev report : Report.Manifest
report = record {
  schema_version = pos 1;
  kind = text "AnalysisResult";
  contracts_version = text "0.4.0";
  run_id = text "perf-20260903-000000-0a0b0c0d";
  test_id = text "checkout";
  created_at = text "2026-09-03T12:00:00.5+02:00";
  producer = record {
    name = text "analyzer";
    version = text "1.0.0";
    image =
        text
          "ghcr.io/acme/analyzer@sha256:0123456789abcdef0123456789abcdef0123456789abcdef0123456789abcdef";
    artifact = none;
  };
  policy = record { id = text "shop"; version = text "1.2.0"; sha256 = hash; mode = text "inform" };
  candidate_artifact =
      normalized (text "fedcba98-0123-4abc-8abc-0123456789ab")
        (text "perf-20260903-000000-0a0b0c0d") (text "s3://evidence/candidate");
  reference_artifacts = base_artifact ∷ [];
  blocking = false;
  evaluations = evaluation ∷ [];
}

abbrev base_resolution : BaselineResolution
base_resolution = record {
  id = text "shop-base";
  version = text "1.0.0";
  artifact = some base_artifact;
}

abbrev any_url : Text → Option Url
any_url uri =
    some (record { hostname = text "evidence"; has_user = false; raw_query = []; fragment = [] })

abbrev decode : Text → Option Document
decode bytes = some document

abbrev digest : Text → Text
digest bytes = hash

approved :
    approve_report_verdicts any_url decode digest none [] (base_resolution ∷ []) report ≡ ok tt
unfolding approve_report_verdicts Text-discrete Identity.valid_resource_id
    Identity.valid_contracts_version Evidence.valid_text Doc.valid_metric Valid.valid_statistic
    Doc.valid_slo is_finite is_nan is_inf Doc.valid_regression float_gt float_le Valid.validate
    parse_timestamp Producer.valid_producer Identity.valid_image ℕ_discrete Report.Metric-discrete
    decisive distinct_reasons Valid.valid_evaluation Valid.valid_evaluations Valid.valid_metric
    valid_normalized_artifact Valid.valid_policy Valid.valid_quality Valid.valid_references
    Valid.valid_regression Valid.valid_slo valid_verdict has without insert lookup Contract.valid_id
    bits float_div float_max float_mul float_sub round is_zero negative Identity.valid_hash
    Identity.valid_identity Reference-discrete Selector-discrete baseline_references
    Doc.references_from Doc.valid_quality Doc.valid_rule Doc.valid_rules Doc.validate
    Verdicts.approves Verdicts.approves_quality Verdicts.approves_rules Verdicts.by_rule
    Verdicts.close Verdicts.degradation Verdicts.parse Verdicts.passes Verdicts.regression_approves
    Verdicts.resolve_each Verdicts.resolved_baselines Verdicts.slo_approves Artifacts.plain_url
    Artifacts.valid_artifact Artifacts.valid_shape matches has_text valid_string fraction pair_at
    skip
approved = refl

approve_report_verdicts-Approved_example :
    Approved any_url decode digest [] (base_resolution ∷ []) report
approve_report_verdicts-Approved_example =
    approve_report_verdicts-Approved any_url decode digest [] (base_resolution ∷ []) report approved

baseline_references-distinct_example :
    NoRepeat Reference-discrete (baseline_references document)
    × ((ref : Reference) → Listed ref (baseline_references document) ↔ From ref document.spec.rules)
baseline_references-distinct_example = baseline_references-distinct document
