-- ===== src/Analysis/Valid.antt =====
-- Manifest.Validate and the checks of its parts.
use perfeng_control_plane.Base.{
  Bool, true, false, List, [], ◌∷◌, Option, none, some, ◌&&◌, ◌||◌, not, ◌==◌, is_none,
}
use perfeng_control_plane.Base.Int.{ℤ, pos, negsuc}
use perfeng_control_plane.Float64.{Float64, negative, is_finite}
use perfeng_control_plane.Base.Distinct.{has}
use perfeng_control_plane.Text.{Text, Text-discrete, text, text_eq}
use perfeng_control_plane.Text.Regex.{Regex, seq, star, one_of, matches, lower, lower_digit, among}
use perfeng_control_plane.Text.Utf8.{has_text}
use perfeng_control_plane.Time.Rfc3339.{parse_timestamp}
use perfeng_control_plane.Identity.{valid_identity, valid_resource_id, valid_contracts_version}
use perfeng_control_plane.Run.Artifact.{Artifact, Url, valid_artifact}
use perfeng_control_plane.Baseline.Evidence.{no_reasons, below_one, present_and}
use perfeng_control_plane.RawResult.Producer.{valid_producer}
use perfeng_control_plane.Analysis.Report.{
  Policy, Metric, Metric-discrete, Quality, Slo, Effect, Method, Regression, Evaluation, Manifest,
}

abbrev pub pass : Text
pass = text "PASS"

abbrev pub fail : Text
fail = text "FAIL"

abbrev pub inconclusive : Text
inconclusive = text "INCONCLUSIVE"

abbrev pub not_evaluated : Text
not_evaluated = text "NOT_EVALUATED"

unfoldable pub decisive : Text → Bool
decisive status = text_eq status pass || text_eq status fail

-- The loop over the reasons, with those already seen.
unfoldable pub distinct_reasons : List Text → List Text → Bool
distinct_reasons seen [] = true
distinct_reasons seen (r ∷ rs) =
    has_text r && not (has Text-discrete r seen) && distinct_reasons (r ∷ seen) rs

unfoldable pub valid_verdict : Text → List Text → List Text → Bool
unfolding distinct_reasons has
valid_verdict status reasons allowed =
    has Text-discrete status allowed
    && not (not (text_eq status pass) && no_reasons reasons)
    && distinct_reasons [] reasons

-- `finite` of one pointer.
abbrev pub finite_or_nil : Option Float64 → Bool
finite_or_nil none = true
finite_or_nil (some value) = is_finite value

unfoldable pub valid_quality : Quality → Bool
unfolding valid_verdict negative
valid_quality q =
    valid_verdict q.status q.reasons
      (pass ∷ text "INVALID" ∷ text "UNSTABLE" ∷ inconclusive ∷ not_evaluated ∷ [])
    && finite_or_nil q.cv
    && not (present_and below_one q.samples)
    && not (present_and negative q.cv)

abbrev outcomes : List Text
outcomes = pass ∷ fail ∷ inconclusive ∷ not_evaluated ∷ []

unfoldable pub valid_slo : Slo → Bool
unfolding valid_verdict decisive
valid_slo s =
    valid_verdict s.status s.reasons outcomes
    && finite_or_nil s.value
    && (not (decisive s.status) || not (is_none s.value))

abbrev known_reference : List Text → Option Text → Bool
known_reference references none = true
known_reference references (some id) = has Text-discrete id references

abbrev valid_effect : Option Effect → Bool
valid_effect none = true
valid_effect (some e) =
    (text_eq e.kind (text "relative") || text_eq e.kind (text "absolute")) && is_finite e.value

abbrev valid_method : Option Method → Bool
valid_method none = true
valid_method (some m) = has_text m.name && valid_contracts_version m.version

abbrev complete : Regression → Bool
complete r =
    not (is_none r.candidate_value)
    && not (is_none r.reference_value)
    && not (is_none r.reference_artifact_id)
    && not (is_none r.effect)
    && not (is_none r.method)

unfoldable pub valid_regression : List Text → Regression → Bool
unfolding valid_verdict decisive
valid_regression references r =
    valid_verdict r.status r.reasons outcomes
    && (finite_or_nil r.candidate_value && finite_or_nil r.reference_value)
    && known_reference references r.reference_artifact_id
    && valid_effect r.effect
    && valid_method r.method
    && (not (decisive r.status) || complete r)

-- `^[a-z][a-z0-9_.]*$`
abbrev pub metric_name_pattern : Regex
metric_name_pattern = seq (one_of lower) (star (one_of (λ c. lower_digit c || among "_." c)))

unfoldable pub valid_statistic : Text → Bool
valid_statistic statistic =
    text_eq statistic (text "mean")
    || text_eq statistic (text "median")
    || text_eq statistic (text "p90")
    || text_eq statistic (text "p95")
    || text_eq statistic (text "p99")
    || text_eq statistic (text "min")
    || text_eq statistic (text "max")

unfoldable pub valid_metric : Metric → Bool
unfolding matches
valid_metric m =
    matches metric_name_pattern m.name && has_text m.unit && valid_statistic m.statistic

unfoldable pub valid_evaluation : List Text → Evaluation → Bool
unfolding decisive
valid_evaluation references e =
    valid_resource_id e.rule_id
    && valid_metric e.metric
    && valid_quality e.quality
    && valid_slo e.slo
    && valid_regression references e.regression
    && (text_eq e.quality.status pass
        || not (decisive e.slo.status || decisive e.regression.status))

-- The loop over the evaluations, with the rules and the metrics already seen.
unfoldable pub valid_evaluations : List Text → List Text → List Metric → List Evaluation → Bool
unfolding has
valid_evaluations references rules metrics [] = true
valid_evaluations references rules metrics (e ∷ es) =
    valid_evaluation references e
    && not (has Text-discrete e.rule_id rules)
    && not (has Metric-discrete e.metric metrics)
    && valid_evaluations references (e.rule_id ∷ rules) (e.metric ∷ metrics) es

unfoldable pub valid_policy : Policy → Bool
valid_policy p =
    valid_identity (record { id = p.id; version = p.version; sha256 = p.sha256 })
    && (text_eq p.mode (text "observe") || text_eq p.mode (text "inform"))

abbrev no_evaluations : List Evaluation → Bool
no_evaluations [] = true
no_evaluations (e ∷ es) = false

abbrev is_one : ℤ → Bool
is_one (pos n) = n == 1
is_one (negsuc n) = false

abbrev pub reference_ids : List Artifact → List Text
reference_ids [] = []
reference_ids (a ∷ rest) = a.id ∷ reference_ids rest

module _ (parse_url : Text → Option Url) where
  unfoldable pub valid_normalized_artifact : Artifact → Bool
  valid_normalized_artifact a =
      valid_artifact parse_url a
      && text_eq a.kind (text "normalized")
      && text_eq a.media_type (text "application/json")
      && text_eq a.format (text "normalized-result/v1")

  -- The loop over the references, with the identifiers and the locations already seen.
  unfoldable pub valid_references : Text → List Text → List Text → List Artifact → Bool
  valid_references run_id ids uris [] = true
  valid_references run_id ids uris (a ∷ rest) =
      valid_normalized_artifact a
      && not (text_eq a.run_id run_id)
      && not (has Text-discrete a.id ids)
      && not (has Text-discrete a.uri uris)
      && valid_references run_id (a.id ∷ ids) (a.uri ∷ uris) rest

  unfoldable pub validate : Manifest → Text → Text → Bool
  unfolding valid_references
  validate m expected_run_id expected_contracts_version =
      is_one m.schema_version
      && text_eq m.kind (text "AnalysisResult")
      && text_eq m.contracts_version expected_contracts_version
      && text_eq m.run_id expected_run_id
      && valid_contracts_version m.contracts_version
      && valid_resource_id m.test_id
      && not (is_none (parse_timestamp m.created_at))
      && valid_producer m.producer
      && not m.blocking
      && valid_policy m.policy
      && not (no_evaluations m.evaluations)
      && valid_normalized_artifact m.candidate_artifact
      && text_eq m.candidate_artifact.run_id m.run_id
      && valid_references m.run_id (m.candidate_artifact.id ∷ []) (m.candidate_artifact.uri ∷ [])
          m.reference_artifacts
      && valid_evaluations (reference_ids m.reference_artifacts) [] [] m.evaluations
