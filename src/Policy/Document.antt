-- ===== src/Policy/Document.antt =====
-- The policy document, its validation and its baseline references.
use perfeng_control_plane.Base.{
  Bool, true, false, List, [], ◌∷◌, Option, none, some, ◌&&◌, ◌||◌, not, is_none, if◌then◌else◌,
}
unfoldable use perfeng_control_plane.Base.{ℕ_discrete}
use perfeng_control_plane.Base.Int.{ℤ}
use perfeng_control_plane.Float64.{Float64, is_finite}
use perfeng_control_plane.Float64.Order.{float_le, float_gt, zero_float}
use perfeng_control_plane.Base.Distinct.{has}
use perfeng_control_plane.Text.{Text, Text-discrete, text, text_eq}
use perfeng_control_plane.Text.Regex.{matches}
use perfeng_control_plane.Identity.{valid_resource_id, valid_contracts_version}
use perfeng_control_plane.Baseline.Evidence.{valid_text, below_one, present_and}
use perfeng_control_plane.Analysis.Report.{Metric}
use perfeng_control_plane.Analysis.Valid.{metric_name_pattern, valid_statistic, finite_or_nil}

pub record Metadata : Type 0 where
  pub name : Text
  pub version : Text
  pub owner : Text

pub record QualityRequirement : Type 0 where
  pub min_samples : Option ℤ
  pub max_cv : Option Float64

pub record SloRequirement : Type 0 where
  pub min : Option Float64
  pub max : Option Float64

pub record Reference : Type 0 where
  pub baseline_id : Text
  pub version : Text

unfoldable pub Reference-discrete : Discrete Reference
unfolding ℕ_discrete
Reference-discrete = hlevel ℕ_discrete

pub record PracticalDifference : Type 0 where
  pub kind : Text
  pub value : Float64

pub record Regression : Type 0 where
  pub direction : Text
  pub practical_difference : PracticalDifference
  pub reference : Reference

pub record Rule : Type 0 where
  pub id : Text
  pub metric : Metric
  pub quality : Option QualityRequirement
  pub slo : Option SloRequirement
  pub regression : Option Regression

pub record Spec : Type 0 where
  pub mode : Text
  pub missing_data : Text
  pub rules : List Rule

pub record Document : Type 0 where
  pub api_version : Text
  pub kind : Text
  pub metadata : Metadata
  pub spec : Spec

unfoldable pub valid_metric : Metric → Bool
unfolding matches
valid_metric m =
    matches metric_name_pattern m.name && valid_text m.unit && valid_statistic m.statistic

-- `finite(*cv) && *cv >= 0`
abbrev good_cv : Option Float64 → Bool
good_cv none = true
good_cv (some cv) = is_finite cv && float_le zero_float cv

unfoldable pub valid_quality : QualityRequirement → Bool
valid_quality q =
    (not (is_none q.min_samples) || not (is_none q.max_cv))
    && not (present_and below_one q.min_samples)
    && good_cv q.max_cv

abbrev ordered : Option Float64 → Option Float64 → Bool
ordered (some low) (some high) = float_le low high
ordered _ _ = true

unfoldable pub valid_slo : SloRequirement → Bool
valid_slo s =
    not (is_none s.min && is_none s.max)
    && finite_or_nil s.min
    && finite_or_nil s.max
    && ordered s.min s.max

unfoldable pub valid_regression : Regression → Bool
valid_regression r =
    (text_eq r.direction (text "lower-is-better") || text_eq r.direction (text "higher-is-better"))
    && (text_eq r.practical_difference.kind (text "relative")
        || text_eq r.practical_difference.kind (text "absolute"))
    && is_finite r.practical_difference.value
    && float_gt r.practical_difference.value zero_float
    && valid_resource_id r.reference.baseline_id
    && valid_contracts_version r.reference.version

abbrev nil_or {ℓ} : {A : Type ℓ} → (A → Bool) → Option A → Bool
nil_or good none = true
nil_or good (some a) = good a

unfoldable pub valid_rule : Rule → Bool
valid_rule r =
    valid_resource_id r.id
    && valid_metric r.metric
    && not (is_none r.slo && is_none r.regression)
    && nil_or valid_quality r.quality
    && nil_or valid_slo r.slo
    && nil_or valid_regression r.regression

-- The key of a metric in a policy: `[2]string{rule.Metric.Name, rule.Metric.Statistic}`.
pub record Selector : Type 0 where
  pub name : Text
  pub statistic : Text

unfoldable pub Selector-discrete : Discrete Selector
unfolding ℕ_discrete
Selector-discrete = hlevel ℕ_discrete

abbrev pub selector : Rule → Selector
selector r = record { name = r.metric.name; statistic = r.metric.statistic }

-- The loop over the rules, with the identifiers and the selectors already seen.
unfoldable pub valid_rules : List Text → List Selector → List Rule → Bool
unfolding has valid_rule
valid_rules ids selectors [] = true
valid_rules ids selectors (r ∷ rs) =
    valid_rule r
    && not (has Text-discrete r.id ids)
    && not (has Selector-discrete (selector r) selectors)
    && valid_rules (r.id ∷ ids) (selector r ∷ selectors) rs

abbrev no_rules : List Rule → Bool
no_rules [] = true
no_rules (r ∷ rs) = false

unfoldable pub validate : Document → Bool
unfolding valid_rules
validate d =
    text_eq d.api_version (text "performance.perfeng.io/v1")
    && text_eq d.kind (text "PerformancePolicy")
    && valid_resource_id d.metadata.name
    && valid_contracts_version d.metadata.version
    && valid_text d.metadata.owner
    && (text_eq d.spec.mode (text "observe") || text_eq d.spec.mode (text "inform"))
    && text_eq d.spec.missing_data (text "inconclusive")
    && not (no_rules d.spec.rules)
    && valid_rules [] [] d.spec.rules

abbrev pub with_reference : Option Regression → List Reference → List Reference → List Reference
with_reference none seen rest = rest
with_reference (some r) seen rest =
    if has Reference-discrete r.reference seen then rest else r.reference ∷ rest

abbrev pub now_seen : Option Regression → List Reference → List Reference
now_seen none seen = seen
now_seen (some r) seen =
    if has Reference-discrete r.reference seen then seen else r.reference ∷ seen

-- The loop over the rules, with the references already seen.
unfoldable pub references_from : List Reference → List Rule → List Reference
unfolding has
references_from seen [] = []
references_from seen (r ∷ rs) =
    with_reference r.regression seen (references_from (now_seen r.regression seen) rs)

unfoldable pub baseline_references : Document → List Reference
unfolding references_from
baseline_references d = references_from [] d.spec.rules
