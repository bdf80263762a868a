-- ===== src/Policy/Verdicts.antt =====
-- ApproveReportVerdicts. `decode` stands for the decoding of the policy bytes, which checks their
-- shape, and `sha256` for the digest of Go's library in hexadecimal; `parse_url` for net/url.
use perfeng_control_plane.Base.{
  Bool, true, false, List, [], ◌∷◌, Option, none, some, ◌&&◌, ◌||◌, not, ◌==◌, is_none, length,
  if◌then◌else◌,
}
use perfeng_control_plane.Base.Int.{ℤ, leb_ℤ, negsuc}
use perfeng_control_plane.Base.Distinct.{has, without}
use perfeng_control_plane.Base.Maps.{lookup, insert}
use perfeng_control_plane.Float64.{Float64, finite, is_finite}
use perfeng_control_plane.Float64.Order.{float_le, is_zero}
use perfeng_control_plane.Float64.Arithmetic.{
  float_sub, float_mul, float_div, float_neg, float_abs, float_max,
}
use perfeng_control_plane.Text.{Text, Text-discrete, text, text_eq}
use perfeng_control_plane.Errors.{Error, Result, ok, err, validation}
use perfeng_control_plane.Run.Artifact.{Artifact, Url}
use perfeng_control_plane.Analysis.Report
use perfeng_control_plane.Analysis.Report.{Evaluation, Manifest}
use perfeng_control_plane.Analysis.Valid.{
  pass, fail, inconclusive, not_evaluated, valid_normalized_artifact,
}
use perfeng_control_plane.Analysis.Valid
use perfeng_control_plane.Policy.Document.{
  Document, Rule, Regression, SloRequirement, QualityRequirement, Reference, Reference-discrete,
  validate, baseline_references,
}

pub record BaselineResolution : Type 0 where
  pub id : Text
  pub version : Text
  pub artifact : Option Artifact

abbrev pub resolved_reference : BaselineResolution → Reference
resolved_reference r = record { baseline_id = r.id; version = r.version }

unfoldable pub close : Float64 → Float64 → Bool
unfolding float_le float_sub float_mul float_max
close left right =
    let difference = float_abs (float_sub left right) in
    -- 1e-12 and 1e-9
    let tolerance = float_max (finite false 4951760157141521 (negsuc 91)) (
      float_mul (finite false 4835703278458517 (negsuc 81))
        (float_max (float_abs left) (float_abs right))) in
    float_le difference tolerance

abbrev above : Option Float64 → Float64 → Bool
above none value = true
above (some low) value = float_le low value

abbrev below : Option Float64 → Float64 → Bool
below none value = true
below (some high) value = float_le value high

-- The value lies within the bounds of the requirement.
unfoldable pub passes : SloRequirement → Float64 → Bool
passes r value = above r.min value && below r.max value

abbrev pub same : Bool → Bool → Bool
same true b = b
same false b = not b

abbrev pub slo_value : SloRequirement → Text → Option Float64 → Bool
slo_value r status none = false
slo_value r status (some value) = same (text_eq status pass) (passes r value)

unfoldable pub slo_approves : SloRequirement → Report.Slo → Bool
slo_approves r o =
    if not (text_eq o.status pass) && not (text_eq o.status fail)
    then true
    else slo_value r o.status o.value

abbrev enough : Option ℤ → Option ℤ → Bool
enough none samples = true
enough (some least) none = false
enough (some least) (some n) = leb_ℤ least n

abbrev steady : Option Float64 → Option Float64 → Bool
steady none cv = true
steady (some most) none = false
steady (some most) (some cv) = float_le cv most

abbrev pub within : Option QualityRequirement → Report.Quality → Bool
within none q = true
within (some r) q = enough r.min_samples q.samples && steady r.max_cv q.cv

unfoldable pub approves_quality : Option QualityRequirement → Report.Quality → Bool
approves_quality r q = not (text_eq q.status pass) || within r q

-- The degradation from the reference to the candidate: a difference, or one in parts of the reference,
-- which must not be zero.
unfoldable pub degradation : Regression → Float64 → Float64 → Option Float64
unfolding float_sub float_div is_zero
degradation r candidate reference =
    let change = float_sub candidate reference in
    let worse =
      if text_eq r.direction (text "higher-is-better") then float_neg change else change in
    if text_eq r.practical_difference.kind (text "relative")
    then if is_zero reference then none else some (float_div worse (float_abs reference))
    else some worse

abbrev pub fails : Regression → Float64 → Bool
fails r change = float_le r.practical_difference.value change

abbrev pub change_agrees : Regression → Text → Float64 → Option Float64 → Bool
change_agrees r status effect none = false
change_agrees r status effect (some change) =
    is_finite change && close change effect && same (text_eq status fail) (fails r change)

abbrev pub compared :
    Regression → Text → Option Float64 → Option Float64 → Option Report.Effect → Bool
compared r status (some candidate) (some reference) (some effect) =
    text_eq effect.kind r.practical_difference.kind
    && change_agrees r status effect.value (degradation r candidate reference)
compared r status _ _ _ = false

-- The named reference is the approved one, if a reference is named.
abbrev pub names_approved : Option Text → Option Artifact → Bool
names_approved none approved = true
names_approved (some id) none = false
names_approved (some id) (some a) = text_eq id a.id

unfoldable pub regression_approves : Regression → Report.Regression → Option Artifact → Bool
unfolding degradation
regression_approves r o approved =
    if not (names_approved o.reference_artifact_id approved)
    then false
    else if not (text_eq o.status pass) && not (text_eq o.status fail)
    then text_eq o.status inconclusive
    else if is_none approved || is_none o.reference_artifact_id
    then false
    else compared r o.status o.candidate_value o.reference_value o.effect

abbrev pub slo_verdict : Option SloRequirement → Report.Slo → Bool
slo_verdict none o = text_eq o.status not_evaluated
slo_verdict (some r) o = not (text_eq o.status not_evaluated) && slo_approves r o

abbrev pub regression_verdict : Option Regression → Report.Regression → Option Artifact → Bool
regression_verdict none o approved = text_eq o.status not_evaluated
regression_verdict (some r) o approved =
    not (text_eq o.status not_evaluated) && regression_approves r o approved

unfoldable pub approves : Rule → Evaluation → Option Artifact → Bool
unfolding slo_approves regression_approves approves_quality
approves r e approved =
    text_eq e.metric.name r.metric.name
    && text_eq e.metric.statistic r.metric.statistic
    && text_eq e.metric.unit r.metric.unit
    && approves_quality r.quality e.quality
    && slo_verdict r.slo e.slo
    && regression_verdict r.regression e.regression approved

-- `evaluations[evaluation.RuleID] = evaluation` for each evaluation.
unfoldable pub by_rule : List (Text × Evaluation) → List Evaluation → List (Text × Evaluation)
by_rule m [] = m
by_rule m (e ∷ es) = by_rule (insert Text-discrete e.rule_id e m) es

-- `resolved[reference]`, nil when the key is absent.
abbrev pub approved_at : Option (Option Artifact) → Option Artifact
approved_at none = none
approved_at (some a) = a

abbrev pub approved_reference :
    List (Reference × Option Artifact) → Option Regression → Option Artifact
approved_reference resolved none = none
approved_reference resolved (some r) = approved_at (lookup Reference-discrete r.reference resolved)

abbrev pub evaluated : Rule → Option Evaluation → Option Artifact → Bool
evaluated r none approved = false
evaluated r (some e) approved = approves r e approved

-- The loop over the rules.
unfoldable pub approves_rules :
    List (Text × Evaluation) → List (Reference × Option Artifact) → List Rule → Bool
unfolding approves
approves_rules m resolved [] = true
approves_rules m resolved (r ∷ rs) =
    evaluated r (lookup Text-discrete r.id m) (approved_reference resolved r.regression)
    && approves_rules m resolved rs

abbrev pub all_met : List Reference → Bool
all_met [] = true
all_met (r ∷ rs) = false

module _ (parse_url : Text → Option Url) where
  abbrev pub usable : Option Artifact → Bool
  usable none = true
  usable (some a) = valid_normalized_artifact parse_url a

  -- The loop over the resolutions, with the references still wanted and those resolved.
  unfoldable pub resolve_each :
      List Reference
      → List (Reference × Option Artifact)
      → List BaselineResolution
      → Option (List (Reference × Option Artifact))
  unfolding has without
  resolve_each wanted resolved [] = if all_met wanted then some resolved else none
  resolve_each wanted resolved (b ∷ bs) =
      let rest =
        resolve_each (without Reference-discrete (resolved_reference b) wanted)
          (insert Reference-discrete (resolved_reference b) b.artifact resolved) bs in
      if not (is_none (lookup Reference-discrete (resolved_reference b) resolved))
        || not (has Reference-discrete (resolved_reference b) wanted)
        || not (usable b.artifact)
      then none
      else rest

  unfoldable pub resolved_baselines :
      Document → List BaselineResolution → Option (List (Reference × Option Artifact))
  unfolding baseline_references resolve_each
  resolved_baselines d bs =
      let resolved = resolve_each (baseline_references d) [] bs in
      if not (length bs == length (baseline_references d)) then none else resolved

  module _ (decode : Text → Option Document) (sha256 : Text → Text) where
    abbrev pub parsed : Option Document → Option Document
    parsed none = none
    parsed (some d) = if validate d then some d else none

    -- `Parse`.
    unfoldable pub parse : Text → Option Document
    unfolding validate
    parse bytes = parsed (decode bytes)

    abbrev pub same_policy : Document → Text → Manifest → Bool
    same_policy d bytes m =
        Valid.validate parse_url m m.run_id m.contracts_version
        && text_eq m.policy.id d.metadata.name
        && text_eq m.policy.version d.metadata.version
        && text_eq m.policy.sha256 (sha256 bytes)
        && text_eq m.policy.mode d.spec.mode

    abbrev pub covered :
        Document → Manifest → Option (List (Reference × Option Artifact)) → Result (Unit {0})
    covered d m none = err validation
    covered d m (some resolved) =
        if not (length (by_rule [] m.evaluations) == length d.spec.rules)
        then err validation
        else if approves_rules (by_rule [] m.evaluations) resolved d.spec.rules
        then ok tt
        else err validation

    abbrev pub approve_document :
        Text → List BaselineResolution → Manifest → Option Document → Result (Unit {0})
    approve_document bytes bs m none = err validation
    approve_document bytes bs m (some d) =
        if not (same_policy d bytes m)
        then err validation
        else covered d m (resolved_baselines d bs)

    abbrev pub under : Option Error → Result (Unit {0}) → Result (Unit {0})
    under none r = r
    under (some e) r = err e

    unfoldable pub approve_report_verdicts :
        Option Error → Text → List BaselineResolution → Manifest → Result (Unit {0})
    unfolding parse
    approve_report_verdicts ctx bytes bs m = under ctx (approve_document bytes bs m (parse bytes))
