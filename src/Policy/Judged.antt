-- ===== src/Policy/Judged.antt =====
-- What an approved evaluation says.
use perfeng_control_plane.Base.{
  ◌≡◌, ◌≢◌, refl, Bool, true, false, Option, none, some, arith, sym, inl, inr, ◌⊎◌, is_none, not,
  ◌&&◌, ◌||◌, if◌then◌else◌,
}
use mathlib.Core.Path.{subst}
use perfeng_control_plane.Float64.{Float64, is_finite}
use perfeng_control_plane.Text.{Text, Text-discrete, text_eq}
use perfeng_control_plane.Run.Artifact.{Artifact}
use perfeng_control_plane.Analysis.Report
use perfeng_control_plane.Analysis.Report.{Evaluation, Effect}
use perfeng_control_plane.Analysis.Valid.{pass, fail, inconclusive, not_evaluated}
use perfeng_control_plane.Policy.Document.{Rule, Regression, SloRequirement}
use perfeng_control_plane.Policy.Verdicts.{
  passes, same, slo_value, change_agrees, names_approved, degradation, fails, close, within,
  compared, slo_verdict, regression_verdict,
}
unfoldable use perfeng_control_plane.Policy.Verdicts.{
  approves, slo_approves, regression_approves, approves_quality,
}

-- An objective: not asked for, met by the value of the report, missed by it, or undecided.
pub data SloJudged : Option SloRequirement → Report.Slo → Type 0 where
  not_asked : {o : Report.Slo} → o.status ≡ not_evaluated → SloJudged none o
  met :
      {r : SloRequirement} {o : Report.Slo} (value : Float64)
      → o.status ≡ pass
      → o.value ≡ some value
      → passes r value ≡ true
      → SloJudged (some r) o
  missed :
      {r : SloRequirement} {o : Report.Slo} (value : Float64)
      → o.status ≡ fail
      → o.value ≡ some value
      → passes r value ≡ false
      → SloJudged (some r) o
  undecided :
      {r : SloRequirement} {o : Report.Slo}
      → o.status ≢ pass
      → o.status ≢ fail
      → o.status ≢ not_evaluated
      → SloJudged (some r) o

-- The values of a report that a comparison rests on: those of the approved reference, with an effect
-- that is the degradation from it.
pub record Compares (r : Regression) (o : Report.Regression) (a : Artifact) (change : Float64)
    : Type 0 where
  pub candidate : Float64
  pub reference : Float64
  pub effect : Effect
  pub named : o.reference_artifact_id ≡ some a.id
  pub candidate_given : o.candidate_value ≡ some candidate
  pub reference_given : o.reference_value ≡ some reference
  pub effect_given : o.effect ≡ some effect
  pub kind : effect.kind ≡ r.practical_difference.kind
  pub degrades : degradation r candidate reference ≡ some change
  pub finite : is_finite change ≡ true
  pub agrees : close change effect.value ≡ true

pub data RegressionJudged : Option Regression → Report.Regression → Option Artifact → Type 0 where
  not_asked :
      {o : Report.Regression} {approved : Option Artifact}
      → o.status ≡ not_evaluated
      → RegressionJudged none o approved
  held :
      {r : Regression} {o : Report.Regression} {a : Artifact} (change : Float64)
      → o.status ≡ pass
      → Compares r o a change
      → fails r change ≡ false
      → RegressionJudged (some r) o (some a)
  regressed :
      {r : Regression} {o : Report.Regression} {a : Artifact} (change : Float64)
      → o.status ≡ fail
      → Compares r o a change
      → fails r change ≡ true
      → RegressionJudged (some r) o (some a)
  undecided :
      {r : Regression} {o : Report.Regression} {approved : Option Artifact}
      → o.status ≡ inconclusive
      → RegressionJudged (some r) o approved

pub record Judged (r : Rule) (e : Evaluation) (approved : Option Artifact) : Type 0 where
  pub name : e.metric.name ≡ r.metric.name
  pub statistic : e.metric.statistic ≡ r.metric.statistic
  pub unit : e.metric.unit ≡ r.metric.unit
  pub quality : (e.quality.status ≢ pass) ⊎ (within r.quality e.quality ≡ true)
  pub slo : SloJudged r.slo e.slo
  pub regression : RegressionJudged r.regression e.regression approved

is_text : (s t : Text) → text_eq s t ≡ true → s ≡ t
is_text s t h = ground arith

pass-fail : pass ≢ fail
pass-fail h = absurd (ground arith)

slo_approves-SloJudged :
    (r : SloRequirement) (v : Option Float64) (o : Report.Slo)
    → o.value ≡ v
    → o.status ≢ not_evaluated
    → slo_approves r o ≡ true
    → SloJudged (some r) o
unfolding slo_approves
slo_approves-SloJudged r v o at n h = elim (Text-discrete o.status pass) [
  | yes p ↦ met_if v at p (ground arith)
  | no p ↦ elim (Text-discrete o.status fail) [
    | yes f ↦ missed_if v at f (ground arith)
    | no f ↦ SloJudged.undecided p f n
  ]
]
  where
    met_if :
        (v : Option Float64)
        → o.value ≡ v
        → o.status ≡ pass
        → slo_value r o.status v ≡ true
        → SloJudged (some r) o
    met_if none at p h = absurd (ground arith)
    met_if (some value) at p h = SloJudged.met value p at (ground arith)

    missed_if :
        (v : Option Float64)
        → o.value ≡ v
        → o.status ≡ fail
        → slo_value r o.status v ≡ true
        → SloJudged (some r) o
    missed_if none at p h = absurd (ground arith)
    missed_if (some value) at p h = SloJudged.missed value p at (ground (arith, pass-fail))

slo_verdict-SloJudged :
    (r : Option SloRequirement) (o : Report.Slo) → slo_verdict r o ≡ true → SloJudged r o
unfolding slo_approves
slo_verdict-SloJudged none o h = SloJudged.not_asked (ground arith)
slo_verdict-SloJudged (some r) o h =
    slo_approves-SloJudged r o.value o refl (ground arith) (ground arith)

-- The parts of a comparison that passes its checks.
record Compared (r : Regression) (status : Text) (c v : Option Float64) (ef : Option Effect)
    : Type 0 where
  pub candidate : Float64
  pub reference : Float64
  pub effect : Effect
  pub change : Float64
  pub candidate_given : c ≡ some candidate
  pub reference_given : v ≡ some reference
  pub effect_given : ef ≡ some effect
  pub kind : effect.kind ≡ r.practical_difference.kind
  pub degrades : degradation r candidate reference ≡ some change
  pub finite : is_finite change ≡ true
  pub agrees : close change effect.value ≡ true
  pub decides : same (text_eq status fail) (fails r change) ≡ true

changes :
    (r : Regression) (status : Text) (effect : Float64) (d : Option Float64)
    → change_agrees r status effect d ≡ true
    → (change : Float64) × (d ≡ some change)
      × (is_finite change ≡ true)
      × (close change effect ≡ true)
      × (same (text_eq status fail) (fails r change) ≡ true)
changes r status effect none h = absurd (ground arith)
changes r status effect (some change) h =
    (change, refl, ground (arith, h), ground (arith, h), ground (arith, h))

compared-Compared :
    (r : Regression) (status : Text) (c v : Option Float64) (ef : Option Effect)
    → compared r status c v ef ≡ true
    → Compared r status c v ef
compared-Compared r status (some c) (some v) (some ef) h =
    let (kind, agree) : (ef.kind ≡ r.practical_difference.kind)
        × (change_agrees r status ef.value (degradation r c v) ≡ true) =
      ground (arith, h) in
    let (change, degrades, finite, agrees, decides) =
      changes r status ef.value (degradation r c v) agree in
    record {
      candidate = c;
      reference = v;
      effect = ef;
      change = change;
      candidate_given = refl;
      reference_given = refl;
      effect_given = refl;
      kind = kind;
      degrades = degrades;
      finite = finite;
      agrees = agrees;
      decides = decides;
    }
compared-Compared r status none v ef h = absurd (ground arith)
compared-Compared r status (some c) none ef h = absurd (ground arith)
compared-Compared r status (some c) (some v) none h = absurd (ground arith)

to_compares :
    {r : Regression} {o : Report.Regression} {a : Artifact}
    (x : Compared r o.status o.candidate_value o.reference_value o.effect)
    → o.reference_artifact_id ≡ some a.id
    → Compares r o a x.change
to_compares x named = record {
  candidate = x.candidate;
  reference = x.reference;
  effect = x.effect;
  named = named;
  candidate_given = x.candidate_given;
  reference_given = x.reference_given;
  effect_given = x.effect_given;
  kind = x.kind;
  degrades = x.degrades;
  finite = x.finite;
  agrees = x.agrees;
}

approved_name :
    (id : Option Text) (approved : Option Artifact)
    → names_approved id approved ≡ true
    → (is_none approved || is_none id) ≡ false
    → (a : Artifact) × (approved ≡ some a) × (id ≡ some a.id)
approved_name none approved n h = absurd (ground arith)
approved_name (some id) none n h = absurd (ground arith)
approved_name (some id) (some a) n h = (a, refl, ground (arith, n))

branches :
    (n p f i u c : Bool)
    → (if not n then false else if not p && not f then i else if u then false else c) ≡ true
    → (n ≡ true)
      × (((p ≡ false) × (f ≡ false) × (i ≡ true))
          ⊎ ((u ≡ false) × (c ≡ true) × ((p ≡ true) ⊎ (f ≡ true))))
branches n p f i u c h = ground arith

decided :
    (r : Regression) (o : Report.Regression) (a : Artifact)
    (x : Compared r o.status o.candidate_value o.reference_value o.effect)
    → o.reference_artifact_id ≡ some a.id
    → (text_eq o.status pass ≡ true) ⊎ (text_eq o.status fail ≡ true)
    → RegressionJudged (some r) o (some a)
decided r o a x named (inl p) =
    RegressionJudged.held x.change (ground (arith, p)) (to_compares x named)
      (ground (arith, p, x.decides, pass-fail))
decided r o a x named (inr f) =
    RegressionJudged.regressed x.change (ground (arith, f)) (to_compares x named)
      (ground (arith, f, x.decides))

regression_approves-RegressionJudged :
    (r : Regression) (o : Report.Regression) (approved : Option Artifact)
    → regression_approves r o approved ≡ true
    → RegressionJudged (some r) o approved
unfolding regression_approves
regression_approves-RegressionJudged r o approved h =
    let c = compared r o.status o.candidate_value o.reference_value o.effect in
    let (n, rest) =
      branches (names_approved o.reference_artifact_id approved) (text_eq o.status pass)
        (text_eq o.status fail) (text_eq o.status inconclusive)
        (is_none approved || is_none o.reference_artifact_id) c h in
    elim rest [
      | inl (p, f, i) ↦ RegressionJudged.undecided (is_text o.status inconclusive i)
      | inr (u, made, which) ↦
          let (a, e, named) = approved_name o.reference_artifact_id approved n u in
          subst (RegressionJudged (some r) o) (sym e) (
            decided r o a
              (compared-Compared r o.status o.candidate_value o.reference_value o.effect made) named
              which)
    ]

regression_verdict-RegressionJudged :
    (r : Option Regression) (o : Report.Regression) (approved : Option Artifact)
    → regression_verdict r o approved ≡ true
    → RegressionJudged r o approved
regression_verdict-RegressionJudged none o approved h = RegressionJudged.not_asked (ground arith)
regression_verdict-RegressionJudged (some r) o approved h =
    regression_approves-RegressionJudged r o approved (ground (arith, h))

pub approves-Judged :
    (r : Rule) (e : Evaluation) (approved : Option Artifact)
    → approves r e approved ≡ true
    → Judged r e approved
unfolding approves approves_quality
approves-Judged r e approved h =
    let (name, statistic, unit, quality, slo, regression) : (e.metric.name ≡ r.metric.name)
        × (e.metric.statistic ≡ r.metric.statistic)
        × (e.metric.unit ≡ r.metric.unit)
        × (approves_quality r.quality e.quality ≡ true)
        × (slo_verdict r.slo e.slo ≡ true)
        × (regression_verdict r.regression e.regression approved ≡ true) =
      ground (arith, h) in
    record {
      name = name;
      statistic = statistic;
      unit = unit;
      quality = elim (Text-discrete e.quality.status pass) [
        | yes p ↦ inr (ground (arith, quality))
        | no p ↦ inl p
      ];
      slo = slo_verdict-SloJudged r.slo e.slo slo;
      regression =
          regression_verdict-RegressionJudged r.regression e.regression approved regression;
    }
