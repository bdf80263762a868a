-- ===== src/Policy/Approval.antt =====
-- What an approved report is.
use perfeng_control_plane.Base.{
  ◌≤◌, ◌≡◌, refl, true, List, [], ◌∷◌, Option, none, some, arith, sym, inl, inr, length,
}
use mathlib.Core.Path.{subst}
use perfeng_control_plane.Base.Distinct.{In, first, later, has-cons, NoRepeat-covers}
unfoldable use perfeng_control_plane.Base.Distinct.{has, NoRepeat}
use perfeng_control_plane.Base.Maps.{lookup}
use perfeng_control_plane.Text.{Text, Text-discrete}
use perfeng_control_plane.Errors.{ok}
use perfeng_control_plane.Run.Artifact.{Artifact, Url}
use perfeng_control_plane.Analysis.Report.{Evaluation, Manifest}
use perfeng_control_plane.Policy.Document.{Document, Rule, Reference, baseline_references}
unfoldable use perfeng_control_plane.Policy.Document.{validate}
use perfeng_control_plane.Policy.Verdicts.{
  BaselineResolution, evaluated, approved_reference, resolved_baselines, by_rule, same_policy,
  parsed, covered, approve_document,
}
unfoldable use perfeng_control_plane.Policy.Verdicts.{
  approves_rules, parse, approve_report_verdicts,
}
use perfeng_control_plane.Policy.Coverage.{
  keys, rule_ids, lookup-has, by_rule-key, by_rule-value, valid_rules-NoRepeat, length-keys,
  length-rule_ids,
}
use perfeng_control_plane.Policy.Judged.{Judged, approves-Judged}
use perfeng_control_plane.Policy.Resolved.{Exactly, AllUsable, resolved_baselines-Exactly}

-- A rule of a policy is judged by an evaluation of the report under its identifier.
abbrev pub JudgedBy : List (Reference × Option Artifact) → List Evaluation → Rule → Type 0
JudgedBy resolved es r =
    (e : Evaluation) × In e es
    × (e.rule_id ≡ r.id)
    × Judged r e (approved_reference resolved r.regression)

abbrev pub RuleOf : List Rule → Evaluation → Type 0
RuleOf rs e = (r : Rule) × In r rs × (r.id ≡ e.rule_id)

found_rule :
    (r : Rule) (m : List (Text × Evaluation)) (o : Option Evaluation) (a : Option Artifact)
    → evaluated r o a ≡ true
    → (e : Evaluation) × (o ≡ some e) × Judged r e a
found_rule r m none a h = absurd (ground arith)
found_rule r m (some e) a h = (e, refl, approves-Judged r e a h)

-- A rule of the loop has an evaluation in the map.
judges :
    (m : List (Text × Evaluation)) (resolved : List (Reference × Option Artifact)) (rs : List Rule)
    → approves_rules m resolved rs ≡ true
    → (r : Rule) → In r rs
    → (e : Evaluation) × (lookup Text-discrete r.id m ≡ some e)
      × Judged r e (approved_reference resolved r.regression)
unfolding approves_rules
judges m resolved [] h r i = elim i [ ]
judges m resolved (s ∷ rs) h r (first same) =
    let mine : evaluated s (lookup Text-discrete s.id m) (approved_reference resolved s.regression)
        ≡ true =
      ground (arith, h) in
    subst
      (λ x.
        (e : Evaluation) × (lookup Text-discrete x.id m ≡ some e)
        × Judged x e (approved_reference resolved x.regression))
      (sym same) (found_rule s m (lookup Text-discrete s.id m) _ mine)
judges m resolved (s ∷ rs) h r (later i) = judges m resolved rs (ground (arith, h)) r i

rule_ids-In :
    (a : Text) (rs : List Rule)
    → has Text-discrete a (rule_ids rs) ≡ true
    → (r : Rule) × In r rs × (r.id ≡ a)
unfolding has
rule_ids-In a [] h = absurd (ground arith)
rule_ids-In a (r ∷ rs) h = elim (has-cons Text-discrete a r.id (rule_ids rs) h) [
  | inl e ↦ (r, first refl, e)
  | inr more ↦ let (s, i, e) = rule_ids-In a rs more in (s, later i, e)
]

by_rule-judges :
    (es : List Evaluation) (resolved : List (Reference × Option Artifact)) (rs : List Rule)
    → approves_rules (by_rule [] es) resolved rs ≡ true
    → (r : Rule) → In r rs
    → JudgedBy resolved es r
unfolding lookup
by_rule-judges es resolved rs h r i =
    let (e, at, judged) = judges (by_rule [] es) resolved rs h r i in
    elim (by_rule-value r.id e [] es at) [
      | inl (inside, same) ↦ (e, inside, same, judged)
      | inr before ↦ absurd (ground (arith, before))
    ]

-- As many rules as there are keys, each a key, leave no evaluation without a rule.
by_rule-rules :
    (es : List Evaluation) (resolved : List (Reference × Option Artifact)) (rs : List Rule)
    → NoRepeat Text-discrete (rule_ids rs)
    → length (by_rule [] es) ≡ length rs
    → approves_rules (by_rule [] es) resolved rs ≡ true
    → (e : Evaluation) → In e es
    → RuleOf rs e
by_rule-rules es resolved rs distinct size h e i =
    let inside = λ (a : Text) (k : has Text-discrete a (rule_ids rs) ≡ true).
      let (r, j, same) = rule_ids-In a rs k in
      let (f, at, _) = judges (by_rule [] es) resolved rs h r j in
      subst (λ x. has Text-discrete x (keys (by_rule [] es)) ≡ true) same
        (lookup-has r.id (by_rule [] es) f at) in
    let short : length (keys (by_rule [] es)) ≤ length (rule_ids rs) =
      omega (arith, size, length-keys (by_rule [] es), length-rule_ids rs) in
    let key = by_rule-key e [] es i in
    rule_ids-In e.rule_id rs (
      NoRepeat-covers Text-discrete (rule_ids rs) (keys (by_rule [] es)) distinct inside short
        e.rule_id key)

module _ (parse_url : Text → Option Url) (decode : Text → Option Document)
    (sha256 : Text → Text) where
  -- The report of a policy: every rule is judged by an evaluation, and every evaluation has a rule.
  pub record Approved (bytes : Text) (bs : List BaselineResolution) (m : Manifest) : Type 0 where
    pub policy : Document
    pub parsed : parse parse_url decode sha256 bytes ≡ some policy
    pub same : same_policy parse_url decode sha256 policy bytes m ≡ true
    pub exact : Exactly (baseline_references policy) bs
    pub fits : AllUsable parse_url bs
    pub resolved : List (Reference × Option Artifact)
    pub resolves : resolved_baselines parse_url policy bs ≡ some resolved
    pub judged : (r : Rule) → In r policy.spec.rules → JudgedBy resolved m.evaluations r
    pub ruled : (e : Evaluation) → In e m.evaluations → RuleOf policy.spec.rules e

  parsed-valid :
      (o : Option Document) (d : Document)
      → parsed parse_url decode sha256 o ≡ some d
      → validate d ≡ true
  parsed-valid none d h = absurd (ground arith)
  parsed-valid (some e) d h = ground arith

  valid-NoRepeat :
      (d : Document) → validate d ≡ true → NoRepeat Text-discrete (rule_ids d.spec.rules)
  unfolding validate
  valid-NoRepeat d h = (valid_rules-NoRepeat [] [] d.spec.rules (ground (arith, h))).0

  covered-parts :
      (d : Document) (m : Manifest) (o : Option (List (Reference × Option Artifact)))
      → covered parse_url decode sha256 d m o ≡ ok tt
      → (resolved : List (Reference × Option Artifact)) × (o ≡ some resolved)
        × (length (by_rule [] m.evaluations) ≡ length d.spec.rules)
        × (approves_rules (by_rule [] m.evaluations) resolved d.spec.rules ≡ true)
  covered-parts d m none h = absurd (ground arith)
  covered-parts d m (some resolved) h = (resolved, refl, ground (arith, h), ground (arith, h))

  document-Approved :
      (bytes : Text) (bs : List BaselineResolution) (m : Manifest) (o : Option Document)
      → parse parse_url decode sha256 bytes ≡ o
      → approve_document parse_url decode sha256 bytes bs m o ≡ ok tt
      → Approved bytes bs m
  unfolding parse
  document-Approved bytes bs m none at h = absurd (ground arith)
  document-Approved bytes bs m (some d) at h =
      let same : same_policy parse_url decode sha256 d bytes m ≡ true = ground (arith, h) in
      let (resolved, given, size, approved) =
        covered-parts d m (resolved_baselines parse_url d bs) (ground (arith, h)) in
      let (exact, fits) = resolved_baselines-Exactly parse_url d bs resolved given in
      record {
        policy = d;
        parsed = at;
        same = same;
        exact = exact;
        fits = fits;
        resolved = resolved;
        resolves = given;
        judged = by_rule-judges m.evaluations resolved d.spec.rules approved;
        ruled =
            by_rule-rules m.evaluations resolved d.spec.rules
              (valid-NoRepeat d (parsed-valid (decode bytes) d at)) size approved;
      }

  -- An approved report is a valid report of the policy in the bytes, with the digest of the bytes; the
  -- resolutions name each baseline reference of the policy once and nothing else; every rule of the
  -- policy is judged by an evaluation under its identifier, and every evaluation has a rule. A
  -- judgement has the metric of the rule, quality within its bounds if it passed, an objective that
  -- passed or failed as the reported value does, and a regression that passed or failed as the
  -- degradation from the approved reference does, or is undecided.
  pub approve_report_verdicts-Approved :
      (bytes : Text) (bs : List BaselineResolution) (m : Manifest)
      → approve_report_verdicts parse_url decode sha256 none bytes bs m ≡ ok tt
      → Approved bytes bs m
  unfolding approve_report_verdicts
  approve_report_verdicts-Approved bytes bs m h =
      document-Approved bytes bs m (parse parse_url decode sha256 bytes) refl h
