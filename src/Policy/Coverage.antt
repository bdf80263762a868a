-- ===== src/Policy/Coverage.antt =====
-- The evaluations of a report by their rule, and the rules of a policy.
use perfeng_control_plane.Base.{
  suc, ◌≡◌, refl, Bool, true, false, List, [], ◌∷◌, some, arith, ◌∙◌, ap, inl, inr, ◌⊎◌, length,
}
use mathlib.Core.Path.{subst}
use perfeng_control_plane.Base.Distinct.{In, first, later, has-cons, has-head}
unfoldable use perfeng_control_plane.Base.Distinct.{has, NoRepeat}
unfoldable use perfeng_control_plane.Base.Maps.{lookup, insert}
use perfeng_control_plane.Base.Maps.{lookup-insert}
use perfeng_control_plane.Text.{Text, Text-discrete}
use perfeng_control_plane.Analysis.Report.{Evaluation}
use perfeng_control_plane.Policy.Document.{Rule, Selector, selector}
unfoldable use perfeng_control_plane.Policy.Document.{valid_rules}
unfoldable use perfeng_control_plane.Policy.Verdicts.{by_rule}

abbrev pub keys {ℓ κ} : {K : Type ℓ} {V : Type κ} → List (K × V) → List K
keys [] = []
keys ((k, v) ∷ m) = k ∷ keys m

abbrev pub rule_ids : List Rule → List Text
rule_ids [] = []
rule_ids (r ∷ rs) = r.id ∷ rule_ids rs

pub length-keys : (m : List (Text × Evaluation)) → length (keys m) ≡ length m
length-keys [] = refl
length-keys ((k, v) ∷ m) = ap suc (length-keys m)

pub length-rule_ids : (rs : List Rule) → length (rule_ids rs) ≡ length rs
length-rule_ids [] = refl
length-rule_ids (r ∷ rs) = ap suc (length-rule_ids rs)

-- A key that is found is a key.
pub lookup-has :
    (a : Text) (m : List (Text × Evaluation)) (e : Evaluation)
    → lookup Text-discrete a m ≡ some e
    → has Text-discrete a (keys m) ≡ true
unfolding lookup has
lookup-has a [] e h = absurd (ground arith)
lookup-has a ((k, v) ∷ m) e h = ground (arith, lookup-has a m e)

insert-has :
    (a k : Text) (v : Evaluation) (m : List (Text × Evaluation))
    → ((a ≡ k) ⊎ (has Text-discrete a (keys m) ≡ true))
    → has Text-discrete a (keys (insert Text-discrete k v m)) ≡ true
unfolding insert has
insert-has a k v [] h = ground arith
insert-has a k v ((j, w) ∷ m) h = ground (arith, insert-has a k v m)

by_rule-has :
    (a : Text) (m : List (Text × Evaluation)) (es : List Evaluation)
    → has Text-discrete a (keys m) ≡ true
    → has Text-discrete a (keys (by_rule m es)) ≡ true
unfolding by_rule
by_rule-has a m [] h = h
by_rule-has a m (e ∷ es) h =
    by_rule-has a (insert Text-discrete e.rule_id e m) es (insert-has a e.rule_id e m (inr h))

-- Every evaluation is found under the identifier of its rule.
pub by_rule-key :
    (e : Evaluation) (m : List (Text × Evaluation)) (es : List Evaluation)
    → In e es
    → has Text-discrete e.rule_id (keys (by_rule m es)) ≡ true
unfolding by_rule
by_rule-key e m [] d = elim d [ ]
by_rule-key e m (f ∷ fs) (first same) =
    by_rule-has e.rule_id (insert Text-discrete f.rule_id f m) fs
      (insert-has e.rule_id f.rule_id f m (inl (ap (λ x. x.rule_id) same)))
by_rule-key e m (f ∷ fs) (later d) = by_rule-key e (insert Text-discrete f.rule_id f m) fs d

newest :
    (a : Text) (e f : Evaluation) (m : List (Text × Evaluation))
    → lookup Text-discrete a (insert Text-discrete f.rule_id f m) ≡ some e
    → (fs : List Evaluation)
    → (In e (f ∷ fs) × (e.rule_id ≡ a)) ⊎ (lookup Text-discrete a m ≡ some e)
newest a e f m h fs =
    let stored = lookup-insert Text-discrete f.rule_id a f m in
    elim (Text-discrete f.rule_id a) [
      | yes here ↦
          let same : e ≡ f = ground arith in inl (first same, ap (λ x. x.rule_id) same ∙ here)
      | no other ↦ inr (ground arith)
    ]

-- What is found is an evaluation of the report, or was there before.
pub by_rule-value :
    (a : Text) (e : Evaluation) (m : List (Text × Evaluation)) (es : List Evaluation)
    → lookup Text-discrete a (by_rule m es) ≡ some e
    → (In e es × (e.rule_id ≡ a)) ⊎ (lookup Text-discrete a m ≡ some e)
unfolding by_rule
by_rule-value a e m [] h = inr h
by_rule-value a e m (f ∷ fs) h =
    elim (by_rule-value a e (insert Text-discrete f.rule_id f m) fs h) [
      | inl (d, same) ↦ inl (later d, same)
      | inr before ↦ newest a e f m before fs
    ]

pub not_has : (p : Bool) {q : Bool} → (p ≡ true → q ≡ false) → q ≡ true → p ≡ false
not_has true apart h = absurd (ground (arith, apart refl))
not_has false apart h = refl

pub valid_rules-NoRepeat :
    (ids : List Text) (selectors : List Selector) (rs : List Rule)
    → valid_rules ids selectors rs ≡ true
    → NoRepeat Text-discrete (rule_ids rs)
      × ((a : Text) → has Text-discrete a (rule_ids rs) ≡ true → has Text-discrete a ids ≡ false)
unfolding valid_rules NoRepeat has
valid_rules-NoRepeat ids selectors [] h = (tt, λ a k. absurd (ground arith))
valid_rules-NoRepeat ids selectors (r ∷ rs) h =
    let (fresh, others) : (has Text-discrete r.id ids ≡ false)
        × (valid_rules (r.id ∷ ids) (selector r ∷ selectors) rs ≡ true) =
      ground (arith, h) in
    let (distinct, apart) = valid_rules-NoRepeat (r.id ∷ ids) (selector r ∷ selectors) rs others in
    (
      (
        not_has (has Text-discrete r.id (rule_ids rs)) (apart r.id)
            (has-head Text-discrete r.id ids),
        distinct,
      ),
      λ a k. elim (has-cons Text-discrete a r.id (rule_ids rs) k) [
        | inl e ↦ subst (λ b. has Text-discrete b ids ≡ false) e fresh
        | inr more ↦ ground (arith, apart a more)
      ],
    )
