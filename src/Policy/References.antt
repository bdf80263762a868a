-- ===== src/Policy/References.antt =====
-- The baseline references of a policy, and the resolutions that a report needs.
use perfeng_control_plane.Base.{
  ◌≡◌, ◌≢◌, refl, Bool, true, false, List, [], ◌∷◌, Option, none, some, arith, ◌∙◌, inl, inr, ◌⊎◌,
  ◌↔◌, Bool-cases, if◌then◌else◌,
}
use mathlib.Core.Path.{subst}
use perfeng_control_plane.Base.Distinct.{In, first, later, has-cons, has-head, has-tail}
unfoldable use perfeng_control_plane.Base.Distinct.{has, without, NoRepeat}
use perfeng_control_plane.Policy.Document.{
  Document, Rule, Regression, Reference, Reference-discrete, now_seen, with_reference,
}
unfoldable use perfeng_control_plane.Policy.Document.{references_from, baseline_references}
use perfeng_control_plane.Policy.Coverage.{not_has}
use perfeng_control_plane.Policy.Verdicts.{BaselineResolution, resolved_reference}

abbrev pub Listed : Reference → List Reference → Type 0
Listed r rs = has Reference-discrete r rs ≡ true

abbrev pub resolutions : List BaselineResolution → List Reference
resolutions [] = []
resolutions (b ∷ bs) = resolved_reference b ∷ resolutions bs

-- A rule with a regression against the reference.
abbrev pub Refers : Reference → Option Regression → Type 0
Refers ref none = ⊥
Refers ref (some r) = r.reference ≡ ref

pub without-none :
    (r s : Reference) (rs : List Reference)
    → Listed s (without Reference-discrete r rs)
    → (s ≢ r) × Listed s rs
unfolding has without
without-none r s [] h = absurd (ground arith)
without-none r s (t ∷ rs) h = elim (Reference-discrete t r) [
  | yes e ↦
      let (n, i) = without-none r s rs (ground arith) in (n, has-tail Reference-discrete s t rs i)
  | no n ↦
      elim (has-cons Reference-discrete s t (without Reference-discrete r rs) (ground (arith, h))) [
        | inl e ↦
            (λ k. n (e ∙ k), subst (λ x. Listed x (t ∷ rs)) e (has-head Reference-discrete t rs))
        | inr more ↦
            let (m, i) = without-none r s rs more in (m, has-tail Reference-discrete s t rs i)
      ]
]

pub not_seen : {p q : Bool} → (p ≡ true → q ≡ true) → q ≡ false → p ≡ false
not_seen {p} {q} h e = elim (Bool-cases p) [
  | inl yes_ ↦ absurd (ground (arith, h yes_))
  | inr no_ ↦ no_
]

in_collected :
    (ref : Reference) (out : List Reference)
    → (has Reference-discrete ref [] ≡ true) ⊎ Listed ref out
    → Listed ref out
unfolding has
in_collected ref out (inl h) = absurd (ground arith)
in_collected ref out (inr h) = h

-- New and distinct references, each of one of the rules.
Collected : List Reference → List Rule → List Reference → Type 0
Collected seen rs out =
    NoRepeat Reference-discrete out
    × ((ref : Reference)
        → Listed ref out
        → (has Reference-discrete ref seen ≡ false)
          × ((r : Rule) × In r rs × Refers ref r.regression))

abbrev pub From : Reference → List Rule → Type 0
From ref rs = (r : Rule) × In r rs × Refers ref r.regression

From-later : (ref : Reference) (r : Rule) (rs : List Rule) → From ref rs → From ref (r ∷ rs)
From-later ref r rs (q, i, h) = (q, later i, h)

Collected-some :
    (seen : List Reference) (r : Rule) (rs : List Rule) (g : Regression) (out : List Reference)
    (b : Bool)
    → r.regression ≡ some g
    → has Reference-discrete g.reference seen ≡ b
    → Collected (if b then seen else g.reference ∷ seen) rs out
    → Collected seen (r ∷ rs) (if b then out else g.reference ∷ out)
unfolding Collected NoRepeat
Collected-some seen r rs g out true e old (d, c) =
    (d, λ ref h. let (new, of) = c ref h in (new, From-later ref r rs of))
Collected-some seen r rs g out false e new (d, c) =
    let seen_now = g.reference ∷ seen in
    let mine : Refers g.reference r.regression = rw e refl in
    (
      (
        not_has (has Reference-discrete g.reference out) (λ h. (c g.reference h).0)
            (has-head Reference-discrete g.reference seen),
        d,
      ),
      λ ref h. elim (has-cons Reference-discrete ref g.reference out h) [
        | inl same ↦ (
          subst (λ x. has Reference-discrete x seen ≡ false) same new,
          (r, first refl, subst (λ x. Refers x r.regression) same mine),
        )
        | inr more ↦
            let (unseen, of) = c ref more in
            (
              not_seen (has-tail Reference-discrete ref g.reference seen) unseen,
              From-later ref r rs of,
            )
      ],
    )

Collected-cons :
    (seen : List Reference) (r : Rule) (rs : List Rule) (g : Option Regression)
    → r.regression ≡ g
    → Collected (now_seen g seen) rs (references_from (now_seen g seen) rs)
    → Collected seen (r ∷ rs) (with_reference g seen (references_from (now_seen g seen) rs))
unfolding Collected
Collected-cons seen r rs none e (d, c) =
    (d, λ ref h. let (new, of) = c ref h in (new, From-later ref r rs of))
Collected-cons seen r rs (some g) e k =
    Collected-some seen r rs g (references_from (now_seen (some g) seen) rs)
      (has Reference-discrete g.reference seen) e refl k

references_from-Collected :
    (seen : List Reference) (rs : List Rule) → Collected seen rs (references_from seen rs)
unfolding references_from Collected NoRepeat has
references_from-Collected seen [] = (tt, λ ref h. absurd (ground arith))
references_from-Collected seen (r ∷ rs) =
    Collected-cons seen r rs r.regression refl
      (references_from-Collected (now_seen r.regression seen) rs)

-- Every reference of a rule was seen before or is collected.
collects :
    (ref : Reference) (seen : List Reference) (g : Option Regression) (rest : List Reference)
    → (has Reference-discrete ref (now_seen g seen) ≡ true) ⊎ Listed ref rest
    → (has Reference-discrete ref seen ≡ true) ⊎ Listed ref (with_reference g seen rest)
unfolding has
collects ref seen none rest h = h
collects ref seen (some g) rest h = ground arith

collects_own :
    (ref : Reference) (seen : List Reference) (g : Option Regression) (rest : List Reference)
    → Refers ref g
    → (has Reference-discrete ref seen ≡ true) ⊎ Listed ref (with_reference g seen rest)
unfolding has
collects_own ref seen none rest h = absurd h
collects_own ref seen (some g) rest h = ground arith

references_from-all :
    (seen : List Reference) (rs : List Rule) (ref : Reference)
    → From ref rs
    → (has Reference-discrete ref seen ≡ true) ⊎ Listed ref (references_from seen rs)
unfolding references_from
references_from-all seen [] ref (r, i, h) = elim i [ ]
references_from-all seen (s ∷ rs) ref (r, first e, h) =
    collects_own ref seen s.regression _ (subst (λ x. Refers ref x.regression) e h)
references_from-all seen (s ∷ rs) ref (r, later i, h) =
    collects ref seen s.regression _
      (references_from-all (now_seen s.regression seen) rs ref (r, i, h))

-- The baseline references of a policy are distinct, and are exactly those that its rules name.
pub baseline_references-distinct :
    (d : Document)
    → NoRepeat Reference-discrete (baseline_references d)
      × ((ref : Reference) → Listed ref (baseline_references d) ↔ From ref d.spec.rules)
unfolding baseline_references Collected
baseline_references-distinct d =
    let (distinct, of) = references_from-Collected [] d.spec.rules in
    (
      distinct,
      λ ref. (λ h. (of ref h).1, λ f. in_collected _ _ (references_from-all [] d.spec.rules ref f)),
    )
