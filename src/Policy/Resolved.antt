-- ===== src/Policy/Resolved.antt =====
-- The resolutions that a report is checked with.
use perfeng_control_plane.Base.{
  ◌≡◌, refl, Bool, true, false, List, [], ◌∷◌, Option, none, some, arith, sym, inl, inr, ◌↔◌, not,
  ◌||◌, is_none, if◌then◌else◌,
}
use mathlib.Core.Path.{subst}
use perfeng_control_plane.Base.Distinct.{has-cons, has-head, has-tail, has-without}
unfoldable use perfeng_control_plane.Base.Distinct.{has, without, NoRepeat}
use perfeng_control_plane.Base.Maps.{lookup, insert}
use perfeng_control_plane.Text.{Text}
use perfeng_control_plane.Run.Artifact.{Artifact, Url}
use perfeng_control_plane.Policy.Document.{
  Document, Reference, Reference-discrete, baseline_references,
}
use perfeng_control_plane.Policy.References.{Listed, resolutions, without-none, not_seen}
use perfeng_control_plane.Policy.Verdicts.{BaselineResolution, resolved_reference, usable, all_met}
unfoldable use perfeng_control_plane.Policy.Verdicts.{resolve_each, resolved_baselines}

-- The resolutions are distinct and name exactly the references.
abbrev pub Exactly : List Reference → List BaselineResolution → Type 0
Exactly wanted bs =
    NoRepeat Reference-discrete (resolutions bs)
    × ((ref : Reference) → Listed ref wanted ↔ Listed ref (resolutions bs))

abbrev pub AllUsable : (Text → Option Url) → List BaselineResolution → Type 0
AllUsable parse_url [] = Unit {0}
AllUsable parse_url (b ∷ bs) = (usable parse_url b.artifact ≡ true) × AllUsable parse_url bs

module _ (parse_url : Text → Option Url) where
  Exactly-cons :
      (wanted : List Reference) (b : BaselineResolution) (bs : List BaselineResolution)
      → Listed (resolved_reference b) wanted
      → Exactly (without Reference-discrete (resolved_reference b) wanted) bs
      → Exactly wanted (b ∷ bs)
  unfolding NoRepeat
  Exactly-cons wanted b bs w (distinct, same) =
      let mine = resolved_reference b in
      (
        (
          not_seen (λ h. absurd ((without-none mine mine wanted ((same mine).1 h)).0 refl))
              (refl {a = false}),
          distinct,
        ),
        λ ref. (
          λ h. elim (Reference-discrete ref mine) [
            | yes e ↦
                subst (λ x. Listed x (mine ∷ resolutions bs)) (sym e)
                  (has-head Reference-discrete mine (resolutions bs))
            | no n ↦
                has-tail Reference-discrete ref mine (resolutions bs)
                  ((same ref).0 (has-without Reference-discrete mine ref wanted h n))
          ],
          λ h. elim (has-cons Reference-discrete ref mine (resolutions bs) h) [
            | inl e ↦ subst (λ x. Listed x wanted) e w
            | inr more ↦ (without-none mine ref wanted ((same ref).1 more)).1
          ],
        ),
      )

  step_facts :
      (known wants fit : Bool) (rest : Option (List (Reference × Option Artifact)))
      (out : List (Reference × Option Artifact))
      → (if not known || not wants || not fit then none else rest) ≡ some out
      → (wants ≡ true) × (fit ≡ true) × (rest ≡ some out)
  step_facts known wants fit rest out h = ground arith

  met_none : (wanted : List Reference) → all_met wanted ≡ true → Exactly wanted []
  unfolding has NoRepeat
  met_none [] h = (tt, λ ref. (λ k. k, λ k. k))
  met_none (r ∷ rs) h = absurd (ground arith)

  resolve_each-Exactly :
      (wanted : List Reference) (resolved out : List (Reference × Option Artifact))
      (bs : List BaselineResolution)
      → resolve_each parse_url wanted resolved bs ≡ some out
      → Exactly wanted bs × AllUsable parse_url bs
  unfolding resolve_each
  resolve_each-Exactly wanted resolved out [] h = (met_none wanted (ground arith), tt)
  resolve_each-Exactly wanted resolved out (b ∷ bs) h =
      let mine = resolved_reference b in
      let rest =
        resolve_each parse_url (without Reference-discrete mine wanted)
          (insert Reference-discrete mine b.artifact resolved) bs in
      let (wants, fit, more) =
        step_facts (is_none (lookup Reference-discrete mine resolved))
          (has Reference-discrete mine wanted) (usable parse_url b.artifact) rest out h in
      let (exact, fits) =
        resolve_each-Exactly (without Reference-discrete mine wanted)
          (insert Reference-discrete mine b.artifact resolved) out bs more in
      (Exactly-cons wanted b bs wants exact, (fit, fits))

  -- Resolutions that are accepted are distinct, name exactly the baseline references of the policy,
  -- and show an artifact of normalized evidence or none.
  pub resolved_baselines-Exactly :
      (d : Document) (bs : List BaselineResolution) (out : List (Reference × Option Artifact))
      → resolved_baselines parse_url d bs ≡ some out
      → Exactly (baseline_references d) bs × AllUsable parse_url bs
  unfolding resolved_baselines
  resolved_baselines-Exactly d bs out h =
      resolve_each-Exactly (baseline_references d) [] out bs (ground (arith, h))
