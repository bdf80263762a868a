-- ===== src/Reconcile/Recovered.antt =====
-- What the analysis stage finds in a listing that has a normalized result (internal/reconcile/
-- analysis.go).
use mathlib.Core.Path.{subst}
use mathlib.Core.Option.{some-injective}
use perfeng_control_plane.Base.{
  Bool, true, false, List, [], ◌∷◌, ◌++◌, Option, none, some, ◌&&◌, ◌||◌, not, is_none,
  if◌then◌else◌, ◌≡◌, refl, sym, ◌∙◌, ap, arith,
}
use perfeng_control_plane.Text.{Text, Text-discrete, text, text_eq}
use perfeng_control_plane.Run.Artifact.{Artifact, Url, valid_artifact}
use perfeng_control_plane.Reconcile.Evidence.{
  EvidenceSet, AnalysisInput, json, valid_raw_manifest_format, add_raw, no_evidence,
  valid_normalized_output, add_evidence, continued, add_each, with_manifest, complete_evidence,
  analysis_evidence,
}
use perfeng_control_plane.Reconcile.EvidenceFlow.{gathered}

-- The same evidence with the normalized result, which it must not have yet.
abbrev given : Artifact → Option EvidenceSet → Option EvidenceSet
given a none = none
given a (some e) =
    if is_none e.normalized then some (gathered e.input.manifest e.input.sources (some a)) else none

given-none :
    (a : Artifact) (e : EvidenceSet) → is_none e.normalized ≡ false → given a (some e) ≡ none
given-none a e h = ground (arith, h)

evidence_case :
    (P : Option EvidenceSet → Type 0) (bad is_raw is_normalized : Bool) (x y : Option EvidenceSet)
    → P none
    → P x
    → P y
    → P (if bad then none else if is_raw then x else if is_normalized then y else none)
evidence_case P true r n x y a b c = a
evidence_case P false true n x y a b c = b
evidence_case P false false true x y a b c = c
evidence_case P false false false x y a b c = a

raw_case :
    (P : Option EvidenceSet → Type 0) (format second : Bool) (y z : EvidenceSet)
    → P none
    → P (some y)
    → P (some z)
    → P (if not format then some y else if second then none else some z)
raw_case P false second y z a b c = b
raw_case P true true y z a b c = a
raw_case P true false y z a b c = c

normalized_case :
    (P : Option EvidenceSet → Type 0) (empty format media : Bool) (z : EvidenceSet)
    → empty ≡ false
    → P none
    → P (if not empty || not format || not media then none else some z)
normalized_case P true f m z h a = absurd (ground (arith, h))
normalized_case P false true true z h a = a
normalized_case P false true false z h a = a
normalized_case P false false true z h a = a
normalized_case P false false false z h a = a

second_result :
    (p q : Bool) (again : EvidenceSet → Option EvidenceSet) (a : Artifact) (e : EvidenceSet)
    → given a (again e) ≡ none
    → none ≡ given a (continued (if false || p || q then none else some e) again)
second_result true q again a e h = refl
second_result false true again a e h = refl
second_result false false again a e h = sym h

through :
    (o : Option EvidenceSet) (p q : EvidenceSet → Option EvidenceSet) (a : Artifact)
    → ((e : EvidenceSet) → p e ≡ given a (q e))
    → continued o p ≡ given a (continued o q)
through none p q a h = refl
through (some e) p q a h = h e

-- The step of an artifact with and without the result that is given.
pair_case :
    (P : Option EvidenceSet → Option EvidenceSet → Type 0) (bad is_raw is_normalized : Bool)
    (x y x' y' : Option EvidenceSet)
    → P none none
    → P x x'
    → P y y'
    → P
        (if bad then none else if is_raw then x else if is_normalized then y else none)
        (if bad then none else if is_raw then x' else if is_normalized then y' else none)
pair_case P true r n x y x' y' a b c = a
pair_case P false true n x y x' y' a b c = b
pair_case P false false true x y x' y' a b c = c
pair_case P false false false x y x' y' a b c = a

raw_pair :
    (P : Option EvidenceSet → Option EvidenceSet → Type 0) (format second : Bool)
    (y z y' z' : EvidenceSet)
    → P none none
    → P (some y) (some y')
    → P (some z) (some z')
    → P
        (if not format then some y else if second then none else some z)
        (if not format then some y' else if second then none else some z')
raw_pair P false second y z y' z' a b c = b
raw_pair P true true y z y' z' a b c = a
raw_pair P true false y z y' z' a b c = c

module _ (parse_url : Text → Option Url) (run_id : Text) where
  -- A second normalized result is not evidence.
  given-add_each :
      (a : Artifact) (e : EvidenceSet) (xs : List Artifact)
      → is_none e.normalized ≡ false
      → given a (add_each parse_url run_id e xs) ≡ none
  unfolding add_each add_evidence
  given-add_each a e [] h = given-none a e h
  given-add_each a e (x ∷ xs) h =
      let P = λ (o : Option EvidenceSet).
        given a (continued o λ next. add_each parse_url run_id next xs) ≡ none in
      evidence_case P (not (text_eq x.run_id run_id) || not (valid_artifact parse_url x))
        (text_eq x.kind (text "raw")) (text_eq x.kind (text "normalized")) _ _ refl
        (raw_case P (valid_raw_manifest_format x.format) _ _ _ refl
          (given-add_each a (gathered e.input.manifest (e.input.sources ++ (x ∷ [])) e.normalized)
            xs h)
          (given-add_each a (gathered (some x) e.input.sources e.normalized) xs h))
        (normalized_case P (is_none e.normalized) (text_eq x.format (text "normalized-result/v1"))
          (text_eq x.media_type json) (gathered e.input.manifest e.input.sources (some x)) h refl)

  add_each-given :
      (a : Artifact) (m : Option Artifact) (sources : List Artifact) (xs : List Artifact)
      → add_each parse_url run_id (gathered m sources (some a)) xs
        ≡ given a (add_each parse_url run_id (gathered m sources none) xs)
  unfolding add_each add_evidence
  add_each-given a m sources [] = refl
  add_each-given a m sources (x ∷ xs) =
      let again = λ (next : EvidenceSet). add_each parse_url run_id next xs in
      let P = λ (o o' : Option EvidenceSet). continued o again ≡ given a (continued o' again) in
      pair_case P (not (text_eq x.run_id run_id) || not (valid_artifact parse_url x))
        (text_eq x.kind (text "raw")) (text_eq x.kind (text "normalized")) _ _ _ _ refl
        (raw_pair P (valid_raw_manifest_format x.format) _ _ _ _ _ refl
          (add_each-given a m (sources ++ (x ∷ [])) xs) (add_each-given a (some x) sources xs))
        (second_result (not (text_eq x.format (text "normalized-result/v1")))
          (not (text_eq x.media_type json)) again a (gathered m sources (some x))
          (given-add_each a (gathered m sources (some x)) xs refl))

  abbrev pub Fits : Artifact → Type 0
  Fits a =
      ((text_eq a.run_id run_id
          && valid_artifact parse_url a
          && text_eq a.format (text "normalized-result/v1")
          && text_eq a.media_type json
          && text_eq a.kind (text "normalized"))
        ≡ true)
      × (text_eq a.kind (text "raw") ≡ false)

  add_evidence-fits :
      (a : Artifact) (e : EvidenceSet) (own valid is_raw is_normalized format media : Bool)
      → (own && valid && format && media && is_normalized) ≡ true
      → is_raw ≡ false
      → (if not own || not valid
          then none
          else if is_raw
          then add_raw e a
          else if is_normalized
          then if not (is_none e.normalized) || not format || not media
            then none
            else some (gathered e.input.manifest e.input.sources (some a))
          else none)
        ≡ (if is_none e.normalized
            then some (gathered e.input.manifest e.input.sources (some a))
            else none)
  add_evidence-fits a e own valid is_raw is_normalized format media h k = ground (arith, h, k)

  insert_here :
      (a : Artifact) (m : Option Artifact) (sources : List Artifact) (n : Option Artifact)
      (after : List Artifact)
      → continued
          (if is_none n then some (gathered m sources (some a)) else none)
          (λ next. add_each parse_url run_id next after)
        ≡ given a (add_each parse_url run_id (gathered m sources n) after)
  insert_here a m sources none after = add_each-given a m sources after
  insert_here a m sources (some y) after =
      sym (given-add_each a (gathered m sources (some y)) after refl)

  add_each-insert :
      (a : Artifact) (e : EvidenceSet) (before after : List Artifact)
      → Fits a
      → add_each parse_url run_id e (before ++ (a ∷ after))
        ≡ given a (add_each parse_url run_id e (before ++ after))
  unfolding add_each add_evidence
  add_each-insert a e [] after (f, k) =
      ap (λ o. continued o λ next. add_each parse_url run_id next after)
        (add_evidence-fits a e (text_eq a.run_id run_id) (valid_artifact parse_url a)
          (text_eq a.kind (text "raw")) (text_eq a.kind (text "normalized"))
          (text_eq a.format (text "normalized-result/v1")) (text_eq a.media_type json) f k)
      ∙ insert_here a e.input.manifest e.input.sources e.normalized after
  add_each-insert a e (x ∷ before) after f =
      through (add_evidence parse_url run_id e x) _ _ a
        λ next. add_each-insert a next before after f

  normalized_not_raw :
      (kind : Text) → text_eq kind (text "normalized") ≡ true → text_eq kind (text "raw") ≡ false
  unfolding Text-discrete
  normalized_not_raw kind h = elim (Text-discrete kind (text "normalized")) [
    | yes e ↦ subst (λ k. text_eq k (text "raw") ≡ false) (sym e) refl
    | no n ↦ absurd (ground (arith, h, n))
  ]

  abbrev found : Artifact → List Artifact → AnalysisInput
  found m sources = record { manifest = m; sources = sources }

  abbrev answer : Bool → AnalysisInput → Option Artifact → Option (AnalysisInput × Option Artifact)
  answer b input n = if b then none else some (input, n)

  no_second :
      (b : Bool) (i j : AnalysisInput) (y : Artifact) → answer b i (some y) ≡ some (j, none) → ⊥
  no_second true i j y h = absurd (ground (arith, h))
  no_second false i j y h = absurd (ground (arith, h))

  complete-fits :
      (a : Artifact) (m : Option Artifact) (sources : List Artifact) (n : Option Artifact)
      (input : AnalysisInput)
      → with_manifest parse_url run_id m sources n ≡ some (input, none)
      → valid_normalized_output parse_url run_id a input ≡ true
      → complete_evidence parse_url run_id (given a (some (gathered m sources n)))
        ≡ some (input, some a)
  complete-fits a none sources n input h k = absurd (ground (arith, h))
  complete-fits a (some m) [] n input h k = absurd (ground (arith, h))
  complete-fits a (some m) (x ∷ xs) (some y) input h k = absurd (
      no_second (not (valid_normalized_output parse_url run_id y (found m (x ∷ xs))))
        (found m (x ∷ xs)) input y h)
  complete-fits a (some m) (x ∷ xs) none input h k =
      let same = ap (λ w. w.0) (some-injective _ _ h) in
      subst
        (λ i.
          answer (not (valid_normalized_output parse_url run_id a i)) i (some a)
          ≡ some (input, some a))
        (sym same) (ap (λ b. answer (not b) input (some a)) k)

  complete-given :
      (a : Artifact) (o : Option EvidenceSet) (input : AnalysisInput)
      → complete_evidence parse_url run_id o ≡ some (input, none)
      → valid_normalized_output parse_url run_id a input ≡ true
      → complete_evidence parse_url run_id (given a o) ≡ some (input, some a)
  complete-given a none input h k = absurd (ground (arith, h))
  complete-given a (some e) input h k =
      complete-fits a e.input.manifest e.input.sources e.normalized input h k

  pub valid_normalized_output-Fits :
      (a : Artifact) (input : AnalysisInput)
      → valid_normalized_output parse_url run_id a input ≡ true
      → Fits a
  unfolding valid_normalized_output
  valid_normalized_output-Fits a input h =
      (ground (arith, h), normalized_not_raw a.kind (ground (arith, h)))

  -- A listing has evidence and no normalized result. With a result that the stage accepts for this
  -- evidence, anywhere in the listing, the stage finds the same evidence and that result.
  pub analysis_evidence-valid_normalized_output :
      (before after : List Artifact) (a : Artifact) (input : AnalysisInput)
      → analysis_evidence parse_url run_id (before ++ after) ≡ some (input, none)
      → valid_normalized_output parse_url run_id a input ≡ true
      → analysis_evidence parse_url run_id (before ++ (a ∷ after)) ≡ some (input, some a)
  unfolding analysis_evidence
  analysis_evidence-valid_normalized_output before after a input h k =
      ap (complete_evidence parse_url run_id)
        (add_each-insert a no_evidence before after (valid_normalized_output-Fits a input k))
      ∙ complete-given a (add_each parse_url run_id no_evidence (before ++ after)) input h k
