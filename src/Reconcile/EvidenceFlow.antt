-- ===== src/Reconcile/EvidenceFlow.antt =====
-- What the analysis stage finds in the listing of a collected Run (internal/reconcile/collection.go,
-- analysis.go).
use mathlib.Core.List.{Permᴰ, append_assoc, append-nil}
use perfeng_control_plane.Base.{
  Bool, true, false, List, [], ◌∷◌, ◌++◌, Option, none, some, ◌&&◌, ◌||◌, not, if◌then◌else◌, ◌≡◌,
  refl, sym, ◌∙◌, ap, arith,
}
use perfeng_control_plane.Text.{Text, text, text_eq}
use perfeng_control_plane.Run.Artifact.{Artifact, Url, valid_artifact}
use perfeng_control_plane.Reconcile.Evidence.{
  RawArtifactSet, EvidenceSet, AnalysisInput, no_artifacts, json, valid_raw_manifest_format,
  add_raw, valid_raw_set, valid_raw_artifact_set, add_evidence, continued, add_each,
  complete_evidence, analysis_evidence,
}

unfoldable pub all_of : (Artifact → Bool) → List Artifact → Bool
all_of p [] = true
all_of p (a ∷ rest) = p a && all_of p rest

pub all_of-append :
    (p : Artifact → Bool) (xs ys : List Artifact)
    → all_of p (xs ++ ys) ≡ (all_of p xs && all_of p ys)
unfolding all_of
all_of-append p [] ys = refl
all_of-append p (x ∷ xs) ys = ground (arith, all_of-append p xs ys)

pub all_of-Permᴰ :
    (p : Artifact → Bool) {xs ys : List Artifact} → Permᴰ xs ys → all_of p xs ≡ all_of p ys
unfolding all_of
all_of-Permᴰ p Permᴰ.nil = refl
all_of-Permᴰ p (Permᴰ.cons e r) = ground (arith, ap p e, all_of-Permᴰ p r)
all_of-Permᴰ p (Permᴰ.swap e f) = ground (arith, ap p e, ap p f)
all_of-Permᴰ p (Permᴰ.trans q r) = all_of-Permᴰ p q ∙ all_of-Permᴰ p r

abbrev pub plain : Artifact → Bool
plain a = not (valid_raw_manifest_format a.format)

abbrev pub gathered : Option Artifact → List Artifact → Option Artifact → EvidenceSet
gathered m sources n = record { input = record { manifest = m; sources = sources }; normalized = n }

abbrev kept : Bool → EvidenceSet → Option EvidenceSet
kept true e = some e
kept false e = none

kept-plain : (f r : Bool) (e : EvidenceSet) → f ≡ false → kept r e ≡ kept (not f && r) e
kept-plain true r e h = absurd (ground (arith, h))
kept-plain false r e h = refl

kept-format : (f r : Bool) (e : EvidenceSet) → f ≡ true → none ≡ kept (not f && r) e
kept-format true r e h = refl
kept-format false r e h = absurd (ground (arith, h))

continued-choice :
    (f second : Bool) (y z : EvidenceSet) (again : EvidenceSet → Option EvidenceSet)
    (result : Option EvidenceSet)
    → (f ≡ false → again y ≡ result)
    → (f ≡ true → second ≡ true → none ≡ result)
    → (f ≡ true → second ≡ false → again z ≡ result)
    → continued (if not f then some y else if second then none else some z) again ≡ result
continued-choice false second y z again result a b c = a refl
continued-choice true true y z again result a b c = b refl refl
continued-choice true false y z again result a b c = c refl refl

pub and_left : (p q : Bool) → (p && q) ≡ true → p ≡ true
and_left p q h = ground (arith, h)

pub and_right : (p q : Bool) → (p && q) ≡ true → q ≡ true
and_right p q h = ground (arith, h)

and_assoc : (p q r : Bool) → (p && (q && r)) ≡ (p && q && r)
and_assoc p q r = ground arith

source_step :
    {A : Type 0} (own valid is_raw : Bool) (x y z : A)
    → (own && is_raw && valid) ≡ true
    → (if not own || not valid then x else if is_raw then y else z) ≡ y
source_step true true true x y z h = refl
source_step true true false x y z h = absurd (ground (arith, h))
source_step true false b x y z h = absurd (ground (arith, h))
source_step false v b x y z h = absurd (ground (arith, h))

module _ (parse_url : Text → Option Url) (run_id : Text) where
  abbrev pub raw_source : Artifact → Bool
  raw_source a =
      text_eq a.run_id run_id && text_eq a.kind (text "raw") && valid_artifact parse_url a

  add_evidence-source :
      (e : EvidenceSet) (a : Artifact)
      → raw_source a ≡ true
      → add_evidence parse_url run_id e a ≡ add_raw e a
  unfolding add_evidence
  add_evidence-source e a h =
      source_step (text_eq a.run_id run_id) (valid_artifact parse_url a)
        (text_eq a.kind (text "raw")) _ _ _ h

  -- With a manifest, the rest are sources or there is no evidence.
  add_each-manifest :
      (m : Artifact) (sources : List Artifact) (n : Option Artifact) (xs : List Artifact)
      → all_of raw_source xs ≡ true
      → add_each parse_url run_id (gathered (some m) sources n) xs
        ≡ kept (all_of plain xs) (gathered (some m) (sources ++ xs) n)
  unfolding add_each all_of
  add_each-manifest m sources n [] h =
      ap (λ s. some (gathered (some m) s n)) (sym (append-nil sources))
  add_each-manifest m sources n (x ∷ xs) h =
      let here = and_left (raw_source x) (all_of raw_source xs) h in
      let rest = and_right (raw_source x) (all_of raw_source xs) h in
      let format = valid_raw_manifest_format x.format in
      let found = gathered (some m) (sources ++ (x ∷ xs)) n in
      let again = λ (next : EvidenceSet). add_each parse_url run_id next xs in
      ap (λ o. continued o again) (add_evidence-source (gathered (some m) sources n) x here)
      ∙ continued-choice format true (gathered (some m) (sources ++ (x ∷ [])) n)
          (gathered (some x) sources n) again _
          (λ e.
            add_each-manifest m (sources ++ (x ∷ [])) n xs rest
            ∙ ap (λ s. kept (all_of plain xs) (gathered (some m) s n))
                (append_assoc sources (x ∷ []) xs)
            ∙ kept-plain format (all_of plain xs) found e)
          (λ e k. kept-format format (all_of plain xs) found e) (λ e k. absurd (ground (arith, k)))

  two_formats :
      (m : Artifact) (xs ys : List Artifact)
      → valid_raw_manifest_format m.format ≡ true
      → all_of plain (xs ++ (m ∷ ys)) ≡ false
  unfolding all_of
  two_formats m [] ys h = ground (arith, h)
  two_formats m (x ∷ xs) ys h = ground (arith, two_formats m xs ys h)

  -- The manifest stands anywhere in the listing.
  add_each-sources :
      (m : Artifact) (sources : List Artifact) (n : Option Artifact) (before after : List Artifact)
      → valid_raw_manifest_format m.format ≡ true
      → text_eq m.media_type json ≡ true
      → all_of raw_source (before ++ (m ∷ after)) ≡ true
      → add_each parse_url run_id (gathered none sources n) (before ++ (m ∷ after))
        ≡ kept
            (all_of plain before && all_of plain after)
            (gathered (some m) (sources ++ (before ++ after)) n)
  unfolding add_each all_of
  add_each-sources m sources n [] after is_format is_json h =
      let here = and_left (raw_source m) (all_of raw_source after) h in
      let rest = and_right (raw_source m) (all_of raw_source after) h in
      let again = λ (next : EvidenceSet). add_each parse_url run_id next after in
      ap (λ o. continued o again) (add_evidence-source (gathered none sources n) m here)
      ∙ continued-choice (valid_raw_manifest_format m.format) (not (text_eq m.media_type json))
          (gathered none (sources ++ (m ∷ [])) n) (gathered (some m) sources n) again _
          (λ e. absurd (ground (arith, e, is_format))) (λ e k. absurd (ground (arith, k, is_json)))
          (λ e k. add_each-manifest m sources n after rest)
  add_each-sources m sources n (x ∷ before) after is_format is_json h =
      let here = and_left (raw_source x) (all_of raw_source (before ++ (m ∷ after))) h in
      let rest = and_right (raw_source x) (all_of raw_source (before ++ (m ∷ after))) h in
      let format = valid_raw_manifest_format x.format in
      let found = gathered (some m) (sources ++ (x ∷ (before ++ after))) n in
      let both = all_of plain before && all_of plain after in
      let again = λ (next : EvidenceSet). add_each parse_url run_id next (before ++ (m ∷ after)) in
      ap (λ o. continued o again) (add_evidence-source (gathered none sources n) x here)
      ∙ continued-choice format (not (text_eq x.media_type json))
          (gathered none (sources ++ (x ∷ [])) n) (gathered (some x) sources n) again
          (kept (not format && both) found)
          (λ e.
            add_each-sources m (sources ++ (x ∷ [])) n before after is_format is_json rest
            ∙ ap (λ s. kept both (gathered (some m) s n))
                (append_assoc sources (x ∷ []) (before ++ after))
            ∙ kept-plain format both found e)
          (λ e k. kept-format format both found e)
          (λ e k.
            add_each-manifest x sources n (before ++ (m ∷ after)) rest
            ∙ ap (λ b. kept b (gathered (some x) (sources ++ (before ++ (m ∷ after))) n))
                (two_formats m before after is_format)
            ∙ kept-format format both found e)
      ∙ ap (λ b. kept b found) (and_assoc (not format) (all_of plain before) (all_of plain after))

  pub valid_raw_set-all_of :
      (ids locations : List Text) (xs : List Artifact)
      → valid_raw_set parse_url run_id ids locations xs ≡ true
      → all_of raw_source xs ≡ true
  unfolding valid_raw_set all_of
  valid_raw_set-all_of ids locations [] h = refl
  valid_raw_set-all_of ids locations (x ∷ xs) h =
      ground (arith, h, valid_raw_set-all_of (x.id ∷ ids) (x.uri ∷ locations) xs)

  manifest_between :
      (m : Artifact) (before after : List Artifact)
      → raw_source m ≡ true
      → (all_of raw_source before && all_of raw_source after) ≡ true
      → (all_of raw_source before && all_of raw_source (m ∷ after)) ≡ true
  unfolding all_of
  manifest_between m before after h k = ground (arith, h, k)

  no_artifacts-Permᴰ : {xs ys : List Artifact} → Permᴰ xs ys → no_artifacts xs ≡ no_artifacts ys
  no_artifacts-Permᴰ Permᴰ.nil = refl
  no_artifacts-Permᴰ (Permᴰ.cons e p) = refl
  no_artifacts-Permᴰ (Permᴰ.swap e f) = refl
  no_artifacts-Permᴰ (Permᴰ.trans p q) = no_artifacts-Permᴰ p ∙ no_artifacts-Permᴰ q

  abbrev pub found_input : RawArtifactSet → List Artifact → AnalysisInput
  found_input set sources = record { manifest = set.manifest; sources = sources }

  completed :
      (set : RawArtifactSet) (sources : List Artifact) (b : Bool)
      → no_artifacts sources ≡ false
      → complete_evidence parse_url run_id (kept b (gathered (some set.manifest) sources none))
        ≡ (if b then some (found_input set sources, none) else none)
  completed set [] b h = absurd (ground (arith, h))
  completed set (x ∷ xs) true h = refl
  completed set (x ∷ xs) false h = refl

  -- The set is valid, and the listing has its manifest and its sources in any order. The stage finds
  -- the manifest, and the sources in the order of the listing, when no source has a format of raw
  -- manifests, and refuses the listing otherwise.
  pub analysis_evidence-valid_raw_artifact_set :
      (set : RawArtifactSet) (before after : List Artifact)
      → valid_raw_artifact_set parse_url run_id set ≡ true
      → Permᴰ set.artifacts (before ++ after)
      → analysis_evidence parse_url run_id (before ++ (set.manifest ∷ after)) ≡ (
          if all_of plain set.artifacts
          then some (found_input set (before ++ after), none)
          else none)
  unfolding analysis_evidence valid_raw_artifact_set
  analysis_evidence-valid_raw_artifact_set set before after h p =
      let own =
        valid_raw_set-all_of (set.manifest.id ∷ []) (set.manifest.uri ∷ []) set.artifacts
          (ground (arith, h)) in
      let sources =
        sym (all_of-append raw_source before after) ∙ sym (all_of-Permᴰ raw_source p) ∙ own in
      let every =
        all_of-append raw_source before (set.manifest ∷ after)
        ∙ manifest_between set.manifest before after (ground (arith, h)) sources in
      let formats = sym (all_of-append plain before after) ∙ sym (all_of-Permᴰ plain p) in
      ap (complete_evidence parse_url run_id) (
        add_each-sources set.manifest [] none before after (ground (arith, h)) (ground (arith, h))
          every)
      ∙ ap
          (λ b.
            complete_evidence parse_url run_id
              (kept b (gathered (some set.manifest) (before ++ after) none)))
          formats
      ∙ completed set (before ++ after) (all_of plain set.artifacts)
          (sym (no_artifacts-Permᴰ p) ∙ ground (arith, h))
