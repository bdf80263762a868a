-- ===== src/Reconcile/Finished.antt =====
-- Three attempts complete a collected Run (internal/reconcile/collection.go, analysis.go, reporting.go).
use mathlib.Core.List.{Permᴰ, append-nil}
use mathlib.Core.Path.{subst}
use perfeng_control_plane.Base.{
  ℕ, ◌+◌, ◌<◌, true, List, [], ◌∷◌, ◌++◌, Option, none, some, ◌≡◌, refl, sym, ◌∙◌, ap, arith,
  if◌then◌else◌,
}
use perfeng_control_plane.Base.Int.{ℤ, pos}
use perfeng_control_plane.Text.{Text}
use perfeng_control_plane.Errors.{Error, Result, ok}
use perfeng_control_plane.Contract.{collecting, analyzing, reporting, completed}
use perfeng_control_plane.Run.{Run, max_run_revision, moved, to_state}
use perfeng_control_plane.Run.Artifact.{Artifact, Url}
use perfeng_control_plane.Run.Claims.{Lease}
use perfeng_control_plane.Memory.Artifacts.{place}
use perfeng_control_plane.Reconcile.Stage.{valid_owned_claim}
use perfeng_control_plane.Reconcile.Evidence.{
  RawArtifactSet, AnalysisInput, valid_raw_artifact_set, valid_normalized_output, analysis_evidence,
  valid_report_artifact, reporting_evidence,
}
use perfeng_control_plane.Reconcile.EvidenceFlow.{
  all_of, all_of-Permᴰ, plain, raw_source, valid_raw_set-all_of, found_input,
  analysis_evidence-valid_raw_artifact_set,
}
use perfeng_control_plane.Reconcile.Attempts.{done, collection, analysis, reporting_attempt}
use perfeng_control_plane.Reconcile.Found.{reporting_evidence-candidate}
use perfeng_control_plane.Reconcile.Shelf.{
  Shelf, shelf, claim, placed, place-Permᴰ, placed-Permᴰ, Split, place-Split,
  moved-valid_owned_claim,
}
use perfeng_control_plane.Reconcile.Completes.{collection-shelf, analysis-shelf, reporting-shelf}

-- The listing after the collection.
unfoldable pub collected_listing : RawArtifactSet → List Artifact
unfolding placed
collected_listing set = place set.manifest (placed set.artifacts [])

collected-Permᴰ :
    (set : RawArtifactSet) → Permᴰ (set.manifest ∷ set.artifacts) (collected_listing set)
unfolding collected_listing
collected-Permᴰ set =
    Permᴰ.trans
      (Permᴰ.cons refl (
        subst (λ l. Permᴰ l (placed set.artifacts [])) (append-nil set.artifacts)
          (placed-Permᴰ set.artifacts [])))
      (place-Permᴰ set.manifest (placed set.artifacts []))

collected-Split :
    (set : RawArtifactSet) → Split set.manifest (placed set.artifacts []) (collected_listing set)
unfolding collected_listing
collected-Split set = place-Split set.manifest (placed set.artifacts [])

module _ (parse_url : Text → Option Url) (run_id : Text) (set : RawArtifactSet) where
  abbrev between : List Artifact
  between = (collected-Split set).before ++ (collected-Split set).after

  sources-Permᴰ : Permᴰ set.artifacts between
  sources-Permᴰ =
      subst (λ l. Permᴰ set.artifacts l) (collected-Split set).rest
        (subst (λ l. Permᴰ l (placed set.artifacts [])) (append-nil set.artifacts)
          (placed-Permᴰ set.artifacts []))

  collected-evidence :
      valid_raw_artifact_set parse_url run_id set ≡ true
      → all_of plain set.artifacts ≡ true
      → analysis_evidence parse_url run_id (collected_listing set)
        ≡ some (found_input parse_url run_id set between, none)
  collected-evidence valid formats =
      ap (analysis_evidence parse_url run_id) (collected-Split set).whole
      ∙ analysis_evidence-valid_raw_artifact_set parse_url run_id set (collected-Split set).before
          (collected-Split set).after valid sources-Permᴰ
      ∙ ap
          (λ b.
            if◌then◌else◌ {A = Option (AnalysisInput × Option Artifact)} b
              (some (found_input parse_url run_id set between, none)) none)
          formats

  manifest_source :
      valid_raw_artifact_set parse_url run_id set ≡ true
      → raw_source parse_url run_id set.manifest ≡ true
  unfolding valid_raw_artifact_set
  manifest_source valid = ground (arith, valid)

  every_source :
      valid_raw_artifact_set parse_url run_id set ≡ true
      → all_of (raw_source parse_url run_id) set.artifacts ≡ true
  unfolding valid_raw_artifact_set
  every_source valid =
      valid_raw_set-all_of parse_url run_id (set.manifest.id ∷ []) (set.manifest.uri ∷ [])
        set.artifacts (ground (arith, valid))

  collected-raw :
      valid_raw_artifact_set parse_url run_id set ≡ true
      → all_of (raw_source parse_url run_id) (collected_listing set) ≡ true
  unfolding all_of
  collected-raw valid =
      sym (all_of-Permᴰ (raw_source parse_url run_id) (collected-Permᴰ set))
      ∙ ground (arith, manifest_source valid, every_source valid)

  candidate-evidence :
      (a : Artifact) (input : AnalysisInput)
      → valid_raw_artifact_set parse_url run_id set ≡ true
      → valid_normalized_output parse_url run_id a input ≡ true
      → reporting_evidence parse_url run_id (place a (collected_listing set)) ≡ some (a, none)
  candidate-evidence a input valid fits =
      let split = place-Split a (collected_listing set) in
      ap (reporting_evidence parse_url run_id) split.whole
      ∙ reporting_evidence-candidate parse_url run_id a input split.before split.after
          (ap (all_of (raw_source parse_url run_id)) (sym split.rest) ∙ collected-raw valid) fits

module _ (parse_url : Text → Option Url) (retry_after : ℤ) (context_error : Shelf → Option Error)
    (lease : Lease) (set : RawArtifactSet) (normalizer : AnalysisInput → Artifact)
    (reporter : Artifact → Artifact) where
  abbrev first_attempt : ℕ → Shelf → Shelf × Result ℤ
  first_attempt now s =
      collection (shelf now) parse_url retry_after (λ t principal r. (t, done set)) s
        (claim lease s.run)

  abbrev second_attempt : ℕ → Shelf → Shelf × Result ℤ
  second_attempt now s =
      analysis (shelf now) parse_url retry_after context_error
        (λ t principal r i. (t, done (normalizer i))) s (claim lease s.run)

  abbrev third_attempt : ℕ → Shelf → Shelf × Result ℤ
  third_attempt now s =
      reporting_attempt (shelf now) parse_url retry_after context_error
        (λ t principal r a. (t, done (reporter a))) none s (claim lease s.run)

  abbrev pub attempts : ℕ → ℕ → ℕ → Shelf → Shelf × Result ℤ
  attempts n1 n2 n3 s = third_attempt n3 (second_attempt n2 (first_attempt n1 s).0).0

  abbrev last_run : Run → ℕ → ℕ → ℕ → Run
  last_run r n1 n2 n3 =
      moved (moved (moved r (to_state analyzing) n1) (to_state reporting) n2) (to_state completed)
        n3

  abbrev Accepted : Text → Type 0
  Accepted run_id =
      (i : AnalysisInput)
      → analysis_evidence parse_url run_id (collected_listing set) ≡ some (i, none)
      → (valid_normalized_output parse_url run_id (normalizer i) i ≡ true)
        × (valid_report_artifact parse_url run_id (reporter (normalizer i))
              (place (normalizer i) (collected_listing set))
            ≡ true)

  attempts_end :
      (r : Run) (n1 n2 n3 : ℕ)
      → valid_owned_claim (claim lease r) ≡ true
      → r.state ≡ collecting
      → r.revision + 2 < max_run_revision
      → valid_raw_artifact_set parse_url r.id set ≡ true
      → all_of plain set.artifacts ≡ true
      → Accepted r.id
      → attempts n1 n2 n3 (record { run = r; artifacts = [] }) ≡ (
        record {
          run = last_run r n1 n2 n3;
          artifacts =
              place
                (reporter
                  (normalizer (found_input parse_url r.id set (between parse_url r.id set))))
                (place
                  (normalizer (found_input parse_url r.id set (between parse_url r.id set)))
                  (collected_listing set));
        },
        ok (pos 0),
      )
  unfolding collected_listing moved
  attempts_end r n1 n2 n3 owned state room valid formats answers =
      let input = found_input parse_url r.id set (between parse_url r.id set) in
      let out = normalizer input in
      let s0 : Shelf = record { run = r; artifacts = [] } in
      let r1 = moved r (to_state analyzing) n1 in
      let s1 : Shelf = record { run = r1; artifacts = collected_listing set } in
      let r2 = moved r1 (to_state reporting) n2 in
      let s2 : Shelf = record { run = r2; artifacts = place out (collected_listing set) } in
      let evidence = collected-evidence parse_url r.id set valid formats in
      let both = answers input evidence in
      let owned1 = moved-valid_owned_claim lease r (to_state analyzing) n1 owned in
      let owned2 = moved-valid_owned_claim lease r1 (to_state reporting) n2 owned1 in
      ap (λ (w : Shelf × Result ℤ). third_attempt n3 (second_attempt n2 w.0).0)
        (collection-shelf parse_url retry_after context_error lease n1 s0 set owned state
          (omega arith) valid)
      ∙ ap (λ (w : Shelf × Result ℤ). third_attempt n3 w.0)
          (analysis-shelf parse_url retry_after context_error lease n2 normalizer s1 input owned1
            refl (omega arith) evidence both.0)
      ∙ reporting-shelf parse_url retry_after context_error lease n3 reporter s2 out owned2 refl
          (omega arith) (candidate-evidence parse_url r.id set out input valid both.0) both.1

  -- A store that lists by identifier keeps a COLLECTING Run with room for three revisions, under a
  -- valid lease, and no artifact. The collector answers with a valid raw set in which no source has a
  -- format of raw manifests, and the normalizer and the report executor answer with outputs that their
  -- stages accept. Then one attempt at each stage in turn completes the Run, the last without an error.
  pub attempts-completed :
      (r : Run) (n1 n2 n3 : ℕ)
      → valid_owned_claim (claim lease r) ≡ true
      → r.state ≡ collecting
      → r.revision + 2 < max_run_revision
      → valid_raw_artifact_set parse_url r.id set ≡ true
      → all_of plain set.artifacts ≡ true
      → ((i : AnalysisInput)
          → analysis_evidence parse_url r.id (collected_listing set) ≡ some (i, none)
          → (valid_normalized_output parse_url r.id (normalizer i) i ≡ true)
            × (valid_report_artifact parse_url r.id
                  (reporter (normalizer i))
                  (place (normalizer i) (collected_listing set))
                ≡ true))
      → ((attempts n1 n2 n3 (record { run = r; artifacts = [] })).0.run.state ≡ completed)
        × ((attempts n1 n2 n3 (record { run = r; artifacts = [] })).1 ≡ ok (pos 0))
  unfolding moved
  attempts-completed r n1 n2 n3 owned state room valid formats answers =
      let whole = attempts_end r n1 n2 n3 owned state room valid formats answers in
      (ap (λ (w : Shelf × Result ℤ). w.0.run.state) whole, ap (λ (w : Shelf × Result ℤ). w.1) whole)
