-- ===== src/Reconcile/Found.antt =====
-- What the reporting stage finds in the listing of a normalized Run (internal/reconcile/reporting.go).
use perfeng_control_plane.Base.{
  Bool, true, false, List, [], ◌∷◌, ◌++◌, Option, none, some, ◌&&◌, ◌||◌, not, if◌then◌else◌, ◌≡◌,
  refl, ◌∙◌, ap, arith,
}
use perfeng_control_plane.Text.{Text, text, text_eq}
use perfeng_control_plane.Run.Artifact.{Artifact, Url, valid_artifact}
use perfeng_control_plane.Reconcile.Evidence.{
  AnalysisInput, Found, json, valid_normalized_output, add_reported, then_reported, find_each,
  with_candidate, reporting_evidence,
}
use perfeng_control_plane.Reconcile.EvidenceFlow.{all_of, and_left, and_right, raw_source}
use perfeng_control_plane.Reconcile.Recovered.{Fits, valid_normalized_output-Fits}

module _ (parse_url : Text → Option Url) (run_id : Text) where
  raw_step :
      (own valid is_raw : Bool) (x y : Option Found)
      → (own && is_raw && valid) ≡ true
      → (if not own || not valid then none else if is_raw then x else y) ≡ x
  raw_step own valid is_raw x y h = ground (arith, h)

  find_each-raw_source :
      (candidate report : Option Artifact) (xs : List Artifact)
      → all_of (raw_source parse_url run_id) xs ≡ true
      → find_each parse_url run_id candidate report xs ≡ some (candidate, report)
  unfolding find_each all_of
  find_each-raw_source candidate report [] h = refl
  find_each-raw_source candidate report (x ∷ xs) h =
      let here =
        and_left (raw_source parse_url run_id x) (all_of (raw_source parse_url run_id) xs) h in
      let rest =
        and_right (raw_source parse_url run_id x) (all_of (raw_source parse_url run_id) xs) h in
      ap (λ o. then_reported o λ c r. find_each parse_url run_id c r xs)
        (raw_step (text_eq x.run_id run_id) (valid_artifact parse_url x)
          (text_eq x.kind (text "raw")) _ _ here)
      ∙ find_each-raw_source candidate report xs rest

  candidate_step :
      (own valid is_raw is_normalized format media : Bool) (x y z w v : Option Found)
      → (own && valid && format && media && is_normalized) ≡ true
      → is_raw ≡ false
      → (if not own || not valid
          then none
          else if is_raw
          then x
          else if not is_normalized || not media
          then y
          else if format
          then z
          else w)
        ≡ z
  candidate_step own valid is_raw is_normalized format media x y z w v h k = ground (arith, h, k)

  add_reported-candidate :
      (a : Artifact) (report : Option Artifact)
      → Fits parse_url run_id a
      → add_reported parse_url run_id none report a ≡ some (some a, report)
  add_reported-candidate a report (h, k) =
      candidate_step (text_eq a.run_id run_id) (valid_artifact parse_url a)
        (text_eq a.kind (text "raw")) (text_eq a.kind (text "normalized"))
        (text_eq a.format (text "normalized-result/v1")) (text_eq a.media_type json) _ _ _ _ none h
        k

  find_each-candidate :
      (a : Artifact) (report : Option Artifact) (before after : List Artifact)
      → all_of (raw_source parse_url run_id) (before ++ after) ≡ true
      → Fits parse_url run_id a
      → find_each parse_url run_id none report (before ++ (a ∷ after)) ≡ some (some a, report)
  unfolding find_each all_of
  find_each-candidate a report [] after h f =
      ap (λ o. then_reported o λ c r. find_each parse_url run_id c r after)
        (add_reported-candidate a report f)
      ∙ find_each-raw_source (some a) report after h
  find_each-candidate a report (x ∷ before) after h f =
      let more = all_of (raw_source parse_url run_id) (before ++ after) in
      let here = and_left (raw_source parse_url run_id x) more h in
      let rest = and_right (raw_source parse_url run_id x) more h in
      ap (λ o. then_reported o λ c r. find_each parse_url run_id c r (before ++ (a ∷ after)))
        (raw_step (text_eq x.run_id run_id) (valid_artifact parse_url x)
          (text_eq x.kind (text "raw")) _ _ here)
      ∙ find_each-candidate a report before after rest f

  -- Raw evidence and one normalized result in any place: the result is the candidate of the report.
  pub reporting_evidence-candidate :
      (a : Artifact) (input : AnalysisInput) (before after : List Artifact)
      → all_of (raw_source parse_url run_id) (before ++ after) ≡ true
      → valid_normalized_output parse_url run_id a input ≡ true
      → reporting_evidence parse_url run_id (before ++ (a ∷ after)) ≡ some (a, none)
  unfolding reporting_evidence
  reporting_evidence-candidate a input before after h k =
      ap (with_candidate parse_url run_id (before ++ (a ∷ after))) (
        find_each-candidate a none before after h
          (valid_normalized_output-Fits parse_url run_id a input k))
