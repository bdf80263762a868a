-- ===== src/Reconcile/Evidence.antt =====
-- The evidence of a Run as the collection, the analysis and the reporting stage check it
-- (internal/reconcile/collection.go, analysis.go, reporting.go, raw_collector.go). `parse_url` stands
-- for the address parser of net/url.
use perfeng_control_plane.Base.{
  Bool, true, false, List, [], ◌∷◌, ◌++◌, Option, none, some, ◌&&◌, ◌||◌, not, holds, is_none,
  if◌then◌else◌,
}
use perfeng_control_plane.Base.Distinct.{has}
use perfeng_control_plane.Text.{Text, Text-discrete, text, text_eq}
use perfeng_control_plane.Run.Artifact.{Artifact, Artifact-discrete, Url, valid_artifact}

pub record RawArtifactSet : Type 0 where
  pub manifest : Artifact
  pub artifacts : List Artifact

unfoldable pub valid_raw_manifest_format : Text → Bool
valid_raw_manifest_format format =
    text_eq format (text "raw-result/v1") || text_eq format (text "raw-result/v2")

abbrev pub no_artifacts : List Artifact → Bool
no_artifacts [] = true
no_artifacts (a ∷ rest) = false

abbrev pub json : Text
json = text "application/json"

-- The manifest, if one was found, and the sources in the order of the listing.
pub record RawInput : Type 0 where
  pub manifest : Option Artifact
  pub sources : List Artifact

pub record EvidenceSet : Type 0 where
  pub input : RawInput
  pub normalized : Option Artifact

pub record AnalysisInput : Type 0 where
  pub manifest : Artifact
  pub sources : List Artifact

-- `output.ID == artifact.ID || output.URI == artifact.URI`
abbrev pub collides : Artifact → Artifact → Bool
collides a b = text_eq a.id b.id || text_eq a.uri b.uri

unfoldable pub collides_any : Artifact → List Artifact → Bool
collides_any a [] = false
collides_any a (b ∷ bs) = collides a b || collides_any a bs

abbrev pub add_raw : EvidenceSet → Artifact → Option EvidenceSet
add_raw e a =
    if not (valid_raw_manifest_format a.format)
    then some (record e { input = record e.input { sources = e.input.sources ++ a ∷ [] } })
    else if not (is_none e.input.manifest) || not (text_eq a.media_type json)
    then none
    else some (record e { input = record e.input { manifest = some a } })

abbrev pub add_normalized : EvidenceSet → Artifact → Option EvidenceSet
add_normalized e a =
    if not (is_none e.normalized)
      || not (text_eq a.format (text "normalized-result/v1"))
      || not (text_eq a.media_type json)
    then none
    else some (record e { normalized = some a })

abbrev pub no_evidence : EvidenceSet
no_evidence = record { input = record { manifest = none; sources = [] }; normalized = none }

-- The loop over the listing.
abbrev pub continued : Option EvidenceSet → (EvidenceSet → Option EvidenceSet) → Option EvidenceSet
continued none again = none
continued (some e) again = again e

abbrev pub Found : Type 0
Found = Option Artifact × Option Artifact

-- One turn of the loop: the candidate and the report found so far.
abbrev pub add_found : Option Artifact → Option Artifact → Artifact → Option Found
add_found candidate report a =
    if not (text_eq a.kind (text "normalized")) || not (text_eq a.media_type json)
    then none
    else if text_eq a.format (text "normalized-result/v1")
    then if is_none candidate then some (some a, report) else none
    else if text_eq a.format (text "analysis-result/v1")
    then if is_none report then some (candidate, some a) else none
    else none

abbrev pub then_reported :
    Option Found → (Option Artifact → Option Artifact → Option Found) → Option Found
then_reported none again = none
then_reported (some (c, r)) again = again c r

module _ (parse_url : Text → Option Url) where
  -- The loop over the artifacts, with the identifiers and the locations already seen.
  unfoldable pub valid_raw_set : Text → List Text → List Text → List Artifact → Bool
  valid_raw_set run_id ids locations [] = true
  valid_raw_set run_id ids locations (a ∷ rest) =
      text_eq a.run_id run_id
      && text_eq a.kind (text "raw")
      && valid_artifact parse_url a
      && not (has Text-discrete a.id ids)
      && not (has Text-discrete a.uri locations)
      && valid_raw_set run_id (a.id ∷ ids) (a.uri ∷ locations) rest

  unfoldable pub valid_raw_artifact_set : Text → RawArtifactSet → Bool
  unfolding valid_raw_set
  valid_raw_artifact_set run_id c =
      not (no_artifacts c.artifacts)
      && text_eq c.manifest.run_id run_id
      && text_eq c.manifest.kind (text "raw")
      && text_eq c.manifest.media_type json
      && valid_raw_manifest_format c.manifest.format
      && valid_artifact parse_url c.manifest
      && valid_raw_set run_id (c.manifest.id ∷ []) (c.manifest.uri ∷ []) c.artifacts

  unfoldable pub valid_normalized_output : Text → Artifact → AnalysisInput → Bool
  unfolding collides_any
  valid_normalized_output run_id output input =
      text_eq output.run_id run_id
      && text_eq output.kind (text "normalized")
      && text_eq output.media_type json
      && text_eq output.format (text "normalized-result/v1")
      && valid_artifact parse_url output
      && not (collides output input.manifest)
      && not (collides_any output input.sources)

  unfoldable pub add_evidence : Text → EvidenceSet → Artifact → Option EvidenceSet
  add_evidence run_id e a =
      if not (text_eq a.run_id run_id) || not (valid_artifact parse_url a)
      then none
      else if text_eq a.kind (text "raw")
      then add_raw e a
      else if text_eq a.kind (text "normalized")
      then add_normalized e a
      else none

  unfoldable pub add_each : Text → EvidenceSet → List Artifact → Option EvidenceSet
  add_each run_id e [] = some e
  add_each run_id e (a ∷ rest) =
      continued (add_evidence run_id e a) λ next. add_each run_id next rest

  abbrev normalized_fits : Text → Option Artifact → AnalysisInput → Bool
  normalized_fits run_id none input = true
  normalized_fits run_id (some a) input = valid_normalized_output run_id a input

  abbrev pub with_manifest :
      Text
      → Option Artifact
      → List Artifact
      → Option Artifact
      → Option (AnalysisInput × Option Artifact)
  with_manifest run_id none sources normalized = none
  with_manifest run_id (some m) sources normalized =
      let input : AnalysisInput = record { manifest = m; sources = sources } in
      if no_artifacts sources || not (normalized_fits run_id normalized input)
      then none
      else some (input, normalized)

  abbrev pub complete_evidence :
      Text → Option EvidenceSet → Option (AnalysisInput × Option Artifact)
  complete_evidence run_id none = none
  complete_evidence run_id (some e) =
      with_manifest run_id e.input.manifest e.input.sources e.normalized

  -- Nothing stands for `ErrValidation`. A manifest with an empty identifier reads as no manifest, and
  -- none is valid.
  unfoldable pub analysis_evidence : Text → List Artifact → Option (AnalysisInput × Option Artifact)
  unfolding add_each
  analysis_evidence run_id artifacts =
      complete_evidence run_id (add_each run_id no_evidence artifacts)

  unfoldable pub valid_report_artifact : Text → Artifact → List Artifact → Bool
  unfolding collides_any
  valid_report_artifact run_id output existing =
      text_eq output.run_id run_id
      && text_eq output.kind (text "normalized")
      && text_eq output.media_type json
      && text_eq output.format (text "analysis-result/v1")
      && valid_artifact parse_url output
      && not (collides_any output existing)

  abbrev pub add_reported : Text → Option Artifact → Option Artifact → Artifact → Option Found
  add_reported run_id candidate report a =
      if not (text_eq a.run_id run_id) || not (valid_artifact parse_url a)
      then none
      else if text_eq a.kind (text "raw")
      then some (candidate, report)
      else add_found candidate report a

  unfoldable pub find_each : Text → Option Artifact → Option Artifact → List Artifact → Option Found
  find_each run_id candidate report [] = some (candidate, report)
  find_each run_id candidate report (a ∷ rest) =
      then_reported (add_reported run_id candidate report a) λ c r. find_each run_id c r rest

  -- `artifactsWithout`: the first equal artifact is left out.
  unfoldable pub artifacts_without : Artifact → List Artifact → List Artifact
  artifacts_without excluded [] = []
  artifacts_without excluded (a ∷ rest) =
      let later = a ∷ artifacts_without excluded rest in
      if holds (Artifact-discrete a excluded) then rest else later

  abbrev report_fits : Text → Option Artifact → List Artifact → Bool
  report_fits run_id none artifacts = true
  report_fits run_id (some r) artifacts =
      valid_report_artifact run_id r (artifacts_without r artifacts)

  abbrev pub with_candidate :
      Text → List Artifact → Option Found → Option (Artifact × Option Artifact)
  with_candidate run_id artifacts none = none
  with_candidate run_id artifacts (some (none, report)) = none
  with_candidate run_id artifacts (some (some candidate, report)) =
      if report_fits run_id report artifacts then some (candidate, report) else none

  unfoldable pub reporting_evidence : Text → List Artifact → Option (Artifact × Option Artifact)
  unfolding find_each artifacts_without
  reporting_evidence run_id artifacts =
      with_candidate run_id artifacts (find_each run_id none none artifacts)
