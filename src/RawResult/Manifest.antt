-- ===== src/RawResult/Manifest.antt =====
-- Manifest.Validate. `parse_url` and `parse_request_uri` stand for the parsers of package net/url.
use perfeng_control_plane.Base.{
  ℕ, Bool, true, false, List, [], ◌∷◌, Option, some, ◌&&◌, not, ltb, ◌==◌, if◌then◌else◌,
}
use perfeng_control_plane.Base.Int.{ℤ, pos, negsuc}
use perfeng_control_plane.Base.Distinct.{has}
use perfeng_control_plane.Text.{Text, Text-discrete, text, text_eq}
use perfeng_control_plane.Time.Rfc3339.{parse_timestamp}
use perfeng_control_plane.Contract.{valid_id}
use perfeng_control_plane.Identity.{
  Identity, valid_identity, valid_resource_id, valid_contracts_version,
}
use perfeng_control_plane.Run.Artifact.{Artifact, Url, valid_artifact}
use perfeng_control_plane.RawResult.Producer.{
  Producer, RequestUri, valid_producer, valid_producer_execution,
}

pub record Window : Type 0 where
  pub start : Text
  pub end : Text

pub record Manifest : Type 0 where
  pub schema_version : ℤ
  pub kind : Text
  pub contracts_version : Text
  pub run_id : Text
  pub test_id : Text
  pub workload : Identity
  pub producer : Producer
  pub measurement_window : Window
  pub created_at : Text
  pub artifacts : List Artifact

abbrev pub no_artifacts : List Artifact → Bool
no_artifacts [] = true
no_artifacts (a ∷ rest) = false

-- The window is not empty and ends before the manifest is made.
abbrev pub ordered : Option ℕ → Option ℕ → Option ℕ → Bool
ordered (some start) (some end) (some created) = ltb start end && not (ltb created end)
ordered _ _ _ = false

module _ (parse_url : Text → Option Url) (parse_request_uri : Text → Option RequestUri) where
  unfoldable pub valid_manifest_producer : ℤ → Producer → Bool
  valid_manifest_producer (pos version) p =
      if version == 1
      then valid_producer p
      else if version == 2
      then valid_producer_execution parse_request_uri p
      else false
  valid_manifest_producer (negsuc version) p = false

  -- The loop over the artifacts, with the identifiers and the locations already seen.
  unfoldable pub valid_raw_artifacts : Text → List Text → List Text → List Artifact → Bool
  valid_raw_artifacts run_id ids locations [] = true
  valid_raw_artifacts run_id ids locations (a ∷ rest) =
      text_eq a.run_id run_id
      && text_eq a.kind (text "raw")
      && valid_artifact parse_url a
      && not (has Text-discrete a.id ids)
      && not (has Text-discrete a.uri locations)
      && valid_raw_artifacts run_id (a.id ∷ ids) (a.uri ∷ locations) rest

  unfoldable pub validate : Manifest → Text → Text → Bool
  unfolding valid_raw_artifacts valid_manifest_producer
  validate m expected_run_id expected_contracts_version =
      text_eq m.kind (text "RawResult")
      && text_eq m.contracts_version expected_contracts_version
      && text_eq m.run_id expected_run_id
      && valid_contracts_version m.contracts_version
      && valid_id m.run_id
      && valid_resource_id m.test_id
      && valid_identity m.workload
      && valid_manifest_producer m.schema_version m.producer
      && not (no_artifacts m.artifacts)
      && ordered (parse_timestamp m.measurement_window.start)
          (parse_timestamp m.measurement_window.end) (parse_timestamp m.created_at)
      && valid_raw_artifacts m.run_id [] [] m.artifacts
