-- ===== src/Reconcile/Collector.antt =====
-- The collector of the verified raw evidence (internal/reconcile/raw_collector.go,
-- contracts_version.go). `decode` stands for the decoding of a manifest from JSON, `parse_url` and
-- `parse_request_uri` for the parsers of net/url.
use perfeng_control_plane.Base.{
  Bool, true, false, List, [], ◌∷◌, Option, none, some, not, ◌&&◌, ◌||◌, ◌==◌, if◌then◌else◌,
}
use perfeng_control_plane.Base.Int.{ℤ, pos, negsuc}
use perfeng_control_plane.Text.{Text, text, text_eq}
use perfeng_control_plane.Errors.{Error, validation}
use perfeng_control_plane.Contract.{valid_id}
use perfeng_control_plane.Identity.{valid_contracts_version}
use perfeng_control_plane.Run.{Run}
use perfeng_control_plane.Run.Artifact.{Artifact, Url, valid_artifact}
use perfeng_control_plane.RawResult.Producer.{RequestUri}
use perfeng_control_plane.RawResult.Manifest.{Manifest, validate}
use perfeng_control_plane.Reconcile.Evidence.{
  RawArtifactSet, json, valid_raw_manifest_format, valid_raw_artifact_set,
}
use perfeng_control_plane.Reconcile.Attempts.{Refusal, Answer, refused, done}

-- An error of a dependency of the collector, with the sentinels that it wraps.
pub record Failure : Type 0 where
  pub reason : Error
  pub is_context : Bool
  pub is_not_ready : Bool
  pub is_not_found : Bool
  pub is_invalid : Bool
  pub is_mismatch : Bool
  pub is_validation : Bool
  pub is_forbidden : Bool

abbrev as_it_is : Failure → Refusal
as_it_is f = record { reason = f.reason; is_pending = f.is_not_ready; is_failed = f.is_invalid }

abbrev pub not_ready : Refusal
not_ready = record {
  reason = Error.other (text "raw execution artifacts are not ready");
  is_pending = true;
  is_failed = false;
}

abbrev pub invalid : Refusal
invalid = record {
  reason = Error.other (text "raw execution artifacts are invalid");
  is_pending = false;
  is_failed = true;
}

abbrev pub invalid_call : Refusal
invalid_call = record { reason = validation; is_pending = false; is_failed = false }

unfoldable pub classify_collection_evidence : Failure → Refusal
classify_collection_evidence f =
    let ready = f.is_not_ready || f.is_not_found in
    let bad = f.is_invalid || f.is_mismatch || f.is_validation in
    if f.is_context
    then as_it_is f
    else if ready && bad
    then invalid_call
    else if ready
    then not_ready
    else if bad
    then invalid
    else as_it_is f

unfoldable pub classify_collection_approval : Failure → Refusal
classify_collection_approval f =
    if f.is_context
    then as_it_is f
    else if f.is_validation || f.is_forbidden || f.is_invalid
    then invalid
    else as_it_is f

unfoldable pub raw_manifest_format : ℤ → Text
raw_manifest_format (pos version) =
    if version == 1 then text "raw-result/v1" else if version == 2 then text "raw-result/v2" else []
raw_manifest_format (negsuc version) = []

pub data Outcome (A : Type 0) : Type 0 where
  failed : Failure → Outcome A
  given : A → Outcome A

-- The selector of the contracts, the resolver, the reader of verified bytes, the approver and the
-- attempt's context.
pub record World (S : Type 0) : Type 0 where
  pub resolve_contracts_version : S → Text → Run → S × Outcome Text
  pub resolve_raw_manifest : S → Text → Run → S × Outcome Artifact
  pub read : S → Artifact → S × Outcome Text
  pub approve_raw_manifest : S → Text → Run → Manifest → S × Option Failure
  pub context_error : S → Option Error

abbrev pub version_failure : Failure
version_failure = record {
  reason = validation;
  is_context = false;
  is_not_ready = false;
  is_not_found = false;
  is_invalid = false;
  is_mismatch = false;
  is_validation = true;
  is_forbidden = false;
}

abbrev pub checked_version : {S : Type 0} → S × Outcome Text → S × Outcome Text
checked_version (s, failed f) = (s, failed f)
checked_version (s, given version) =
    if not (valid_contracts_version version)
    then (s, failed version_failure)
    else (s, given version)

unfoldable pub evidence_contracts_version :
    {S : Type 0} → World S → S → Text → Run → S × Outcome Text
evidence_contracts_version w s principal r =
    checked_version (w.resolve_contracts_version s principal r)

module _ {S : Type 0} (w : World S) (parse_url : Text → Option Url)
    (parse_request_uri : Text → Option RequestUri) (decode : Text → Option Manifest) where
  abbrev pub validated : Text → Text → Option Manifest → Option Manifest
  validated run_id version none = none
  validated run_id version (some m) =
      if validate parse_url parse_request_uri m run_id version then some m else none

  unfoldable pub parse : Text → Text → Text → Option Manifest
  parse bytes run_id version =
      if not (valid_id run_id) || not (valid_contracts_version version)
      then none
      else validated run_id version (decode bytes)

  unfoldable pub valid_raw_manifest_reference : Artifact → Text → Bool
  valid_raw_manifest_reference a run_id =
      text_eq a.run_id run_id
      && text_eq a.kind (text "raw")
      && text_eq a.media_type json
      && valid_raw_manifest_format a.format
      && valid_artifact parse_url a

  abbrev pub set_of : Artifact → Manifest → RawArtifactSet
  set_of reference m = record { manifest = reference; artifacts = m.artifacts }

  abbrev pub and_read :
      S × Outcome Text → (S → S × Answer RawArtifactSet) → S × Answer RawArtifactSet
  and_read (s, failed f) rest = (s, refused (classify_collection_evidence f))
  and_read (s, given bytes) rest = rest s

  unfoldable pub read_each : S → RawArtifactSet → List Artifact → S × Answer RawArtifactSet
  read_each s set [] = (s, done set)
  read_each s set (a ∷ later) = and_read (w.read s a) λ t. read_each t set later

  abbrev pub approved : RawArtifactSet → S × Option Failure → S × Answer RawArtifactSet
  approved set (s, some f) = (s, refused (classify_collection_approval f))
  approved set (s, none) = read_each s set set.artifacts

  abbrev pub parsed : S → Text → Run → Artifact → Option Manifest → S × Answer RawArtifactSet
  parsed s principal r reference none = (s, refused invalid)
  parsed s principal r reference (some m) =
      if not (text_eq reference.format (raw_manifest_format m.schema_version))
        || not (valid_raw_artifact_set parse_url r.id (set_of reference m))
      then (s, refused invalid)
      else approved (set_of reference m) (w.approve_raw_manifest s principal r m)

  abbrev pub manifest_read :
      Text → Run → Text → Artifact → S × Outcome Text → S × Answer RawArtifactSet
  manifest_read principal r version reference (s, failed f) =
      (s, refused (classify_collection_evidence f))
  manifest_read principal r version reference (s, given bytes) =
      parsed s principal r reference (parse bytes r.id version)

  abbrev pub resolved : Text → Run → Text → S × Outcome Artifact → S × Answer RawArtifactSet
  resolved principal r version (s, failed f) = (s, refused (classify_collection_evidence f))
  resolved principal r version (s, given reference) =
      if not (valid_raw_manifest_reference reference r.id)
      then (s, refused invalid)
      else manifest_read principal r version reference (w.read s reference)

  abbrev pub versioned : Text → Run → S × Outcome Text → S × Answer RawArtifactSet
  versioned principal r (s, failed f) = (s, refused (classify_collection_approval f))
  versioned principal r (s, given version) =
      resolved principal r version (w.resolve_raw_manifest s principal r)

  abbrev pub live : S → Text → Run → Option Error → S × Answer RawArtifactSet
  live s principal r (some e) =
      (s, refused (record { reason = e; is_pending = false; is_failed = false }))
  live s principal r none =
      if text_eq principal [] || not (valid_id r.id)
      then (s, refused invalid_call)
      else versioned principal r (evidence_contracts_version w s principal r)

  unfoldable pub collect_raw_artifacts : S → Text → Run → S × Answer RawArtifactSet
  unfolding parse read_each
  collect_raw_artifacts s principal r = live s principal r (w.context_error s)
