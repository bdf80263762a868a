-- ===== src/Reconcile/Verified.antt =====
-- What an answered set of the collector has been checked for (internal/reconcile/raw_collector.go).
use mathlib.Core.Option.{some-injective}
use mathlib.Core.Path.{subst}
use perfeng_control_plane.Base.{
  Bool, true, false, List, [], ◌∷◌, Option, none, some, not, ◌||◌, if◌then◌else◌, ◌≡◌, refl, ap,
  arith,
}
use perfeng_control_plane.Text.{Text, text_eq}
use perfeng_control_plane.Errors.{Error}
use perfeng_control_plane.Contract.{valid_id}
use perfeng_control_plane.Identity.{valid_contracts_version}
use perfeng_control_plane.Run.{Run}
use perfeng_control_plane.Run.Artifact.{Artifact, Url}
use perfeng_control_plane.RawResult.Producer.{RequestUri}
use perfeng_control_plane.RawResult.Manifest.{Manifest, validate}
use perfeng_control_plane.Reconcile.Evidence.{RawArtifactSet, valid_raw_artifact_set}
use perfeng_control_plane.Reconcile.Attempts.{Refusal, Answer, refused, done}
use perfeng_control_plane.Reconcile.Collector
use perfeng_control_plane.Reconcile.Collector.{
  version_failure, checked_version, Failure, Outcome, failed, given, World,
  evidence_contracts_version, validated, parse, set_of, raw_manifest_format,
  valid_raw_manifest_reference, and_read, read_each, approved, parsed, manifest_read, versioned,
  live, collect_raw_artifacts,
}

abbrev answer_of : {S A : Type 0} → S × Answer A → Option A
answer_of (s, refused r) = none
answer_of (s, done a) = some a

-- The reader has given the bytes of each artifact in turn.
pub data AllRead {S : Type 0} (w : World S) : S → List Artifact → Type 0 where
  all : {s : S} → AllRead w s []
  one :
      {s t : S} {a : Artifact} {later : List Artifact} (bytes : Text)
      → w.read s a ≡ (t, given bytes)
      → AllRead w t later
      → AllRead w s (a ∷ later)

-- What the selector, the resolver, the reader and the approver have answered, one after the other, and
-- the manifest that the bytes of the resolved reference decode to.
pub record Verified {S : Type 0} (w : World S) (parse_url : Text → Option Url)
    (parse_request_uri : Text → Option RequestUri) (decode : Text → Option Manifest) (s : S)
    (principal : Text) (r : Run) (set : RawArtifactSet) : Type 0 where
  pub selected : S
  pub resolved : S
  pub fetched : S
  pub approved : S
  pub version : Text
  pub bytes : Text
  pub manifest : Manifest
  pub pinned : w.resolve_contracts_version s principal r ≡ (selected, given version)
  pub located : w.resolve_raw_manifest selected principal r ≡ (resolved, given set.manifest)
  pub read : w.read resolved set.manifest ≡ (fetched, given bytes)
  pub decoded : decode bytes ≡ some manifest
  pub envelope : validate parse_url parse_request_uri manifest r.id version ≡ true
  pub artifacts : set.artifacts ≡ manifest.artifacts
  pub format : text_eq set.manifest.format (raw_manifest_format manifest.schema_version) ≡ true
  pub valid : valid_raw_artifact_set parse_url r.id set ≡ true
  pub accepted : w.approve_raw_manifest fetched principal r manifest ≡ (approved, none)
  pub all_read : AllRead w approved set.artifacts

both_true :
    {S A : Type 0} (b c : Bool) (s : S) (e : Refusal) (y : S × Answer A) (u : A)
    → answer_of (if not b || not c then (s, refused e) else y) ≡ some u
    → (b ≡ true) × (c ≡ true) × (answer_of y ≡ some u)
both_true true true s e y u h = (refl, refl, h)
both_true true false s e y u h = absurd (ground (arith, h))
both_true false c s e y u h = absurd (ground (arith, h))

then_answer :
    {S A : Type 0} (b : Bool) (s : S) (e : Refusal) (y : S × Answer A) (u : A)
    → answer_of (if b then (s, refused e) else y) ≡ some u
    → answer_of y ≡ some u
then_answer true s e y u h = absurd (ground (arith, h))
then_answer false s e y u h = h

kept_manifest :
    (b : Bool) (n m : Manifest) → (if b then some n else none) ≡ some m → (b ≡ true) × (n ≡ m)
kept_manifest true n m h = (refl, some-injective _ _ h)
kept_manifest false n m h = absurd (ground (arith, h))

left_empty :
    (b : Bool) (o : Option Manifest) (m : Manifest) → (if b then none else o) ≡ some m → o ≡ some m
left_empty true o m h = absurd (ground (arith, h))
left_empty false o m h = h

given_of : Outcome Text → Bool
given_of (failed f) = false
given_of (given a) = true

failed-given : (f : Failure) (v : Text) → failed f ≡ given v → ⊥
unfolding given_of
failed-given f v h = let e : false ≡ true = ap given_of h in absurd (ground (arith, e))

passed :
    {S : Type 0} (b : Bool) (s : S) (f : Failure) (v : Text) (t : S) (version : Text)
    → if◌then◌else◌ {A = S × Outcome Text} (not b) (s, failed f) (s, given v) ≡ (t, given version)
    → ◌≡◌ {A = S × Outcome Text} (s, given v) (t, given version)
passed true s f v t version h = h
passed false s f v t version h = absurd (failed-given f version (ap (λ x. x.1) h))

-- The check of the contracts version keeps the answer of the selector.
checked_version-given :
    {S : Type 0} (o : S × Outcome Text) (t : S) (version : Text)
    → checked_version o ≡ (t, given version)
    → o ≡ (t, given version)
checked_version-given (s, failed f) t version h = h
checked_version-given (s, given v) t version h =
    passed (valid_contracts_version v) s version_failure v t version h

module _ {S : Type 0} (w : World S) (parse_url : Text → Option Url)
    (parse_request_uri : Text → Option RequestUri) (decode : Text → Option Manifest) where
  read_one :
      (s : S) (a : Artifact) (later : List Artifact) (o : S × Outcome Text)
      (rest : S → S × Answer RawArtifactSet) (set u : RawArtifactSet)
      → w.read s a ≡ o
      → ((t : S) → answer_of (rest t) ≡ some u → (set ≡ u) × AllRead w t later)
      → answer_of (and_read w parse_url parse_request_uri decode o rest) ≡ some u
      → (set ≡ u) × AllRead w s (a ∷ later)
  read_one s a later (t, failed f) rest set u e h k = absurd (ground (arith, k))
  read_one s a later (t, given bytes) rest set u e h k =
      let (same, read) = h t k in (same, one bytes e read)

  read_each-AllRead :
      (s : S) (set : RawArtifactSet) (xs : List Artifact) (u : RawArtifactSet)
      → answer_of (read_each w parse_url parse_request_uri decode s set xs) ≡ some u
      → (set ≡ u) × AllRead w s xs
  unfolding read_each
  read_each-AllRead s set [] u h = (some-injective _ _ h, all)
  read_each-AllRead s set (a ∷ later) u h =
      read_one s a later (w.read s a) _ set u refl (λ t. read_each-AllRead t set later u) h

  approved-AllRead :
      (set : RawArtifactSet) (o : S × Option Failure) (u : RawArtifactSet)
      → answer_of (approved w parse_url parse_request_uri decode set o) ≡ some u
      → (t : S) × (o ≡ (t, none)) × (set ≡ u) × AllRead w t set.artifacts
  approved-AllRead set (s, some f) u h = absurd (ground (arith, h))
  approved-AllRead set (s, none) u h =
      let (same, read) = read_each-AllRead s set set.artifacts u h in (s, refl, same, read)

  validated-decoded :
      (run_id version : Text) (o : Option Manifest) (m : Manifest)
      → validated w parse_url parse_request_uri decode run_id version o ≡ some m
      → (o ≡ some m) × (validate parse_url parse_request_uri m run_id version ≡ true)
  validated-decoded run_id version none m h = absurd (ground (arith, h))
  validated-decoded run_id version (some n) m h =
      let (fine, same) =
        kept_manifest (validate parse_url parse_request_uri n run_id version) n m h in
      (
        ap some same,
        subst (λ k. validate parse_url parse_request_uri k run_id version ≡ true) same fine,
      )

  parse-decoded :
      (bytes run_id version : Text) (m : Manifest)
      → parse w parse_url parse_request_uri decode bytes run_id version ≡ some m
      → (decode bytes ≡ some m) × (validate parse_url parse_request_uri m run_id version ≡ true)
  unfolding parse
  parse-decoded bytes run_id version m h =
      validated-decoded run_id version (decode bytes) m
        (left_empty (not (valid_id run_id) || not (valid_contracts_version version)) _ m h)

  module _ (s : S) (principal : Text) (r : Run) (u : RawArtifactSet) where
    abbrev Proof : Type 0
    Proof = Verified w parse_url parse_request_uri decode s principal r u

    parsed-Verified :
        (selected resolved fetched : S) (version bytes : Text) (reference : Artifact)
        (o : Option Manifest)
        → w.resolve_contracts_version s principal r ≡ (selected, given version)
        → w.resolve_raw_manifest selected principal r ≡ (resolved, given reference)
        → w.read resolved reference ≡ (fetched, given bytes)
        → parse w parse_url parse_request_uri decode bytes r.id version ≡ o
        → answer_of (parsed w parse_url parse_request_uri decode fetched principal r reference o)
          ≡ some u
        → Proof
    parsed-Verified selected resolved fetched version bytes reference none a b c d h =
        absurd (ground (arith, h))
    parsed-Verified selected resolved fetched version bytes reference (some m) a b c d h =
        let set = set_of w parse_url parse_request_uri decode reference m in
        let (format, valid, rest) =
          both_true (text_eq reference.format (raw_manifest_format m.schema_version))
            (valid_raw_artifact_set parse_url r.id set) fetched _ _ u h in
        let (approved, accepted, same, all_read) =
          approved-AllRead set (w.approve_raw_manifest fetched principal r m) u rest in
        let (decoded, envelope) = parse-decoded bytes r.id version m d in
        subst (λ v. Verified w parse_url parse_request_uri decode s principal r v) same
          (record {
            selected = selected;
            resolved = resolved;
            fetched = fetched;
            approved = approved;
            version = version;
            bytes = bytes;
            manifest = m;
            pinned = a;
            located = b;
            read = c;
            decoded = decoded;
            envelope = envelope;
            artifacts = refl;
            format = format;
            valid = valid;
            accepted = accepted;
            all_read = all_read;
          })

    manifest_read-Verified :
        (selected resolved : S) (version : Text) (reference : Artifact) (o : S × Outcome Text)
        → w.resolve_contracts_version s principal r ≡ (selected, given version)
        → w.resolve_raw_manifest selected principal r ≡ (resolved, given reference)
        → w.read resolved reference ≡ o
        → answer_of
            (manifest_read w parse_url parse_request_uri decode principal r version reference o)
          ≡ some u
        → Proof
    manifest_read-Verified selected resolved version reference (t, failed f) a b c h =
        absurd (ground (arith, h))
    manifest_read-Verified selected resolved version reference (t, given bytes) a b c h =
        parsed-Verified selected resolved t version bytes reference _ a b c refl h

    resolved-Verified :
        (selected : S) (version : Text) (o : S × Outcome Artifact)
        → w.resolve_contracts_version s principal r ≡ (selected, given version)
        → w.resolve_raw_manifest selected principal r ≡ o
        → answer_of (Collector.resolved w parse_url parse_request_uri decode principal r version o)
          ≡ some u
        → Proof
    resolved-Verified selected version (t, failed f) a b h = absurd (ground (arith, h))
    resolved-Verified selected version (t, given reference) a b h =
        manifest_read-Verified selected t version reference (w.read t reference) a b refl (
          then_answer
            (not (valid_raw_manifest_reference w parse_url parse_request_uri decode reference r.id))
            t _ _ u h)

    versioned-Verified :
        (o : S × Outcome Text)
        → evidence_contracts_version w s principal r ≡ o
        → answer_of (versioned w parse_url parse_request_uri decode principal r o) ≡ some u
        → Proof
    unfolding evidence_contracts_version
    versioned-Verified (t, failed f) a h = absurd (ground (arith, h))
    versioned-Verified (t, given version) a h =
        resolved-Verified t version (w.resolve_raw_manifest t principal r)
          (checked_version-given (w.resolve_contracts_version s principal r) t version a) refl h

    live-Verified :
        (o : Option Error)
        → answer_of (live w parse_url parse_request_uri decode s principal r o) ≡ some u
        → Proof
    live-Verified (some e) h = absurd (ground (arith, h))
    live-Verified none h =
        versioned-Verified (evidence_contracts_version w s principal r) refl
          (then_answer (text_eq principal [] || not (valid_id r.id)) s _ _ u h)

  -- A set that the collector answers with has gone through every check. The selector answered with a
  -- contracts version, and the resolver with the manifest reference of the set. The bytes that the
  -- reader gave for it decode to a manifest that is valid for the Run and that version, that has the
  -- sources of the set and the schema version of the format of the reference, and that the approver
  -- accepted. The set is valid for the Run, and the reader gave the bytes of every source.
  pub collect_raw_artifacts-Verified :
      (s t : S) (principal : Text) (r : Run) (set : RawArtifactSet)
      → collect_raw_artifacts w parse_url parse_request_uri decode s principal r ≡ (t, done set)
      → Verified w parse_url parse_request_uri decode s principal r set
  unfolding collect_raw_artifacts
  collect_raw_artifacts-Verified s t principal r set h =
      live-Verified s principal r set (w.context_error s) (ap answer_of h)
