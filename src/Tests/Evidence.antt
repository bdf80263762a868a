-- ===== src/Tests/Evidence.antt =====
-- The evidence of a Run at concrete listings (internal/reconcile).
use mathlib.Core.List.{Permᴰ}
use mathlib.Core.Option.{some-injective}
use mathlib.Core.Path.{subst}
use perfeng_control_plane.Base.{
  ℕ, ◌+◌, ◌≡◌, refl, sym, ◌∙◌, ap, arith, [], ◌∷◌, Option, none, some, true, false,
}
use perfeng_control_plane.Base.Int.{pos}
use perfeng_control_plane.Base.Distinct.{has}
unfoldable use perfeng_control_plane.Text.{Text-discrete}
use perfeng_control_plane.Text.{Text, text}
use perfeng_control_plane.Errors.{Result, ok, err, context_done}
use perfeng_control_plane.Contract.{State, collecting, analyzing, cancelling, completed, valid_id}
use perfeng_control_plane.Identity.{valid_worker_id, valid_token}
use perfeng_control_plane.Run.{Run}
use perfeng_control_plane.Run.Artifact.{Artifact, Url, valid_artifact}
use perfeng_control_plane.Run.History.{accepted_run}
use perfeng_control_plane.Run.Claims.{Claim, valid_lease}
use perfeng_control_plane.Reconcile.Stage.{advance_owned_claim, valid_owned_claim}
use perfeng_control_plane.Reconcile.Bound.{Execution}
use perfeng_control_plane.Reconcile.Provision
use perfeng_control_plane.Reconcile.Creation.{may_create, reconcile-ensure_job}
use perfeng_control_plane.Memory.Artifacts.{text_lt, place}
use perfeng_control_plane.Reconcile.Finished.{collected_listing, attempts, attempts-completed}
use perfeng_control_plane.Reconcile.Evidence.{
  valid_report_artifact, RawArtifactSet, AnalysisInput, valid_raw_manifest_format, add_evidence,
  valid_raw_artifact_set, valid_normalized_output, analysis_evidence,
}
use perfeng_control_plane.Reconcile.EvidenceFlow.{all_of, analysis_evidence-valid_raw_artifact_set}
use perfeng_control_plane.Reconcile.Attempts.{EvidenceStore, Answer, refused, analysis}
use perfeng_control_plane.Reconcile.Durable.{analysis-advance_owned_claim}
use perfeng_control_plane.Tests.Samples.{noon, fresh_run}

abbrev pub hash : Text
hash = text "0123456789abcdef0123456789abcdef0123456789abcdef0123456789abcdef"

abbrev pub artifact : Text → Text → Text → Text → Text → Artifact
artifact id uri kind media format = record {
  id = id;
  run_id = fresh_run.id;
  kind = kind;
  uri = uri;
  sha256 = hash;
  size_bytes = pos 10;
  media_type = media;
  format = format;
}

abbrev json : Text
json = text "application/json"

abbrev manifest : Artifact
manifest =
    artifact (text "2223abcd-0123-4abc-8abc-0123456789ab") (text "s3://evidence/manifest")
      (text "raw") json (text "raw-result/v2")

abbrev pub samples : Artifact
samples =
    artifact (text "1113abcd-0123-4abc-8abc-0123456789ab") (text "s3://evidence/samples")
      (text "raw") json (text "k6-summary/v1")

-- A source that has the format of a manifest.
abbrev nested : Artifact
nested =
    artifact (text "3333abcd-0123-4abc-8abc-0123456789ab") (text "s3://evidence/nested")
      (text "raw") json (text "raw-result/v1")

abbrev result : Artifact
result =
    artifact (text "4443abcd-0123-4abc-8abc-0123456789ab") (text "s3://evidence/normalized")
      (text "normalized") json (text "normalized-result/v1")

abbrev pub parse_url : Text → Option Url
parse_url address =
    some (record { hostname = text "evidence"; has_user = false; raw_query = []; fragment = [] })

abbrev collected : RawArtifactSet
collected = record { manifest = manifest; artifacts = nested ∷ samples ∷ [] }

collected-valid : valid_raw_artifact_set parse_url fresh_run.id collected ≡ true
unfolding valid_raw_artifact_set valid_raw_manifest_format valid_artifact has Text-discrete
    accepted_run
collected-valid = refl

-- A valid set that the analysis does not take.
analysis_evidence-valid_raw_artifact_set_example :
    analysis_evidence parse_url fresh_run.id (samples ∷ manifest ∷ nested ∷ []) ≡ none
unfolding all_of valid_raw_manifest_format Text-discrete
analysis_evidence-valid_raw_artifact_set_example =
    analysis_evidence-valid_raw_artifact_set parse_url fresh_run.id collected (samples ∷ [])
      (nested ∷ []) collected-valid (Permᴰ.swap refl refl)

abbrev input : AnalysisInput
input = record { manifest = manifest; sources = samples ∷ [] }

input-found :
    analysis_evidence parse_url fresh_run.id (samples ∷ manifest ∷ []) ≡ some (input, none)
unfolding analysis_evidence add_evidence valid_artifact valid_raw_manifest_format Text-discrete
    accepted_run
input-found = refl

result-valid : valid_normalized_output parse_url fresh_run.id result input ≡ true
unfolding valid_normalized_output valid_artifact Text-discrete accepted_run
result-valid = refl

abbrev claim_in : State → Claim
claim_in state = record {
  lease = record {
    run_id = fresh_run.id;
    principal = text "alice";
    worker_id = text "worker-1";
    token = text "0123456789abcdef0123456789abcdef";
    expires_at = noon;
  };
  run = record fresh_run { state = state; revision = 7 };
}

claim-owned : valid_owned_claim (claim_in analyzing) ≡ true
unfolding valid_owned_claim valid_lease Text-discrete accepted_run valid_id valid_worker_id
    valid_token
claim-owned = refl

-- The state counts the transitions.
abbrev evidence_store : EvidenceStore ℕ
evidence_store = record {
  claims = record { advance_claim = λ n l revision change. (n + 1, ok fresh_run) };
  list_artifacts = λ n principal id. (n, ok (samples ∷ result ∷ manifest ∷ []));
  register_artifact = λ n principal a. (n, some context_done);
}

abbrev no_answer : ℕ → Text → Run → AnalysisInput → ℕ × Answer Artifact
no_answer n principal r i =
    (n, refused (record { reason = context_done; is_pending = false; is_failed = false }))

analysis-advance_owned_claim_example :
    analysis evidence_store parse_url (pos 5000000000) (λ n. none) no_answer 0 (claim_in analyzing)
    ≡ (1, ok (pos 0))
unfolding advance_owned_claim
analysis-advance_owned_claim_example =
    analysis-advance_owned_claim evidence_store parse_url (pos 5000000000) (λ n. none) no_answer 0 0
      (claim_in analyzing) (samples ∷ []) (manifest ∷ []) result input claim-owned refl refl
      input-found result-valid

-- A cluster that has the Job of the Run.
abbrev cluster : Provision.World ℕ ℕ
cluster = record {
  store = record { advance_claim = λ n l revision change. (n + 1, ok fresh_run) };
  get_execution = λ n l. (n, ok none);
  bind_execution = λ n l e. (n + 1, none);
  renew_claim = λ n l ttl. (n, ok (claim_in cancelling));
  resolve_job = λ n principal r. (n, ok (some 0));
  ensure_job = λ n id job. (n, err context_done);
  find_job = λ n id job. (n, ok none);
  bound = λ n c. (n, err context_done);
  context_error = λ n. none;
}

abbrev creating : ℕ → Text → ℕ → ℕ × Result Execution
creating n id job = (n + 100, err context_done)

cluster-cancelled : may_create cluster (pos 30000000000) 0 (claim_in cancelling) ≡ false
unfolding may_create
cluster-cancelled = refl

reconcile-ensure_job_example :
    Provision.reconcile
      (λ t. true)
      (record cluster { ensure_job = creating })
      (pos 30000000000)
      0
      (claim_in cancelling)
    ≡ Provision.reconcile (λ t. true) cluster (pos 30000000000) 0 (claim_in cancelling)
reconcile-ensure_job_example =
    reconcile-ensure_job (λ t. true) cluster (pos 30000000000) creating 0 (claim_in cancelling)
      cluster-cancelled

-- From COLLECTING to COMPLETED.
abbrev plain_set : RawArtifactSet
plain_set = record { manifest = manifest; artifacts = samples ∷ [] }

abbrev summary : Artifact
summary =
    artifact (text "5553abcd-0123-4abc-8abc-0123456789ab") (text "s3://evidence/report")
      (text "normalized") json (text "analysis-result/v1")

plain_set-valid : valid_raw_artifact_set parse_url fresh_run.id plain_set ≡ true
unfolding valid_raw_artifact_set valid_raw_manifest_format valid_artifact has Text-discrete
    accepted_run
plain_set-valid = refl

collecting-owned : valid_owned_claim (claim_in collecting) ≡ true
unfolding valid_owned_claim valid_lease Text-discrete accepted_run valid_id valid_worker_id
    valid_token
collecting-owned = refl

plain_set-input :
    analysis_evidence parse_url fresh_run.id (collected_listing plain_set) ≡ some (input, none)
unfolding analysis_evidence add_evidence valid_artifact valid_raw_manifest_format Text-discrete
    accepted_run collected_listing place text_lt
plain_set-input = refl

summary-valid :
    valid_report_artifact parse_url fresh_run.id summary
      (place result (collected_listing plain_set))
    ≡ true
unfolding valid_report_artifact valid_artifact Text-discrete accepted_run collected_listing place
    text_lt
summary-valid = refl

outputs-accepted :
    (i : AnalysisInput)
    → analysis_evidence parse_url fresh_run.id (collected_listing plain_set) ≡ some (i, none)
    → (valid_normalized_output parse_url fresh_run.id result i ≡ true)
      × (valid_report_artifact parse_url fresh_run.id summary
            (place result (collected_listing plain_set))
          ≡ true)
outputs-accepted i h =
    let same : input ≡ i = ap (λ w. w.0) (some-injective _ _ (sym plain_set-input ∙ h)) in
    (
      subst (λ j. valid_normalized_output parse_url fresh_run.id result j ≡ true) same result-valid,
      summary-valid,
    )

attempts-completed_example :
    ((attempts parse_url
        (pos 5000000000)
        (λ s. none)
        (claim_in collecting).lease
        plain_set
        (λ i. result)
        (λ a. summary)
        noon
        (noon + 1)
        (noon + 2)
        (record { run = (claim_in collecting).run; artifacts = [] })).0.run.state
      ≡ completed)
    × ((attempts parse_url
          (pos 5000000000)
          (λ s. none)
          (claim_in collecting).lease
          plain_set
          (λ i. result)
          (λ a. summary)
          noon
          (noon + 1)
          (noon + 2)
          (record { run = (claim_in collecting).run; artifacts = [] })).1
        ≡ ok (pos 0))
unfolding all_of valid_raw_manifest_format Text-discrete
attempts-completed_example =
    attempts-completed parse_url (pos 5000000000) (λ s. none) (claim_in collecting).lease plain_set
      (λ i. result) (λ a. summary) (claim_in collecting).run noon (noon + 1) (noon + 2)
      collecting-owned refl (omega arith) plain_set-valid refl outputs-accepted
