-- ===== src/Reconcile/Attempts.antt =====
-- The stages that collect, normalize and report the evidence of a Run
-- (internal/reconcile/collection.go, analysis.go, reporting.go).
use perfeng_control_plane.Base.{
  Bool, true, false, List, [], ◌∷◌, Option, none, some, not, ◌&&◌, if◌then◌else◌,
}
use perfeng_control_plane.Base.Int.{ℤ}
use perfeng_control_plane.Text.{Text, text}
use perfeng_control_plane.Errors.{
  Error, Result, ok, err, validation, state_not_handled, context_done, lease_lost, unavailable,
  artifact_conflict,
}
use perfeng_control_plane.Contract.{
  State, collecting, analyzing, reporting, completed, test_failure, infrastructure_failure,
}
use perfeng_control_plane.Identity.{valid_retry_delay}
use perfeng_control_plane.Run.{Run, Change, FailureCode, to_state, tool_error, analysis_error}
use perfeng_control_plane.Run.Artifact.{Artifact, Url}
use perfeng_control_plane.Run.Claims.{Claim}
use perfeng_control_plane.Reconcile.Stage.{
  ClaimAdvancer, Reconciler, valid_owned_claim, advance_owned_claim,
}
use perfeng_control_plane.Reconcile.Bound.{positive}
use perfeng_control_plane.Reconcile.Validation.{valid_attempt_timeout}
use perfeng_control_plane.Reconcile.Evidence.{
  RawArtifactSet, AnalysisInput, valid_raw_artifact_set, valid_normalized_output, analysis_evidence,
  valid_report_artifact, reporting_evidence,
}

-- `CollectionConfig`, `AnalysisConfig` and `ReportingConfig`.
pub record Config : Type 0 where
  pub attempt_timeout : ℤ
  pub retry_after : ℤ

unfoldable pub valid_config : Config → Bool
valid_config config =
    valid_attempt_timeout config.attempt_timeout
    && positive config.retry_after
    && valid_retry_delay config.retry_after

-- `AnalysisStore` and `ReportingStore`; `CollectionStore` has no listing.
pub record EvidenceStore (S : Type 0) : Type 0 where
  pub claims : ClaimAdvancer S
  pub list_artifacts : S → Text → Text → S × Result (List Artifact)
  pub register_artifact : S → Text → Artifact → S × Option Error

-- An error of an executor, which may wrap the sentinel of work that is still active and the one of a
-- definitive failure.
pub record Refusal : Type 0 where
  pub reason : Error
  pub is_pending : Bool
  pub is_failed : Bool

pub data Answer (A : Type 0) : Type 0 where
  refused : Refusal → Answer A
  done : A → Answer A

abbrev failure_change : State → FailureCode → Text → Change
failure_change state code message = record {
  state = state;
  failure = some (record { code = code; message = message });
  tool_exit_code = none;
}

-- The errors that leave the attempt as they are.
abbrev operational : Error → Bool
operational context_done = true
operational lease_lost = true
operational unavailable = true
operational artifact_conflict = true
operational _ = false

abbrev then_store : {S : Type 0} → S × Option Error → (S → S × Result ℤ) → S × Result ℤ
then_store (s, some e) rest = (s, err e)
then_store (s, none) rest = rest s

abbrev pub is_collecting : State → Bool
is_collecting collecting = true
is_collecting _ = false

abbrev pub is_analyzing : State → Bool
is_analyzing analyzing = true
is_analyzing _ = false

abbrev pub is_reporting : State → Bool
is_reporting reporting = true
is_reporting _ = false

module _ {S : Type 0} (store : EvidenceStore S) (parse_url : Text → Option Url)
    (retry_after : ℤ) where
  -- Both sentinels at once are not an answer.
  abbrev pub collection_error : S → Claim → Refusal → S × Result ℤ
  collection_error s c refusal =
      if refusal.is_pending && refusal.is_failed
      then (s, err validation)
      else if refusal.is_pending
      then (s, ok retry_after)
      else if refusal.is_failed
      then advance_owned_claim store.claims s c (
          failure_change test_failure tool_error
            (text "execution did not produce valid raw artifacts"))
      else (s, err refusal.reason)

  unfoldable pub register_each : S → Text → List Artifact → (S → S × Result ℤ) → S × Result ℤ
  register_each s principal [] rest = rest s
  register_each s principal (a ∷ later) rest =
      then_store (store.register_artifact s principal a) λ t. register_each t principal later rest

  abbrev pub collected : Claim → S × Answer RawArtifactSet → S × Result ℤ
  collected c (s, refused refusal) = collection_error s c refusal
  collected c (s, done set) =
      if not (valid_raw_artifact_set parse_url c.run.id set)
      then (s, err validation)
      else register_each s c.lease.principal set.artifacts λ t.
        then_store (store.register_artifact t c.lease.principal set.manifest)
          λ u. advance_owned_claim store.claims u c (to_state analyzing)

  -- `collect` is the collector of the raw artifacts.
  unfoldable pub collection : (S → Text → Run → S × Answer RawArtifactSet) → Reconciler S
  unfolding register_each
  collection collect s c =
      if not (valid_owned_claim c)
      then (s, err validation)
      else if not (is_collecting c.run.state)
      then (s, err state_not_handled)
      else collected c (collect s c.lease.principal c.run)

  -- `context_error` is the error of the attempt's context.
  module _ (context_error : S → Option Error) where
    abbrev refused_live : S → Claim → Text → Refusal → Option Error → S × Result ℤ
    refused_live s c message refusal (some e) = (s, err e)
    refused_live s c message refusal none =
        if operational refusal.reason
        then (s, err refusal.reason)
        else if refusal.is_pending && refusal.is_failed
        then (s, err validation)
        else if refusal.is_pending
        then (s, ok retry_after)
        else if not refusal.is_failed
        then (s, err refusal.reason)
        else advance_owned_claim store.claims s c
            (failure_change infrastructure_failure analysis_error message)

    unfoldable pub execution_error : S → Claim → Text → Refusal → S × Result ℤ
    execution_error s c message refusal = refused_live s c message refusal (context_error s)

    abbrev pub normalized : Claim → AnalysisInput → S × Answer Artifact → S × Result ℤ
    normalized c input (s, refused refusal) =
        execution_error s c (text "normalization failed") refusal
    normalized c input (s, done output) =
        if not (valid_normalized_output parse_url c.run.id output input)
        then (s, err validation)
        else then_store (store.register_artifact s c.lease.principal output)
            λ t. advance_owned_claim store.claims t c (to_state reporting)

    module _ (normalize : S → Text → Run → AnalysisInput → S × Answer Artifact) where
      abbrev pub analyzed : S → Claim → Option (AnalysisInput × Option Artifact) → S × Result ℤ
      analyzed s c none = (s, err validation)
      analyzed s c (some (input, some a)) =
          advance_owned_claim store.claims s c (to_state reporting)
      analyzed s c (some (input, none)) =
          normalized c input (normalize s c.lease.principal c.run input)

      abbrev pub listed_analysis : Claim → S × Result (List Artifact) → S × Result ℤ
      listed_analysis c (s, err e) = (s, err e)
      listed_analysis c (s, ok artifacts) =
          analyzed s c (analysis_evidence parse_url c.run.id artifacts)

      unfoldable pub analysis : Reconciler S
      unfolding execution_error
      analysis s c =
          if not (valid_owned_claim c)
          then (s, err validation)
          else if not (is_analyzing c.run.state)
          then (s, err state_not_handled)
          else listed_analysis c (store.list_artifacts s c.lease.principal c.run.id)

    -- `report` is the report executor, and `publisher` the publisher, if the stage has one.
    module _ (report : S → Text → Run → Artifact → S × Answer Artifact)
        (publisher : Option (S → Text → Run → Artifact → Artifact → S × Option Error)) where
      abbrev complete : S → Claim → S × Result ℤ
      complete s c = advance_owned_claim store.claims s c (to_state completed)

      abbrev pub live : S → Option Error → (S → S × Result ℤ) → S × Result ℤ
      live s (some e) rest = (s, err e)
      live s none rest = rest s

      abbrev pub publish :
          Option (S → Text → Run → Artifact → Artifact → S × Option Error)
          → S
          → Claim
          → Artifact
          → Artifact
          → S × Result ℤ
      publish none s c candidate output = complete s c
      publish (some p) s c candidate output = live s (context_error s) λ t.
          then_store (p t c.lease.principal c.run candidate output)
            λ u. live u (context_error u) λ v. complete v c

      abbrev pub reported : Claim → List Artifact → Artifact → S × Answer Artifact → S × Result ℤ
      reported c artifacts candidate (s, refused refusal) =
          execution_error s c (text "analysis report generation failed") refusal
      reported c artifacts candidate (s, done output) =
          if not (valid_report_artifact parse_url c.run.id output artifacts)
          then (s, err validation)
          else then_store (store.register_artifact s c.lease.principal output)
              λ t. publish publisher t c candidate output

      abbrev pub with_evidence :
          S → Claim → List Artifact → Option (Artifact × Option Artifact) → S × Result ℤ
      with_evidence s c artifacts none = (s, err validation)
      with_evidence s c artifacts (some (candidate, some output)) =
          publish publisher s c candidate output
      with_evidence s c artifacts (some (candidate, none)) =
          reported c artifacts candidate (report s c.lease.principal c.run candidate)

      abbrev pub listed_report : Claim → S × Result (List Artifact) → S × Result ℤ
      listed_report c (s, err e) = (s, err e)
      listed_report c (s, ok artifacts) =
          with_evidence s c artifacts (reporting_evidence parse_url c.run.id artifacts)

      unfoldable pub reporting_attempt : Reconciler S
      unfolding execution_error
      reporting_attempt s c =
          if not (valid_owned_claim c)
          then (s, err validation)
          else if not (is_reporting c.run.state)
          then (s, err state_not_handled)
          else listed_report c (store.list_artifacts s c.lease.principal c.run.id)
