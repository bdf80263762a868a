-- ===== src/Reconcile/Completes.antt =====
-- The way of a Run from COLLECTING to COMPLETED (internal/reconcile/collection.go, analysis.go,
-- reporting.go).
use perfeng_control_plane.Base.{
  ℕ, ◌<◌, Bool, true, false, Option, none, some, not, ◌≡◌, refl, ◌∙◌, ap, arith, if◌then◌else◌,
}
use perfeng_control_plane.Base.Int.{ℤ, pos}
use perfeng_control_plane.Text.{Text}
use perfeng_control_plane.Errors.{Error, ok}
use perfeng_control_plane.Contract.{collecting, analyzing, reporting, completed, can_transition}
use perfeng_control_plane.Run.{max_run_revision, bad_exit, bad_failure, requires_failure, to_state}
use perfeng_control_plane.Run.Artifact.{Artifact, Url}
use perfeng_control_plane.Run.Claims.{Lease}
use perfeng_control_plane.Memory.Artifacts.{place}
use perfeng_control_plane.Reconcile.Allowed.{Allowed}
use perfeng_control_plane.Reconcile.Stage.{valid_owned_claim}
use perfeng_control_plane.Reconcile.Evidence.{
  RawArtifactSet, AnalysisInput, valid_raw_artifact_set, valid_normalized_output, analysis_evidence,
  valid_report_artifact, reporting_evidence,
}
use perfeng_control_plane.Reconcile.Attempts.{
  done, is_collecting, collection, is_analyzing, analyzed, analysis, is_reporting, with_evidence,
  reporting_attempt,
}
use perfeng_control_plane.Reconcile.Durable.{in_turn}
use perfeng_control_plane.Reconcile.Shelf.{
  Shelf, shelf, claim, then_moved, advance-shelf, placed, register_each-shelf,
}

collecting-Allowed : Allowed collecting (to_state analyzing)
unfolding can_transition bad_exit bad_failure requires_failure
collecting-Allowed = (refl, refl, refl, λ h. absurd (ground arith))

analyzing-Allowed : Allowed analyzing (to_state reporting)
unfolding can_transition bad_exit bad_failure requires_failure
analyzing-Allowed = (refl, refl, refl, λ h. absurd (ground arith))

reporting-Allowed : Allowed reporting (to_state completed)
unfolding can_transition bad_exit bad_failure requires_failure
reporting-Allowed = (refl, refl, refl, λ h. absurd (ground arith))

taken : {A : Type 0} (b : Bool) (x y : A) → b ≡ true → (if not b then x else y) ≡ y
taken true x y h = refl
taken false x y h = absurd (ground (arith, h))

module _ (parse_url : Text → Option Url) (retry_after : ℤ) (context_error : Shelf → Option Error)
    (lease : Lease) (now : ℕ) where
  pub collection-shelf :
      (s : Shelf) (set : RawArtifactSet)
      → valid_owned_claim (claim lease s.run) ≡ true
      → s.run.state ≡ collecting
      → s.run.revision < max_run_revision
      → valid_raw_artifact_set parse_url s.run.id set ≡ true
      → collection
          (shelf now)
          parse_url
          retry_after
          (λ t principal r. (t, done set))
          s
          (claim lease s.run)
        ≡ (
          record (then_moved s analyzing now) {
            artifacts = place set.manifest (placed set.artifacts s.artifacts);
          },
          ok (pos 0),
        )
  unfolding collection
  collection-shelf s set owned state room valid =
      in_turn (valid_owned_claim (claim lease s.run)) (is_collecting s.run.state) _ _ _ owned
        (ap is_collecting state)
      ∙ taken (valid_raw_artifact_set parse_url s.run.id set) _ _ valid
      ∙ register_each-shelf parse_url retry_after now s lease.principal set.artifacts _
      ∙ advance-shelf s lease collecting analyzing now
          (place set.manifest (placed set.artifacts s.artifacts)) state collecting-Allowed room

  pub analysis-shelf :
      (normalizer : AnalysisInput → Artifact) (s : Shelf) (input : AnalysisInput)
      → valid_owned_claim (claim lease s.run) ≡ true
      → s.run.state ≡ analyzing
      → s.run.revision < max_run_revision
      → analysis_evidence parse_url s.run.id s.artifacts ≡ some (input, none)
      → valid_normalized_output parse_url s.run.id (normalizer input) input ≡ true
      → analysis
          (shelf now)
          parse_url
          retry_after
          context_error
          (λ t principal r i. (t, done (normalizer i)))
          s
          (claim lease s.run)
        ≡ (
          record (then_moved s reporting now) { artifacts = place (normalizer input) s.artifacts },
          ok (pos 0),
        )
  unfolding analysis
  analysis-shelf normalizer s input owned state room evidence fits =
      in_turn (valid_owned_claim (claim lease s.run)) (is_analyzing s.run.state) _ _ _ owned
        (ap is_analyzing state)
      ∙ ap
          (analyzed (shelf now) parse_url retry_after context_error
            (λ t principal r i. (t, done (normalizer i))) s (claim lease s.run))
          evidence
      ∙ taken (valid_normalized_output parse_url s.run.id (normalizer input) input) _ _ fits
      ∙ advance-shelf s lease analyzing reporting now (place (normalizer input) s.artifacts) state
          analyzing-Allowed room

  pub reporting-shelf :
      (reporter : Artifact → Artifact) (s : Shelf) (candidate : Artifact)
      → valid_owned_claim (claim lease s.run) ≡ true
      → s.run.state ≡ reporting
      → s.run.revision < max_run_revision
      → reporting_evidence parse_url s.run.id s.artifacts ≡ some (candidate, none)
      → valid_report_artifact parse_url s.run.id (reporter candidate) s.artifacts ≡ true
      → reporting_attempt
          (shelf now)
          parse_url
          retry_after
          context_error
          (λ t principal r a. (t, done (reporter a)))
          none
          s
          (claim lease s.run)
        ≡ (
          record (then_moved s completed now) {
            artifacts = place (reporter candidate) s.artifacts;
          },
          ok (pos 0),
        )
  unfolding reporting_attempt
  reporting-shelf reporter s candidate owned state room evidence fits =
      in_turn (valid_owned_claim (claim lease s.run)) (is_reporting s.run.state) _ _ _ owned
        (ap is_reporting state)
      ∙ ap
          (with_evidence (shelf now) parse_url retry_after context_error
            (λ t principal r a. (t, done (reporter a))) none s (claim lease s.run) s.artifacts)
          evidence
      ∙ taken (valid_report_artifact parse_url s.run.id (reporter candidate) s.artifacts) _ _ fits
      ∙ advance-shelf s lease reporting completed now (place (reporter candidate) s.artifacts) state
          reporting-Allowed room
