-- ===== src/Reconcile/Durable.antt =====
-- An attempt at the analysis of a Run whose normalized result is registered already
-- (internal/reconcile/analysis.go).
use perfeng_control_plane.Base.{
  Bool, true, List, ◌∷◌, ◌++◌, Option, none, some, not, if◌then◌else◌, ◌≡◌, ◌∙◌, ap, arith,
}
use perfeng_control_plane.Base.Int.{ℤ}
use perfeng_control_plane.Text.{Text}
use perfeng_control_plane.Errors.{Error, ok}
use perfeng_control_plane.Contract.{analyzing, reporting}
use perfeng_control_plane.Run.{Run, to_state}
use perfeng_control_plane.Run.Artifact.{Artifact, Url}
use perfeng_control_plane.Run.Claims.{Claim}
use perfeng_control_plane.Reconcile.Stage.{valid_owned_claim, advance_owned_claim}
use perfeng_control_plane.Reconcile.Evidence.{
  AnalysisInput, valid_normalized_output, analysis_evidence,
}
use perfeng_control_plane.Reconcile.Recovered.{analysis_evidence-valid_normalized_output}
use perfeng_control_plane.Reconcile.Attempts.{
  EvidenceStore, Answer, is_analyzing, analyzed, listed_analysis, analysis,
}

pub in_turn :
    {A : Type 0} (owned stage : Bool) (x y z : A)
    → owned ≡ true
    → stage ≡ true
    → (if not owned then x else if not stage then y else z) ≡ z
in_turn owned stage x y z h k = ground (arith, h, k)

module _ {S : Type 0} (store : EvidenceStore S) (parse_url : Text → Option Url) (retry_after : ℤ)
    (context_error : S → Option Error)
    (normalize : S → Text → Run → AnalysisInput → S × Answer Artifact) where
  -- The claim is valid and its Run ANALYZING. The evidence of the listing without one artifact is complete but for a normalized result, and the
  -- artifact is one that the stage accepts for it. Then the attempt on the whole listing, in whichever
  -- place the artifact stands, is the transition to REPORTING and nothing else.
  pub analysis-advance_owned_claim :
      (s t : S) (c : Claim) (before after : List Artifact) (a : Artifact) (input : AnalysisInput)
      → valid_owned_claim c ≡ true
      → c.run.state ≡ analyzing
      → store.list_artifacts s c.lease.principal c.run.id ≡ (t, ok (before ++ (a ∷ after)))
      → analysis_evidence parse_url c.run.id (before ++ after) ≡ some (input, none)
      → valid_normalized_output parse_url c.run.id a input ≡ true
      → analysis store parse_url retry_after context_error normalize s c
        ≡ advance_owned_claim store.claims t c (to_state reporting)
  unfolding analysis
  analysis-advance_owned_claim s t c before after a input owned state listed evidence fits =
      in_turn (valid_owned_claim c) (is_analyzing c.run.state) _ _ _ owned (ap is_analyzing state)
      ∙ ap (listed_analysis store parse_url retry_after context_error normalize c) listed
      ∙ ap (analyzed store parse_url retry_after context_error normalize t c) (
          analysis_evidence-valid_normalized_output parse_url c.run.id before after a input evidence
            fits)
