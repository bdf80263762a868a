-- ===== src/Reconcile/Stage.antt =====
-- What the stages share (internal/reconcile/validation.go, internal/worker/worker.go), and the router
-- of the states to them (internal/reconcile/router.go).
use perfeng_control_plane.Base.{ℕ, Bool, ◌&&◌, not, leb, if◌then◌else◌}
use perfeng_control_plane.Base.Int.{ℤ, pos}
use perfeng_control_plane.Text.{text_eq}
use perfeng_control_plane.Errors.{Result, ok, err, validation, stale_revision, state_not_handled}
use perfeng_control_plane.Contract.{
  State, created, validating, provisioning, warming_up, running, collecting, analyzing, reporting,
  cancelling,
}
use perfeng_control_plane.Run.{Run, Change, to_state}
use perfeng_control_plane.Run.Claims.{Lease, Claim, valid_lease}

-- The store as a stage sees it.
pub record ClaimAdvancer (S : Type 0) : Type 0 where
  pub advance_claim : S → Lease → ℕ → Change → S × Result Run

-- An attempt, and the delay that it asks for.
abbrev pub Reconciler : Type 0 → Type 0
Reconciler S = S → Claim → S × Result ℤ

unfoldable pub valid_owned_claim : Claim → Bool
valid_owned_claim c = valid_lease c.lease && text_eq c.lease.run_id c.run.id && leb 1 c.run.revision

-- A stale revision ends the attempt without an error.
abbrev settled : Result Run → Result ℤ
settled (ok r) = ok (pos 0)
settled (err stale_revision) = ok (pos 0)
settled (err e) = err e

unfoldable pub advance_owned_claim :
    {S : Type 0} → ClaimAdvancer S → S → Claim → Change → S × Result ℤ
advance_owned_claim store s c change =
    let answer = store.advance_claim s c.lease c.run.revision change in (answer.0, settled answer.1)

pub record Router (S : Type 0) : Type 0 where
  pub store : ClaimAdvancer S
  pub validating_stage : Reconciler S
  pub provisioning_stage : Reconciler S
  pub bound_stage : Reconciler S
  pub collection_stage : Reconciler S
  pub analysis_stage : Reconciler S
  pub reporting_stage : Reconciler S

unfoldable pub route : {S : Type 0} → Router S → State → S → Claim → S × Result ℤ
route router created s c = advance_owned_claim router.store s c (to_state validating)
route router validating s c = router.validating_stage s c
route router provisioning s c = router.provisioning_stage s c
route router cancelling s c = router.provisioning_stage s c
route router warming_up s c = router.bound_stage s c
route router running s c = router.bound_stage s c
route router collecting s c = router.collection_stage s c
route router analyzing s c = router.analysis_stage s c
route router reporting s c = router.reporting_stage s c
route router _ s c = (s, err state_not_handled)

unfoldable pub reconcile : {S : Type 0} → Router S → Reconciler S
reconcile router s c =
    if not (valid_owned_claim c) then (s, err validation) else route router c.run.state s c
