-- ===== src/Reconcile/Provision.antt =====
-- internal/reconcile/provisioning.go: dispatching the Job of a Run, and recovering a cancellation
-- that may have lost its binding.
use perfeng_control_plane.Base.{
  Bool, true, false, Option, none, some, not, ◌==◌, ◌&&◌, ◌||◌, if◌then◌else◌,
}
use perfeng_control_plane.Base.Int.{ℤ, pos}
use perfeng_control_plane.Text.{Text, text_eq}
use perfeng_control_plane.Errors.{Error, Result, ok, err, validation, state_not_handled}
use perfeng_control_plane.Contract.{State, provisioning, cancelling, aborted}
use perfeng_control_plane.Run.{Run, to_state}
use perfeng_control_plane.Run.Claims.{Lease, Claim}
use perfeng_control_plane.Reconcile.Stage.{
  ClaimAdvancer, Reconciler, valid_owned_claim, advance_owned_claim,
}
use perfeng_control_plane.Reconcile.Bound.{Execution, valid_execution}

-- The store, the resolver, the dispatcher, the bound stage and the attempt's context. The Job of the
-- resolver may be nil, and a dispatch is its execution.
pub record World (S Job : Type 0) : Type 0 where
  pub store : ClaimAdvancer S
  pub get_execution : S → Lease → S × Result (Option Execution)
  pub bind_execution : S → Lease → Execution → S × Option Error
  pub renew_claim : S → Lease → ℤ → S × Result Claim
  pub resolve_job : S → Text → Run → S × Result (Option Job)
  pub ensure_job : S → Text → Job → S × Result Execution
  pub find_job : S → Text → Job → S × Result (Option Execution)
  pub bound : Reconciler S
  pub context_error : S → Option Error

abbrev pub is_cancelling : State → Bool
is_cancelling cancelling = true
is_cancelling _ = false

abbrev pub is_provisioning : State → Bool
is_provisioning provisioning = true
is_provisioning _ = false

abbrev ended : {S : Type 0} → S × Option Error → S × Result ℤ
ended (s, none) = (s, ok (pos 0))
ended (s, some e) = (s, err e)

module _ {S Job : Type 0} (dns_label : Text → Bool) (w : World S Job) (ttl : ℤ) where
  abbrev owns : Claim → Execution → Bool
  owns c e = valid_execution dns_label e && text_eq e.run_id c.run.id

  abbrev pub bind : S → Claim → Execution → S × Result ℤ
  bind s c e = if not (owns c e) then (s, err validation) else ended (w.bind_execution s c.lease e)

  -- The claim is still the one of the attempt.
  abbrev pub unchanged : (State → Bool) → Claim → Claim → Bool
  unchanged in_state c current =
      in_state current.run.state && current.run.revision == c.run.revision

  abbrev pub recovered : Claim → Claim → S × Result (Option Execution) → S × Result ℤ
  recovered c current (s, err e) = (s, err e)
  recovered c current (s, ok none) = advance_owned_claim w.store s current (to_state aborted)
  recovered c current (s, ok (some e)) = bind s c e

  abbrev pub recover_renewed : Claim → Job → S × Result Claim → S × Result ℤ
  recover_renewed c job (s, err e) = (s, err e)
  recover_renewed c job (s, ok current) =
      if not (unchanged is_cancelling c current)
      then (s, ok (pos 0))
      else recovered c current (w.find_job s c.run.id job)

  abbrev pub recover_resolved : Claim → S × Result (Option Job) → S × Result ℤ
  recover_resolved c (s, err e) = (s, err e)
  recover_resolved c (s, ok none) = (s, err validation)
  recover_resolved c (s, ok (some job)) = recover_renewed c job (w.renew_claim s c.lease ttl)

  unfoldable pub recover_cancellation : S → Claim → S × Result ℤ
  recover_cancellation s c = recover_resolved c (w.resolve_job s c.lease.principal c.run)

  abbrev pub dispatched : Claim → S × Result Execution → S × Result ℤ
  dispatched c (s, err e) = (s, err e)
  dispatched c (s, ok e) = bind s c e

  abbrev pub dispatch_live : S → Claim → Job → Option Error → S × Result ℤ
  dispatch_live s c job (some e) = (s, err e)
  dispatch_live s c job none = dispatched c (w.ensure_job s c.run.id job)

  abbrev pub dispatch_renewed : Claim → Job → S × Result Claim → S × Result ℤ
  dispatch_renewed c job (s, err e) = (s, err e)
  dispatch_renewed c job (s, ok current) =
      if not (unchanged is_provisioning c current)
      then (s, ok (pos 0))
      else dispatch_live s c job (w.context_error s)

  abbrev pub dispatch_resolved : Claim → S × Result (Option Job) → S × Result ℤ
  dispatch_resolved c (s, err e) = (s, err e)
  dispatch_resolved c (s, ok none) = (s, err validation)
  dispatch_resolved c (s, ok (some job)) = dispatch_renewed c job (w.renew_claim s c.lease ttl)

  unfoldable pub dispatch_and_bind : S → Claim → S × Result ℤ
  dispatch_and_bind s c = dispatch_resolved c (w.resolve_job s c.lease.principal c.run)

  abbrev pub observed : Claim → S × Result (Option Execution) → S × Result ℤ
  observed c (s, err e) = (s, err e)
  observed c (s, ok (some e)) = if not (owns c e) then (s, err validation) else w.bound s c
  observed c (s, ok none) =
      if is_cancelling c.run.state then recover_cancellation s c else dispatch_and_bind s c

  unfoldable pub reconcile : Reconciler S
  reconcile s c =
      if not (valid_owned_claim c)
      then (s, err validation)
      else if not (is_provisioning c.run.state || is_cancelling c.run.state)
      then (s, err state_not_handled)
      else observed c (w.get_execution s c.lease)
