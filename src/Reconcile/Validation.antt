-- ===== src/Reconcile/Validation.antt =====
-- internal/reconcile/validation.go: the preflight of an execution plan.
use perfeng_control_plane.Base.{Bool, false, Option, none, some, ◌*◌, not, if◌then◌else◌}
use perfeng_control_plane.Base.Int.{ℤ}
use perfeng_control_plane.Text.{Text, text}
use perfeng_control_plane.Time.{minute, positive_to}
use perfeng_control_plane.Errors.{Error, Result, ok, err, validation, state_not_handled}
use perfeng_control_plane.Contract.{State, validating, provisioning, invalid}
use perfeng_control_plane.Run.{Run, Change, to_state, validation_failed}
use perfeng_control_plane.Run.Claims.{Claim}
use perfeng_control_plane.Reconcile.Stage.{
  ClaimAdvancer, Reconciler, valid_owned_claim, advance_owned_claim,
}

-- `JobResolver`, whose Job may be nil, and `JobValidator`.
pub record Preflight (S Job : Type 0) : Type 0 where
  pub resolve_job : S → Text → Run → S × Result (Option Job)
  pub validate_job : Text → Job → Option Error

unfoldable pub valid_attempt_timeout : ℤ → Bool
valid_attempt_timeout timeout = positive_to (5 * minute) timeout

abbrev pub rejection : Text → Change
rejection message = record {
  state = invalid;
  failure = some (record { code = validation_failed; message = message });
  tool_exit_code = none;
}

abbrev pub is_validating : State → Bool
is_validating validating = Bool.true
is_validating _ = false

module _ {S : Type 0} (store : ClaimAdvancer S) where
  unfoldable pub reject : S → Claim → Text → S × Result ℤ
  reject s c message = advance_owned_claim store s c (rejection message)

  unfoldable pub resolution_error : S → Claim → Error → S × Result ℤ
  resolution_error s c Error.validation = reject s c (text "approved execution plan is invalid")
  resolution_error s c Error.forbidden = reject s c (text "execution resources are not authorized")
  resolution_error s c e = (s, err e)

  abbrev pub validated : S → Claim → Option Error → S × Result ℤ
  validated s c (some e) = resolution_error s c e
  validated s c none = advance_owned_claim store s c (to_state provisioning)

  abbrev pub resolved :
      {Job : Type 0} → Preflight S Job → S → Claim → Result (Option Job) → S × Result ℤ
  resolved preflight s c (err e) = resolution_error s c e
  resolved preflight s c (ok none) = reject s c (text "approved execution plan is invalid")
  resolved preflight s c (ok (some job)) = validated s c (preflight.validate_job c.run.id job)

  unfoldable pub reconcile : {Job : Type 0} → Preflight S Job → Reconciler S
  reconcile preflight s c =
      if not (valid_owned_claim c)
      then (s, err validation)
      else if not (is_validating c.run.state)
      then (s, err state_not_handled)
      else let answer = preflight.resolve_job s c.lease.principal c.run in
        resolved preflight answer.0 c answer.1
