-- ===== src/Run/Claims.antt =====
-- internal/run/claims.go: leases and claims of the reconciliation workers.
use perfeng_control_plane.Base.{ℕ, Bool, ◌&&◌, not, leb}
use perfeng_control_plane.Base.Int.{ℤ, pos, negsuc}
use perfeng_control_plane.Text.{Text, text_eq}
use perfeng_control_plane.Base.{[]}
use perfeng_control_plane.Contract.{valid_id}
use perfeng_control_plane.Identity.{valid_worker_id, valid_token, valid_lease_ttl}
use perfeng_control_plane.Run.{Run}

pub record Lease : Type 0 where
  pub run_id : Text
  pub principal : Text
  pub worker_id : Text
  pub token : Text
  pub expires_at : ℕ

unfoldable pub valid_lease : Lease → Bool
valid_lease l =
    valid_id l.run_id
    && not (text_eq l.principal [])
    && valid_worker_id l.worker_id
    && valid_token l.token

pub record Claim : Type 0 where
  pub lease : Lease
  pub run : Run

-- `limit >= 1 && limit <= 100`.
abbrev valid_limit : ℤ → Bool
valid_limit (pos n) = leb 1 n && leb n 100
valid_limit (negsuc n) = Bool.false

unfoldable pub valid_claim_options : Text → ℤ → ℤ → Bool
valid_claim_options worker_id limit ttl =
    valid_worker_id worker_id && valid_limit limit && valid_lease_ttl ttl
