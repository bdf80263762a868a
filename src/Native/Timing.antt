-- ===== src/Native/Timing.antt =====
-- The timing of a renewal fits the checks of the response.
use perfeng_control_plane.Base.{
  ℕ, ◌+◌, ◌*◌, ◌≤◌, ◌<◌, ◌≡◌, Bool, true, false, none, some, arith, if◌then◌else◌,
}
use perfeng_control_plane.Base.Int.{pos}
use perfeng_control_plane.Text.{Text}
use perfeng_control_plane.Time.{second, sub_time}
use perfeng_control_plane.Native.{
  Renewal, valid_renewal, valid_lease_identifier, valid_lease_policy, valid_cancellation_grace,
}

sub_time-add : (now d : ℕ) → sub_time (now + d) now ≡ pos d
unfolding sub_time
sub_time-add now d = ground arith

-- The response that the store builds (internal/postgres/native_renewals.go).
abbrev pub response : Text → Text → ℕ → ℕ → ℕ → ℕ → ℕ → Bool → Renewal
response lease_id attempt_id revision now ttl grace renew_after_seconds cancelling = record {
  lease_id = lease_id;
  attempt_id = attempt_id;
  run_revision = revision;
  server_time = now;
  expires_at = now + ttl;
  renew_after_seconds = renew_after_seconds;
  cancellation_requested = cancelling;
  stop_by = if cancelling then some (now + grace) else none;
}

grace-bounds :
    (grace ttl : ℕ)
    → valid_cancellation_grace (pos grace) (pos ttl) ≡ true
    → (1 ≤ grace) × (grace ≤ ttl)
unfolding valid_cancellation_grace
grace-bounds grace ttl h = ground arith

-- With a valid grace and lease policy, and at a time after the zero time, the response of a renewal
-- passes its own check, whether a cancellation was requested or not.
pub valid_renewal-response :
    (lease_id attempt_id : Text) (revision now ttl grace renew_after_seconds : ℕ)
    (cancelling : Bool)
    → valid_lease_identifier lease_id ≡ true
    → valid_lease_identifier attempt_id ≡ true
    → 1 ≤ revision
    → 0 < now
    → valid_cancellation_grace (pos grace) (pos ttl) ≡ true
    → valid_lease_policy (pos ttl) (pos (renew_after_seconds * second)) ≡ true
    → valid_renewal
        (response lease_id attempt_id revision now ttl grace renew_after_seconds cancelling)
      ≡ true
unfolding valid_renewal
valid_renewal-response lease_id attempt_id revision now ttl grace n true l a one later g p =
    let (lo, hi) = grace-bounds grace ttl g in
    rw (l, a, sub_time-add now ttl, p) (ground (arith, lo, hi))
valid_renewal-response lease_id attempt_id revision now ttl grace n false l a one later g p =
    rw (l, a, sub_time-add now ttl, p) (ground arith)
