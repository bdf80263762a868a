-- ===== src/Tests/Renewals.antt =====
-- The renewal of a native lease (internal/postgres/native_renewals.go).
use perfeng_control_plane.Base.{◌+◌, ◌≡◌, refl, [], ◌∷◌, none, true}
unfoldable use perfeng_control_plane.Base.Maps.{lookup, insert}
unfoldable use perfeng_control_plane.Text.{Text-discrete}
use perfeng_control_plane.Text.{Text, text}
use perfeng_control_plane.Errors.{ok}
use perfeng_control_plane.Contract.{cancelling, terminal}
use perfeng_control_plane.Identity.{valid_lease_ttl}
use perfeng_control_plane.Run.{Run, native_linux}
use perfeng_control_plane.Run.History.{accepted_run}
use perfeng_control_plane.Native.{
  Renewal, preparing, valid_phase, valid_renewal, valid_lease_identifier, valid_lease_policy,
  valid_cancellation_grace,
}
use perfeng_control_plane.Native.Timing.{response}
use perfeng_control_plane.Time.{sub_time}
use perfeng_control_plane.Postgres.Tables.{NativeRow, Database, member, transact}
use perfeng_control_plane.Postgres.NativeRenewal.{
  Request, Scope, visible, valid_native_worker, valid_lease_capability, valid_renewal_request,
  native_lease_location, lock_native_renewal_scope, matching_authority, current_native_lease,
  next_run, renew_scope, renew_native_lease, written,
}
use perfeng_control_plane.Postgres.NativeOwner.{Fenced, Extended, renew_native_lease-Fenced}
use perfeng_control_plane.Tests.Samples.{noon, hash, fresh_run}
use perfeng_control_plane.Tests.Leases.{calm}

abbrev pub lease_id : Text
lease_id = text "0123abcd-0123-4abc-8abc-0123456789ab"

abbrev pub attempt_id : Text
attempt_id = text "fedcba98-0123-4abc-8abc-0123456789ab"

abbrev pub stopping : Run
stopping = record fresh_run { state = cancelling; revision = 5 }

-- The digest stands in for SHA-256.
abbrev pub digest : Text → Text
digest capability = text "digest"

abbrev pub native : NativeRow
native = record {
  lease_id = lease_id;
  attempt_id = attempt_id;
  worker_id = text "linux-1";
  capability_digest = text "digest";
  issued_at = noon;
  expires_at = noon + 30000000000;
  renew_after_seconds = 10;
  released_at = none;
  release_reason = none;
  release_message = none;
}

abbrev pub stored : Database
stored = record {
  runs =
      (
        fresh_run.id,
        record { principal = text "alice"; target = native_linux; snapshot = stopping },
      )
      ∷ [];
  bindings = [];
  leases = [];
  native_leases = (fresh_run.id, native) ∷ [];
  held = [];
  present = text "linux-1" ∷ [];
}

abbrev pub request : Request
request = record {
  lease_id = lease_id;
  attempt_id = attempt_id;
  expected_run_revision = 5;
  phase = preparing;
  capability = hash;
}

abbrev scope : Scope
scope = record { run_id = fresh_run.id; current = stopping; stored = native }

abbrev renewal : Renewal
renewal = response lease_id attempt_id 5 (noon + 7) 30000000000 10000000000 10 true

renewed :
    renew_native_lease digest calm stored
      (text "linux-1")
      request
      30000000000
      10000000000
      (noon + 7)
    ≡ (written stored scope stopping (noon + 7 + 30000000000), ok renewal)
unfolding renew_native_lease renew_scope valid_native_worker valid_renewal_request
    valid_lease_capability visible valid_phase valid_lease_identifier valid_lease_ttl
    valid_cancellation_grace valid_lease_policy valid_renewal lock_native_renewal_scope
    native_lease_location member matching_authority current_native_lease next_run transact lookup
    insert Text-discrete terminal accepted_run sub_time
renewed = refl

renew_native_lease-Fenced_example :
    (s : Scope) × Fenced digest stored (text "linux-1") request (noon + 7) s
    × Extended digest stored
        (written stored scope stopping (noon + 7 + 30000000000))
        (text "linux-1")
        request
        30000000000
        10000000000
        (noon + 7)
        s
        renewal
renew_native_lease-Fenced_example =
    renew_native_lease-Fenced digest calm stored _ (text "linux-1") request 30000000000 10000000000
      (noon + 7) renewal renewed
