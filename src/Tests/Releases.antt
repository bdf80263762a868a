-- ===== src/Tests/Releases.antt =====
-- The release of a native lease (internal/postgres/native_releases.go), and a transaction that fails.
use perfeng_control_plane.Base.{◌+◌, ◌≡◌, refl, [], true, ◌&&◌, if◌then◌else◌}
unfoldable use perfeng_control_plane.Base.Maps.{lookup, insert}
unfoldable use perfeng_control_plane.Text.{Text-discrete}
use perfeng_control_plane.Text.{text, text_eq}
use perfeng_control_plane.Errors.{ok, err, conflict, lease_gone}
use perfeng_control_plane.Contract.{aborted, can_transition, terminal}
use perfeng_control_plane.Run.{
  Run, to_state, transition, moved, bad_exit, bad_failure, requires_failure,
}
use perfeng_control_plane.Run.History.{accepted_run}
use perfeng_control_plane.Native.{valid_lease_identifier}
use perfeng_control_plane.Postgres.Tables.{Database, transact, member}
use perfeng_control_plane.Postgres.NativeRenewal.{
  Scope, visible, valid_native_worker, valid_lease_capability, native_lease_location,
  lock_native_renewal_scope, matching_authority, with_run, renew_scope,
}
use perfeng_control_plane.Postgres.NativeRelease.{
  ReleaseRequest, cancellation_requested, worker_shutdown, reason_text, valid_release, released_row,
  put_native, released_native_run, release_scope, release_native_lease,
}
use perfeng_control_plane.Postgres.NativeReleased.{release_native_lease_ends}
use perfeng_control_plane.Tests.Samples.{noon, hash, fresh_run}
use perfeng_control_plane.Tests.Leases.{calm}
use perfeng_control_plane.Tests.Renewals.{
  lease_id, attempt_id, stopping, digest, stored, request, native,
}

abbrev stopped : ReleaseRequest
stopped = record {
  lease_id = lease_id;
  attempt_id = attempt_id;
  expected_run_revision = 5;
  reason = cancellation_requested;
  message = [];
  capability = hash;
}

abbrev ended : Run
ended = moved stopping (to_state aborted) (noon + 7)

abbrev after : Database
after =
    put_native (with_run stored fresh_run.id stopping ended) fresh_run.id
      (released_row native stopped (noon + 7))

released :
    release_native_lease digest calm stored (text "linux-1") stopped (noon + 7) ≡ (after, ok tt)
unfolding release_native_lease release_scope valid_native_worker valid_release visible
    valid_lease_capability valid_lease_identifier lock_native_renewal_scope native_lease_location
    member matching_authority released_native_run transact lookup insert Text-discrete terminal
    can_transition accepted_run transition moved bad_exit bad_failure requires_failure
released = refl

abbrev shutdown : ReleaseRequest
shutdown = record stopped { reason = worker_shutdown }

abbrev later_scope : Scope
later_scope = record {
  run_id = fresh_run.id;
  current = ended;
  stored = released_row native stopped (noon + 7);
}

locked_after : lock_native_renewal_scope after (text "linux-1") lease_id ≡ ok later_scope
unfolding lock_native_renewal_scope native_lease_location member lookup insert Text-discrete
    accepted_run moved
locked_after = refl

shutdown-valid : (valid_native_worker (text "linux-1") && valid_release shutdown) ≡ true
unfolding valid_native_worker valid_release visible valid_lease_capability valid_lease_identifier
    Text-discrete
shutdown-valid = refl

release_native_lease_ends_example :
    (release_native_lease digest calm after (text "linux-1") shutdown (noon + 9) ≡ (
      after,
      if text_eq (reason_text cancellation_requested) (reason_text worker_shutdown)
          then ok tt
          else err conflict,
    ))
    × (renew_scope digest after
          (text "linux-1")
          request
          30000000000
          10000000000
          (noon + 9)
          later_scope
        ≡ err lease_gone)
release_native_lease_ends_example =
    release_native_lease_ends digest calm stored after (text "linux-1") stopped (noon + 7) calm
      shutdown (text "linux-1") request 30000000000 10000000000 (noon + 9) later_scope released refl
      shutdown-valid (refl, refl, refl) refl locked_after
