-- ===== src/Tests/Batches.antt =====
-- A batch of claims (internal/postgres/claims.go).
use perfeng_control_plane.Base.{◌≤◌, ◌≡◌, refl, [], ◌∷◌}
use perfeng_control_plane.Base.Int.{pos}
unfoldable use perfeng_control_plane.Base.Maps.{lookup, insert}
unfoldable use perfeng_control_plane.Text.{Text-discrete}
use perfeng_control_plane.Errors.{ok}
use perfeng_control_plane.Identity.{valid_worker_id, valid_lease_ttl}
use perfeng_control_plane.Run.History.{accepted_run}
use perfeng_control_plane.Run.Claims.{valid_claim_options}
use perfeng_control_plane.Postgres.Tables.{member, transact}
use perfeng_control_plane.Postgres.Candidates.{
  lock_claim_candidates, found_rows, eligible, place, first,
}
use perfeng_control_plane.Postgres.Claims.{claim_runs, acquire_each, try_acquire_claim}
use perfeng_control_plane.Postgres.Batch.{claim_runs-length}
use perfeng_control_plane.Tests.Samples.{noon, fresh_run}
use perfeng_control_plane.Tests.Leases.{idle, leased, worker, token, ttl, calm, lease}

idle-claimed :
    claim_runs calm idle worker (pos 3) ttl [] noon (λ n. noon) (λ n. token)
    ≡ (leased, ok (record { lease = lease; run = fresh_run } ∷ []))
unfolding claim_runs lock_claim_candidates found_rows eligible place first acquire_each
    try_acquire_claim transact valid_claim_options valid_worker_id valid_lease_ttl lookup insert
    Text-discrete member accepted_run
idle-claimed = refl

claim_runs-length_example : 1 ≤ 3
claim_runs-length_example =
    claim_runs-length calm idle leased worker (pos 3) ttl [] noon (λ n. noon) (λ n. token)
      (record { lease = lease; run = fresh_run } ∷ []) idle-claimed
