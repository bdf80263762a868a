-- ===== src/Tests/Leases.antt =====
-- Leases of a stored Run (internal/postgres/claims.go).
use perfeng_control_plane.Base.{
  ℕ, ◌+◌, ◌≤◌, ◌<◌, ◌≡◌, ◌≢◌, refl, List, [], ◌∷◌, none, some, true, false, arith, ◌⊎◌,
}
use perfeng_control_plane.Base.Int.{ℤ, pos}
unfoldable use perfeng_control_plane.Base.Maps.{lookup, insert}
use perfeng_control_plane.Text.{Text, text}
unfoldable use perfeng_control_plane.Text.{Text-discrete}
use perfeng_control_plane.Errors.{ok, err, lease_lost}
use perfeng_control_plane.Contract.{
  State, cancelling, validating, terminal, can_transition, valid_id,
}
use perfeng_control_plane.Run.{
  Run, kubernetes, to_state, transition, bad_exit, bad_failure, requires_failure, moved,
}
use perfeng_control_plane.Run.History.{accepted_run, Reach}
use perfeng_control_plane.Run.Claims.{Lease, valid_lease}
use perfeng_control_plane.Postgres.Tables.{
  RunRow, Database, find_lease, Weather, done, transact, add_time,
}
use perfeng_control_plane.Postgres.Candidates.{Candidate}
use perfeng_control_plane.Postgres.Claims.{
  try_acquire_claim, lock_owned_claim, still_leased, put_lease, advanced, advance_claim,
  renew_claim, release_claim, issued,
}
use perfeng_control_plane.Postgres.Runs.{locked_run}
use perfeng_control_plane.Postgres.Fencing.{
  try_acquire_claim-owned, lock_owned_claim_unique, try_acquire_claim-hand_over, claim_row,
}
use perfeng_control_plane.Postgres.Owner.{advance_claim-fenced}
use perfeng_control_plane.Postgres.Renewal.{renew_claim-extends, release_claim-frees}
use perfeng_control_plane.Postgres.Transactions.{
  Transaction, cancels, claims, renews_native, history,
}
use perfeng_control_plane.Native.{preparing}
use perfeng_control_plane.Postgres.NativeRenewal
use perfeng_control_plane.Postgres.Promise.{lease_held, history-Follows}
use perfeng_control_plane.Postgres.Progress.{Follows}
use perfeng_control_plane.Identity.{
  valid_worker_id, valid_token, valid_lease_ttl, valid_retry_delay,
}
use perfeng_control_plane.Tests.Samples.{noon, fresh_run}

abbrev alice : Text
alice = text "alice"

abbrev stored_row : RunRow
stored_row = record { principal = alice; target = kubernetes; snapshot = fresh_run }

abbrev pub idle : Database
idle = record {
  runs = (fresh_run.id, stored_row) ∷ [];
  bindings = [];
  leases = [];
  native_leases = [];
  held = [];
  present = [];
}

abbrev pub worker : Text
worker = text "worker-1"

abbrev pub token : Text
token = text "0123456789abcdef0123456789abcdef"

abbrev pub ttl : ℤ
ttl = pos 30000000000

abbrev candidate : Candidate
candidate = record { principal = alice; snapshot = fresh_run }

abbrev pub leased : Database
leased = put_lease idle fresh_run.id (claim_row worker token ttl noon)

abbrev pub lease : Lease
lease = issued candidate worker ttl noon token

abbrev stale : Lease
stale = record lease { token = text "ffffffffffffffffffffffffffffffff" }

claim-idle :
    try_acquire_claim idle candidate worker ttl noon token
    ≡ some (leased, record { lease = lease; run = fresh_run })
unfolding try_acquire_claim lookup
claim-idle = refl

owned : lock_owned_claim leased lease (noon + 1) ≡ ok fresh_run
unfolding lock_owned_claim lookup insert Text-discrete terminal accepted_run
owned = refl

try_acquire_claim-owned_example :
    try_acquire_claim leased candidate (text "worker-2") ttl (noon + 1) stale.token ≡ none
try_acquire_claim-owned_example =
    try_acquire_claim-owned leased lease (noon + 1) fresh_run candidate (text "worker-2")
      stale.token ttl owned refl

-- The claim as a renewal at the same moment writes it.
abbrev renewed : Database
renewed =
    put_lease leased fresh_run.id
      (record (claim_row worker token ttl noon) { expires_at = add_time (noon + 1) ttl })

lock_owned_claim_unique_example :
    (lease.worker_id ≡ lease.worker_id)
    × (lease.token ≡ lease.token)
    × (lease.principal ≡ lease.principal)
    × (fresh_run ≡ fresh_run)
lock_owned_claim_unique_example =
    lock_owned_claim_unique leased lease lease (noon + 1) (noon + 1) fresh_run fresh_run owned owned
      refl

try_acquire_claim-hand_over_example :
    ((later : ℕ) → later < add_time noon ttl → lock_owned_claim leased lease later ≡ ok fresh_run)
    × ((l : Lease) (later : ℕ)
        → l.run_id ≡ fresh_run.id
        → token ≢ l.token
        → lock_owned_claim leased l later ≡ err lease_lost)
unfolding lookup Text-discrete terminal accepted_run
try_acquire_claim-hand_over_example =
    try_acquire_claim-hand_over idle leased candidate worker token ttl noon
      (record { lease = lease; run = fresh_run }) claim-idle refl refl

abbrev pub calm : Weather
calm = record { begin = none; commit = done }

abbrev started : Run
started = moved fresh_run (to_state validating) (noon + 1)

advance-leased :
    advance_claim calm leased lease 1 (to_state validating) (noon + 1)
    ≡ (advanced leased fresh_run.id started (noon + 1), ok started)
unfolding advance_claim transact lock_owned_claim transition accepted_run can_transition bad_exit
    bad_failure requires_failure lookup insert Text-discrete terminal valid_id valid_worker_id
    valid_token valid_lease
advance-leased = refl

advance_claim-fenced_example :
    ((r : Run) × (lock_owned_claim leased lease (noon + 1) ≡ ok r)
      × (transition r 1 (to_state validating) (noon + 1) ≡ ok started))
    × (locked_run (advanced leased fresh_run.id started (noon + 1)) alice fresh_run.id ≡ ok started)
    × (terminal started.state ≡ true
        → (later : ℕ) → noon + 1 ≤ later
        → lock_owned_claim (advanced leased fresh_run.id started (noon + 1)) lease later
          ≡ err lease_lost)
    × (terminal started.state ≡ false
        → lock_owned_claim (advanced leased fresh_run.id started (noon + 1)) lease (noon + 1)
          ≡ ok started)
advance_claim-fenced_example =
    advance_claim-fenced calm leased _ lease 1 (to_state validating) (noon + 1) started
      advance-leased

renew-leased : renew_claim calm leased lease ttl (noon + 1) ≡ (
  renewed,
  ok (record { lease = record lease { expires_at = add_time (noon + 1) ttl }; run = fresh_run }),
)
unfolding renew_claim transact lock_owned_claim accepted_run lookup insert Text-discrete terminal
    valid_id valid_worker_id valid_token valid_lease valid_lease_ttl
renew-leased = refl

renew_claim-extends_example :
    (lock_owned_claim leased lease (noon + 1) ≡ ok fresh_run)
    × (record lease { expires_at = add_time (noon + 1) ttl }
        ≡ record lease { expires_at = add_time (noon + 1) ttl })
    × ((later : ℕ)
        → later < add_time (noon + 1) ttl
        → lock_owned_claim renewed (record lease { expires_at = add_time (noon + 1) ttl }) later
          ≡ ok fresh_run)
renew_claim-extends_example =
    renew_claim-extends calm leased renewed lease ttl (noon + 1) _ renew-leased

abbrev released : Database
released = put_lease leased fresh_run.id (record {
  worker_id = worker;
  token = token;
  expires_at = noon + 1;
  available_at = noon + 1 + 5000000000;
})

release-leased : release_claim calm leased lease (pos 5000000000) (noon + 1) ≡ (released, ok tt)
unfolding release_claim transact lock_owned_claim accepted_run lookup insert Text-discrete terminal
    valid_id valid_worker_id valid_token valid_lease valid_retry_delay
release-leased = refl

release_claim-frees_example :
    (lock_owned_claim released lease (noon + 2) ≡ err lease_lost)
    × ((state : State)
        → (state ≡ cancelling) ⊎ (noon + 1 + 5000000000 ≤ noon + 2)
        → still_leased (find_lease released fresh_run.id) state (noon + 2) ≡ false)
release_claim-frees_example =
    release_claim-frees calm leased released lease (pos 5000000000) (noon + 1) release-leased
      (noon + 2) (omega arith)

abbrev native_request : NativeRenewal.Request
native_request = record {
  lease_id = text "0123abcd-0123-4abc-8abc-0123456789ab";
  attempt_id = text "4567abcd-0123-4abc-8abc-0123456789ab";
  expected_run_revision = 1;
  phase = preparing;
  capability = text "0123456789abcdef0123456789abcdef";
}

abbrev meanwhile : List Transaction
meanwhile =
    claims calm (text "worker-2") (pos 10) ttl [] (noon + 2) (λ n. noon + 2) (λ n. stale.token)
    ∷ cancels calm alice fresh_run.id (noon + 3)
    ∷ renews_native (λ t. t) calm (text "linux-1") native_request 30000000000 10000000000 (noon + 3)
    ∷ []

lease_held_example :
    (s : Run) × Reach fresh_run s
    × (locked_run (history leased meanwhile) alice fresh_run.id ≡ ok s)
    × (terminal s.state ≡ false
        → lock_owned_claim (history leased meanwhile) lease (noon + 4) ≡ ok s)
unfolding lookup insert Text-discrete accepted_run
lease_held_example =
    lease_held leased lease (noon + 1) (noon + 4) fresh_run (claim_row worker token ttl noon)
      meanwhile owned refl ((λ n. omega arith), (tt, (tt, tt))) (omega arith)

history-Follows_example : Follows leased (history leased meanwhile)
history-Follows_example = history-Follows leased meanwhile
