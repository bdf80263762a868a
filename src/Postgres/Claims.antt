-- ===== src/Postgres/Claims.antt =====
-- internal/postgres/claims.go: the reconciliation leases.
use perfeng_control_plane.Base.{
  ℕ, suc, Bool, false, List, [], ◌∷◌, ◌++◌, Option, none, some, not, ◌&&◌, ◌||◌, ltb, if◌then◌else◌,
}
use perfeng_control_plane.Base.Int.{ℤ, pos_part}
use perfeng_control_plane.Base.Maps.{insert}
use perfeng_control_plane.Text.{Text, Text-discrete, text_eq}
use perfeng_control_plane.Errors.{Result, ok, err, ◌>>=◌, validation, lease_lost}
use perfeng_control_plane.Contract.{State, cancelling, state_eq, terminal}
use perfeng_control_plane.Identity.{valid_lease_ttl, valid_retry_delay}
use perfeng_control_plane.Run.{Run, Change, transition}
use perfeng_control_plane.Run.Claims.{Lease, Claim, valid_lease, valid_claim_options}
use perfeng_control_plane.Postgres.Tables.{
  RunRow, LeaseRow, Database, find_row, find_lease, member, Weather, transact, add_time,
}
use perfeng_control_plane.Postgres.Candidates.{Candidate, lock_claim_candidates}

-- The stored lease still keeps the candidate from being claimed.
abbrev pub still_leased : Option LeaseRow → State → ℕ → Bool
still_leased none state now = false
still_leased (some l) state now =
    ltb now l.expires_at || (not (state_eq state cancelling) && ltb now l.available_at)

abbrev pub issued : Candidate → Text → ℤ → ℕ → Text → Lease
issued c worker_id ttl now token = record {
  run_id = c.snapshot.id;
  principal = c.principal;
  worker_id = worker_id;
  token = token;
  expires_at = add_time now ttl;
}

abbrev pub put_lease : Database → Text → LeaseRow → Database
put_lease db id row = record db { leases = insert Text-discrete id row db.leases }

unfoldable pub try_acquire_claim :
    Database → Candidate → Text → ℤ → ℕ → Text → Option (Database × Claim)
try_acquire_claim db c worker_id ttl now token =
    if still_leased (find_lease db c.snapshot.id) c.snapshot.state now
    then none
    else some (
      put_lease db c.snapshot.id (record {
        worker_id = worker_id;
        token = token;
        expires_at = add_time now ttl;
        available_at = now;
      }),
      record { lease = issued c worker_id ttl now token; run = c.snapshot },
    )

abbrev pub taken : Database → List Claim → Option (Database × Claim) → Database × List Claim
taken db claims none = (db, claims)
taken db claims (some (next, claim)) = (next, claims ++ claim ∷ [])

-- The loop over the candidates. The n-th has the n-th reading of the clock and the n-th token.
unfoldable pub acquire_each :
    Text
    → ℤ
    → (ℕ → ℕ)
    → (ℕ → Text)
    → ℕ
    → Database × List Claim
    → List Candidate
    → Database × List Claim
acquire_each worker_id ttl clock token n s [] = s
acquire_each worker_id ttl clock token n s (c ∷ cs) =
    acquire_each worker_id ttl clock token (suc n)
      (taken s.0 s.1 (try_acquire_claim s.0 c worker_id ttl (clock n) (token n))) cs

unfoldable pub claim_runs :
    Weather
    → Database
    → Text
    → ℤ
    → ℤ
    → List Text
    → ℕ
    → (ℕ → ℕ)
    → (ℕ → Text)
    → Database × Result (List Claim)
claim_runs w db worker_id limit ttl locked query_clock clock token =
    if not (valid_claim_options worker_id limit ttl)
    then (db, err validation)
    else transact w db (
        ok (
          acquire_each worker_id ttl clock token 0 (db, [])
            (lock_claim_candidates db query_clock locked (pos_part limit))))

-- `lockedRun` under a lease: an absent row and another principal's are a lost lease.
abbrev pub owned_row : Text → Option RunRow → Result Run
owned_row principal none = err lease_lost
owned_row principal (some row) =
    if text_eq row.principal principal then ok row.snapshot else err lease_lost

abbrev pub check_lease : Lease → ℕ → Option LeaseRow → Result (Unit {0})
check_lease l now none = err lease_lost
check_lease l now (some row) =
    if not (text_eq row.worker_id l.worker_id)
      || not (text_eq row.token l.token)
      || not (ltb now row.expires_at)
    then err lease_lost
    else ok tt

-- A terminal Run stays owned only for the cleanup of its benchmark target.
abbrev pub check_open : Database → Text → Run → Result Run
check_open db id r = if terminal r.state && not (member id db.held) then err lease_lost else ok r

unfoldable pub lock_owned_claim : Database → Lease → ℕ → Result Run
lock_owned_claim db l now = owned_row l.principal (find_row db l.run_id) >>= λ r.
    check_lease l now (find_lease db l.run_id) >>= λ _. check_open db l.run_id r

-- An update of one column of a row that is there.
abbrev pub with_expiry : ℕ → Option LeaseRow → Database → Text → Database
with_expiry t none db id = db
with_expiry t (some row) db id = put_lease db id (record row { expires_at = t })

abbrev pub set_expiry : Database → Text → ℕ → Database
set_expiry db id t = with_expiry t (find_lease db id) db id

unfoldable pub renew_claim : Weather → Database → Lease → ℤ → ℕ → Database × Result Claim
renew_claim w db l ttl now =
    if not (valid_lease l) || not (valid_lease_ttl ttl)
    then (db, err validation)
    else transact w db (
        lock_owned_claim db l now >>= λ r. ok (
          set_expiry db l.run_id (add_time now ttl),
          record { lease = record l { expires_at = add_time now ttl }; run = r },
        ))

abbrev pub with_delay : ℕ → ℕ → Option LeaseRow → Database → Text → Database
with_delay now t none db id = db
with_delay now t (some row) db id =
    put_lease db id (record row { expires_at = now; available_at = t })

unfoldable pub release_claim : Weather → Database → Lease → ℤ → ℕ → Database × Result (Unit {0})
release_claim w db l delay now =
    if not (valid_lease l) || not (valid_retry_delay delay)
    then (db, err validation)
    else transact w db (
        lock_owned_claim db l now >>= λ r.
        ok (with_delay now (add_time now delay) (find_lease db l.run_id) db l.run_id, tt))

abbrev pub with_snapshot : Run → Option RunRow → Database → Text → Database
with_snapshot next none db id = db
with_snapshot next (some row) db id = record db {
  runs = insert Text-discrete id (record row { snapshot = next }) db.runs;
}

abbrev pub set_snapshot : Database → Text → Run → Database
set_snapshot db id next = with_snapshot next (find_row db id) db id

-- The writes of a transition; a terminal one ends the lease in the same transaction.
abbrev pub advanced : Database → Text → Run → ℕ → Database
advanced db id next now =
    let written = set_snapshot db id next in
    if terminal next.state then set_expiry written id now else written

unfoldable pub advance_claim : Weather → Database → Lease → ℕ → Change → ℕ → Database × Result Run
advance_claim w db l revision change now =
    if not (valid_lease l)
    then (db, err validation)
    else transact w db (
        lock_owned_claim db l now >>= λ r.
        transition r revision change now >>= λ next. ok (advanced db l.run_id next now, next))
