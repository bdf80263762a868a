-- ===== src/Postgres/Holding.antt =====
-- A lease that has not expired is kept through the transactions of everybody else.
use perfeng_control_plane.Base.{
  ℕ, not, ◌||◌, ◌==◌, ◌<◌, ◌≡◌, ◌≢◌, List, [], ◌∷◌, Option, none, some, arith, ◌∙◌,
}
use perfeng_control_plane.Base.Int.{ℤ, pos_part}
use perfeng_control_plane.Text.{Text}
use perfeng_control_plane.Errors.{Error, Result, ok, err, ◌>>=◌, validation}
use perfeng_control_plane.Run.{Run, Change, transition, request_cancellation}
use perfeng_control_plane.Run.Claims.{Lease, Claim, valid_lease, valid_claim_options}
use perfeng_control_plane.Identity.{valid_lease_ttl, valid_retry_delay}
use perfeng_control_plane.Postgres.Tables.{
  LeaseRow, Database, find_row, find_lease, Weather, transact, add_time,
}
use perfeng_control_plane.Postgres.Candidates.{lock_claim_candidates}
use perfeng_control_plane.Postgres.Claims.{
  acquire_each, claim_runs, lock_owned_claim, set_snapshot, set_expiry, with_delay, renew_claim,
  release_claim, advance_claim,
}
use perfeng_control_plane.Postgres.Runs.{
  cancel, advance, mutate, locked_run, changed, unchanged, on_locked,
}
use perfeng_control_plane.Postgres.Owner.{bind-ok, advance_owned, advance_owned-ok}
use perfeng_control_plane.Postgres.Renewal.{renew_owned, release_owned}
use perfeng_control_plane.Postgres.Kept.{
  Other, guard-after, acquire_each-kept, transact-after, set_expiry-kept, with_delay-kept,
  set_snapshot-kept, advanced-kept, not_owned,
}
use perfeng_control_plane.Postgres.Creates.{accept-after}
use perfeng_control_plane.Postgres.NativeWrites.{
  renew_native_lease-after, release_native_lease-after, native_write-kept,
}
use perfeng_control_plane.Postgres.Transactions.{
  Transaction, claims, renews, releases, advances_claim, cancels, advances, creates, renews_native,
  releases_native, commit, history, IsForeign, AllForeign,
}

under_lease-kept {ℓ} :
    {A : Type ℓ} (w : Weather) (db : Database) (id : Text) (row : LeaseRow) (l : Lease) (now : ℕ)
    (f : Run → Result (Database × A))
    → find_lease db id ≡ some row
    → Other id row l
    → ((r : Run) (new : Database) (a : A)
        → l.run_id ≢ id
        → f r ≡ ok (new, a)
        → find_lease new id ≡ some row)
    → find_lease (transact w db (lock_owned_claim db l now >>= f)).0 id ≡ some row
under_lease-kept w db id row l now f kept other g =
    transact-after (λ d. find_lease d id ≡ some row) w db (lock_owned_claim db l now >>= f) kept
      λ new a h.
        let (r, owned, rest) = bind-ok (lock_owned_claim db l now) f (new, a) h in
        g r new a (not_owned db id row l now r kept other owned) rest

abbrev Keeps : Text → LeaseRow → Database → Type 0
Keeps id row db = find_lease db id ≡ some row

claimed-kept :
    (w : Weather) (db : Database) (id : Text) (row : LeaseRow) (s : Database × List Claim)
    → Keeps id row db
    → Keeps id row s.0
    → Keeps id row (transact w db (ok s)).0
claimed-kept w db id row s kept after =
    transact-after (Keeps id row) w db (ok s) kept
      λ new a h. let e : new ≡ s.0 = ground arith in rw e after

claims-kept :
    (w : Weather) (db : Database) (id : Text) (row : LeaseRow) (worker : Text) (limit ttl : ℤ)
    (locked : List Text) (q : ℕ) (clock : ℕ → ℕ) (token : ℕ → Text)
    → Keeps id row db
    → ((n : ℕ) → clock n < row.expires_at)
    → Keeps id row (claim_runs w db worker limit ttl locked q clock token).0
unfolding claim_runs
claims-kept w db id row worker limit ttl locked q clock token kept soon =
    let candidates = lock_claim_candidates db q locked (pos_part limit) in
    guard-after (Keeps id row) (not (valid_claim_options worker limit ttl)) (db, err validation)
      (transact w db (ok (acquire_each worker ttl clock token 0 (db, []) candidates))) kept
      (claimed-kept w db id row (acquire_each worker ttl clock token 0 (db, []) candidates) kept
        (acquire_each-kept id row worker ttl clock token 0 db [] candidates soon kept))

renew-kept :
    (w : Weather) (db : Database) (id : Text) (row : LeaseRow) (l : Lease) (ttl : ℤ) (now : ℕ)
    → Keeps id row db
    → Other id row l
    → Keeps id row (renew_claim w db l ttl now).0
unfolding renew_claim
renew-kept w db id row l ttl now kept other =
    guard-after (Keeps id row) (not (valid_lease l) || not (valid_lease_ttl ttl))
      (db, err validation) (transact w db (lock_owned_claim db l now >>= renew_owned db l ttl now))
      kept
      (under_lease-kept w db id row l now (renew_owned db l ttl now) kept other λ r new a far h.
        let e : new ≡ set_expiry db l.run_id (add_time now ttl) = ground arith in
        rw e
          (set_expiry-kept db l.run_id id (add_time now ttl) row (find_lease db l.run_id) far kept))

release-kept :
    (w : Weather) (db : Database) (id : Text) (row : LeaseRow) (l : Lease) (delay : ℤ) (now : ℕ)
    → Keeps id row db
    → Other id row l
    → Keeps id row (release_claim w db l delay now).0
unfolding release_claim
release-kept w db id row l delay now kept other =
    let t = add_time now delay in
    guard-after (Keeps id row) (not (valid_lease l) || not (valid_retry_delay delay))
      (db, err validation)
      (transact w db (lock_owned_claim db l now >>= release_owned db l delay now)) kept
      (under_lease-kept w db id row l now (release_owned db l delay now) kept other λ r new a far h.
        let e : new ≡ with_delay now t (find_lease db l.run_id) db l.run_id = ground arith in
        rw e (with_delay-kept db l.run_id id now t row (find_lease db l.run_id) far kept))

advance_claim-kept :
    (w : Weather) (db : Database) (id : Text) (row : LeaseRow) (l : Lease) (revision : ℕ)
    (change : Change) (now : ℕ)
    → Keeps id row db
    → Other id row l
    → Keeps id row (advance_claim w db l revision change now).0
unfolding advance_claim
advance_claim-kept w db id row l revision change now kept other =
    guard-after (Keeps id row) (not (valid_lease l)) (db, err validation)
      (transact w db (lock_owned_claim db l now >>= advance_owned db l revision change now)) kept
      (under_lease-kept w db id row l now (advance_owned db l revision change now) kept other
        λ r new next far h.
          let (_, e) = advance_owned-ok db new l revision change now r next h in
          rw e (advanced-kept db l.run_id id next now row far kept))

unchanged-kept :
    (o : Option Error) (db : Database) (id : Text) (row : LeaseRow) (current : Run)
    → Keeps id row db
    → Keeps id row (unchanged o db current).0
unchanged-kept none db id row current kept = kept
unchanged-kept (some e) db id row current kept = kept

-- A mutation outside a lease writes no lease.
changed-kept :
    (w : Weather) (db : Database) (id j : Text) (row : LeaseRow) (current : Run) (next : Result Run)
    → Keeps id row db
    → Keeps id row (changed w db j current next).0
changed-kept w db id j row current (err e) kept =
    transact-after {A = Run} (Keeps id row) w db (err e) kept λ new a h. absurd (ground arith)
changed-kept w db id j row current (ok next) kept =
    guard-after (Keeps id row) (next.revision == current.revision) (unchanged w.begin db current)
      (transact w db (ok (set_snapshot db j next, next)))
      (unchanged-kept w.begin db id row current kept)
      (transact-after (Keeps id row) w db (ok (set_snapshot db j next, next)) kept λ new a h.
        let e : new ≡ set_snapshot db j next = ground arith in
        rw e (set_snapshot-kept db j id next (find_row db j) ∙ kept))

on_locked-kept :
    (w : Weather) (db : Database) (id j : Text) (row : LeaseRow) (change : Run → Result Run)
    (found : Result Run)
    → Keeps id row db
    → Keeps id row (on_locked w db j change found).0
on_locked-kept w db id j row change (err e) kept =
    transact-after {A = Run} (Keeps id row) w db (err e) kept λ new a h. absurd (ground arith)
on_locked-kept w db id j row change (ok r) kept = changed-kept w db id j row r (change r) kept

commit-kept :
    (id : Text) (row : LeaseRow) (db : Database) (t : Transaction)
    → IsForeign id row t
    → Keeps id row db
    → Keeps id row (commit db t)
unfolding commit cancel advance mutate
commit-kept id row db (claims w worker limit ttl locked q clock token) soon kept =
    claims-kept w db id row worker limit ttl locked q clock token kept soon
commit-kept id row db (renews w l ttl now) other kept = renew-kept w db id row l ttl now kept other
commit-kept id row db (releases w l delay now) other kept =
    release-kept w db id row l delay now kept other
commit-kept id row db (advances_claim w l revision change now) other kept =
    advance_claim-kept w db id row l revision change now kept other
commit-kept id row db (cancels w principal j now) _ kept =
    on_locked-kept w db id j row (λ r. request_cancellation r now) (locked_run db principal j) kept
commit-kept id row db (advances w principal j revision change now) _ kept =
    on_locked-kept w db id j row (λ r. transition r revision change now) (locked_run db principal j)
      kept
commit-kept id row db (creates w now draw principal key request target) _ kept =
    accept-after (Keeps id row) db kept now principal key request target w draw λ j free. kept
commit-kept id row db (renews_native sha256 w worker_id r ttl grace now) _ kept =
    renew_native_lease-after (Keeps id row) db kept (native_write-kept db id row kept) sha256 w
      worker_id r ttl grace now
commit-kept id row db (releases_native sha256 w worker_id r now) _ kept =
    release_native_lease-after (Keeps id row) db kept (native_write-kept db id row kept) sha256 w
      worker_id r now

pub history-kept :
    (id : Text) (row : LeaseRow) (db : Database) (ts : List Transaction)
    → AllForeign id row ts
    → Keeps id row db
    → Keeps id row (history db ts)
unfolding history
history-kept id row db [] _ kept = kept
history-kept id row db (t ∷ ts) foreign kept =
    history-kept id row (commit db t) ts foreign.1 (commit-kept id row db t foreign.0 kept)
