-- ===== src/Postgres/Fencing.antt =====
-- Fencing of the claims: who owns a lease, that nobody else does, and how it is lost.
use perfeng_control_plane.Base.{
  ℕ, ◌≤◌, ◌<◌, ◌≡◌, refl, ◌≢◌, true, false, Option, none, some, arith, ◌⊎◌, inl, not, ◌&&◌, ◌∙◌,
  sym, ap,
}
use perfeng_control_plane.Base.Int.{ℤ}
use perfeng_control_plane.Base.Maps.{lookup-insert_self}
use perfeng_control_plane.Text.{Text, Text-discrete}
use perfeng_control_plane.Errors.{ok, err, ◌>>=◌, lease_lost}
use perfeng_control_plane.Contract.{terminal}
use perfeng_control_plane.Run.{Run}
use perfeng_control_plane.Run.Claims.{Lease, Claim}
use perfeng_control_plane.Postgres.Tables.{
  RunRow, LeaseRow, Database, find_row, find_lease, member, add_time,
}
use perfeng_control_plane.Postgres.Candidates.{Candidate}
use perfeng_control_plane.Postgres.Claims.{
  still_leased, issued, put_lease, try_acquire_claim, owned_row, check_lease, check_open,
  lock_owned_claim,
}

-- The lease is the stored one, has not expired, and its Run belongs to its principal.
pub record Owns (db : Database) (l : Lease) (now : ℕ) (r : Run) : Type 0 where
  pub row : RunRow
  pub found : find_row db l.run_id ≡ some row
  pub mine : row.principal ≡ l.principal
  pub snapshot : row.snapshot ≡ r
  pub stored : LeaseRow
  pub kept : find_lease db l.run_id ≡ some stored
  pub worker : stored.worker_id ≡ l.worker_id
  pub same_token : stored.token ≡ l.token
  pub current : now < stored.expires_at
  pub unfinished : terminal r.state && not (member l.run_id db.held) ≡ false

checked :
    (db : Database) (l : Lease) (now : ℕ) (r : Run) (row : Option RunRow) (stored : Option LeaseRow)
    → find_row db l.run_id ≡ row
    → find_lease db l.run_id ≡ stored
    → (owned_row l.principal row >>= λ s.
        check_lease l now stored >>= λ _. check_open db l.run_id s)
      ≡ ok r
    → Owns db l now r
checked db l now r none stored e f h = absurd (cc)
checked db l now r (some row) none e f h = absurd (ground arith)
checked db l now r (some row) (some stored) e f h = record {
  row = row;
  found = e;
  mine = ground arith;
  snapshot = ground arith;
  stored = stored;
  kept = f;
  worker = ground arith;
  same_token = ground arith;
  current = ground arith;
  unfinished = ground arith;
}

pub lock_owned_claim-Owns :
    (db : Database) (l : Lease) (now : ℕ) (r : Run)
    → lock_owned_claim db l now ≡ ok r
    → Owns db l now r
unfolding lock_owned_claim
lock_owned_claim-Owns db l now r h = checked db l now r _ _ refl refl h

still_leased-Owns :
    (db : Database) (l : Lease) (now : ℕ) (r : Run) (c : Candidate)
    → Owns db l now r
    → c.snapshot.id ≡ l.run_id
    → still_leased (find_lease db c.snapshot.id) c.snapshot.state now ≡ true
still_leased-Owns db l now r c o same = rw (same, o.kept) (ground (arith, o.current))

-- While a lease is owned its Run cannot be claimed by anybody: a claim of it at that time gives
-- nothing and writes nothing.
pub try_acquire_claim-owned :
    (db : Database) (l : Lease) (now : ℕ) (r : Run) (c : Candidate) (worker_id token : Text)
    (ttl : ℤ)
    → lock_owned_claim db l now ≡ ok r
    → c.snapshot.id ≡ l.run_id
    → try_acquire_claim db c worker_id ttl now token ≡ none
unfolding try_acquire_claim
try_acquire_claim-owned db l now r c worker_id token ttl h same =
    rw (still_leased-Owns db l now r c (lock_owned_claim-Owns db l now r h) same)

-- A Run has one owner: two leases of it that are owned in the same database, at any two times, name
-- the same worker, token and principal, and both see the same Run.
pub lock_owned_claim_unique :
    (db : Database) (l k : Lease) (now later : ℕ) (r s : Run)
    → lock_owned_claim db l now ≡ ok r
    → lock_owned_claim db k later ≡ ok s
    → l.run_id ≡ k.run_id
    → (l.worker_id ≡ k.worker_id) × (l.token ≡ k.token) × (l.principal ≡ k.principal) × (r ≡ s)
lock_owned_claim_unique db l k now later r s h g same =
    let o = lock_owned_claim-Owns db l now r h in
    let p = lock_owned_claim-Owns db k later s g in
    let row : some o.row ≡ some p.row = sym o.found ∙ (ap (find_row db) same ∙ p.found) in
    let stored : some o.stored ≡ some p.stored = sym o.kept ∙ (ap (find_lease db) same ∙ p.kept) in
    (
      grind (arith, o.worker, p.worker),
      grind (arith, o.same_token, p.same_token),
      grind (arith, o.mine, p.mine),
      grind (arith, o.snapshot, p.snapshot),
    )

abbrev pub claim_row : Text → Text → ℤ → ℕ → LeaseRow
claim_row worker_id token ttl now = record {
  worker_id = worker_id;
  token = token;
  expires_at = add_time now ttl;
  available_at = now;
}

pub try_acquire_claim-written :
    (db new : Database) (c : Candidate) (worker_id token : Text) (ttl : ℤ) (now : ℕ) (claim : Claim)
    → try_acquire_claim db c worker_id ttl now token ≡ some (new, claim)
    → (new ≡ put_lease db c.snapshot.id (claim_row worker_id token ttl now))
      × (claim ≡ record { lease = issued c worker_id ttl now token; run = c.snapshot })
unfolding try_acquire_claim
try_acquire_claim-written db new c worker_id token ttl now claim h = ground arith

-- The lease row of a Run after it is written.
pub find_lease-put_lease :
    (db : Database) (id : Text) (row : LeaseRow) → find_lease (put_lease db id row) id ≡ some row
find_lease-put_lease db id row = lookup-insert_self Text-discrete id row db.leases

pub lost :
    (db : Database) (l : Lease) (now : ℕ) (row : LeaseRow)
    → find_lease db l.run_id ≡ some row
    → (row.token ≢ l.token) ⊎ (row.expires_at ≤ now)
    → lock_owned_claim db l now ≡ err lease_lost
unfolding lock_owned_claim
lost db l now row kept gone = rw kept (ground arith)

pub keeps :
    (db : Database) (l : Lease) (now : ℕ) (r : Run) (row : LeaseRow)
    → owned_row l.principal (find_row db l.run_id) ≡ ok r
    → find_lease db l.run_id ≡ some row
    → row.worker_id ≡ l.worker_id
    → row.token ≡ l.token
    → now < row.expires_at
    → terminal r.state && not (member l.run_id db.held) ≡ false
    → lock_owned_claim db l now ≡ ok r
unfolding lock_owned_claim
keeps db l now r row mine kept worker token soon unfinished = rw (mine, kept) (ground arith)

-- A claim that succeeds hands its Run over: its own lease owns the Run until it expires, if the
-- Run is still to be worked on, and any lease of the Run with another token is lost at every time.
pub try_acquire_claim-hand_over :
    (db new : Database) (c : Candidate) (worker_id token : Text) (ttl : ℤ) (now : ℕ) (claim : Claim)
    → try_acquire_claim db c worker_id ttl now token ≡ some (new, claim)
    → owned_row c.principal (find_row db c.snapshot.id) ≡ ok c.snapshot
    → terminal c.snapshot.state && not (member c.snapshot.id db.held) ≡ false
    → ((later : ℕ)
        → later < add_time now ttl
        → lock_owned_claim new claim.lease later ≡ ok c.snapshot)
      × ((l : Lease) (later : ℕ)
          → l.run_id ≡ c.snapshot.id
          → token ≢ l.token
          → lock_owned_claim new l later ≡ err lease_lost)
try_acquire_claim-hand_over db new c worker_id token ttl now claim h mine unfinished =
    let (written, answer) = try_acquire_claim-written db new c worker_id token ttl now claim h in
    let row = claim_row worker_id token ttl now in
    let stored = find_lease-put_lease db c.snapshot.id row in
    rw (written, answer)
      (
        λ later soon. keeps _ _ later c.snapshot row mine stored refl refl soon unfinished,
        λ l later same other.
            lost _ l later row (ap (find_lease (put_lease db c.snapshot.id row)) same ∙ stored)
              (inl other),
      )
