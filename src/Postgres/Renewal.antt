-- ===== src/Postgres/Renewal.antt =====
-- Renewal and release of a lease by its owner.
use perfeng_control_plane.Base.{ℕ, ◌≤◌, ◌<◌, ◌≡◌, refl, false, some, arith, ◌⊎◌, inr}
use perfeng_control_plane.Base.Int.{ℤ}
use perfeng_control_plane.Text.{Text}
use perfeng_control_plane.Errors.{Result, ok, err, ◌>>=◌, lease_lost}
use perfeng_control_plane.Contract.{State, cancelling, State-discrete}
use perfeng_control_plane.Run.{Run}
use perfeng_control_plane.Run.Claims.{Lease, Claim}
use perfeng_control_plane.Postgres.Tables.{
  LeaseRow, Database, find_row, find_lease, Weather, transact, add_time,
}
use perfeng_control_plane.Postgres.Claims.{
  still_leased, put_lease, owned_row, lock_owned_claim, set_expiry, with_delay, renew_claim,
  release_claim,
}
use perfeng_control_plane.Postgres.Fencing.{
  Owns, lock_owned_claim-Owns, find_lease-put_lease, lost, keeps,
}
use perfeng_control_plane.Postgres.Owner.{bind-ok, transact-ok}

owned_row-Owns :
    (db : Database) (l : Lease) (now : ℕ) (r : Run)
    → Owns db l now r
    → owned_row l.principal (find_row db l.run_id) ≡ ok r
owned_row-Owns db l now r o = rw (o.found, o.snapshot) (ground (arith, o.mine))

renewed-kept :
    (db : Database) (l : Lease) (now t later : ℕ) (r : Run)
    → Owns db l now r
    → later < t
    → lock_owned_claim (set_expiry db l.run_id t) l later ≡ ok r
renewed-kept db l now t later r o soon =
    let row = record o.stored { expires_at = t } in
    rw (o.kept) (
      keeps (put_lease db l.run_id row) l later r row (owned_row-Owns db l now r o)
        (find_lease-put_lease db l.run_id row) o.worker o.same_token soon o.unfinished)

released-lost :
    (db : Database) (l : Lease) (now t later : ℕ) (r : Run)
    → Owns db l now r
    → now ≤ later
    → lock_owned_claim (with_delay now t (find_lease db l.run_id) db l.run_id) l later
      ≡ err lease_lost
released-lost db l now t later r o le =
    let row = record o.stored { expires_at = now; available_at = t } in
    rw (o.kept)
      (lost (put_lease db l.run_id row) l later row (find_lease-put_lease db l.run_id row) (inr le))

abbrev pub renew_owned : Database → Lease → ℤ → ℕ → Run → Result (Database × Claim)
renew_owned db l ttl now r = ok (
  set_expiry db l.run_id (add_time now ttl),
  record { lease = record l { expires_at = add_time now ttl }; run = r },
)

renew_claim-transact :
    (w : Weather) (db new : Database) (l : Lease) (ttl : ℤ) (now : ℕ) (claim : Claim)
    → renew_claim w db l ttl now ≡ (new, ok claim)
    → transact w db (lock_owned_claim db l now >>= renew_owned db l ttl now) ≡ (new, ok claim)
unfolding renew_claim
renew_claim-transact w db new l ttl now claim h = ground arith

renew_owned-ok :
    (db new : Database) (l : Lease) (ttl : ℤ) (now : ℕ) (r : Run) (claim : Claim)
    → renew_owned db l ttl now r ≡ ok (new, claim)
    → (new ≡ set_expiry db l.run_id (add_time now ttl))
      × (claim ≡ record { lease = record l { expires_at = add_time now ttl }; run = r })
renew_owned-ok db new l ttl now r claim h = ground arith

-- A renewal that is answered was made by the owner. Its claim shows the stored Run and owns it until
-- the new expiry, a time to live after the renewal.
pub renew_claim-extends :
    (w : Weather) (db new : Database) (l : Lease) (ttl : ℤ) (now : ℕ) (claim : Claim)
    → renew_claim w db l ttl now ≡ (new, ok claim)
    → (lock_owned_claim db l now ≡ ok claim.run)
      × (claim.lease ≡ record l { expires_at = add_time now ttl })
      × ((later : ℕ)
          → later < add_time now ttl
          → lock_owned_claim new claim.lease later ≡ ok claim.run)
unfolding lock_owned_claim
renew_claim-extends w db new l ttl now claim h =
    let body = lock_owned_claim db l now >>= renew_owned db l ttl now in
    let go = transact-ok w db new body claim (renew_claim-transact w db new l ttl now claim h) in
    let (r, owned, rest) =
      bind-ok (lock_owned_claim db l now) (renew_owned db l ttl now) (new, claim) go in
    let (e, f) = renew_owned-ok db new l ttl now r claim rest in
    let o = lock_owned_claim-Owns db l now r owned in
    rw (e, f) (owned, refl, λ later soon. renewed-kept db l now (add_time now ttl) later r o soon)

abbrev pub release_owned : Database → Lease → ℤ → ℕ → Run → Result (Database × Unit {0})
release_owned db l delay now r =
    ok (with_delay now (add_time now delay) (find_lease db l.run_id) db l.run_id, tt)

release_claim-transact :
    (w : Weather) (db new : Database) (l : Lease) (delay : ℤ) (now : ℕ)
    → release_claim w db l delay now ≡ (new, ok tt)
    → transact w db (lock_owned_claim db l now >>= release_owned db l delay now) ≡ (new, ok tt)
unfolding release_claim
release_claim-transact w db new l delay now h = ground arith

released-row :
    (db : Database) (l : Lease) (now t : ℕ) (r : Run)
    → Owns db l now r
    → (row : LeaseRow) × (find_lease
          (with_delay now t (find_lease db l.run_id) db l.run_id)
          l.run_id
        ≡ some row)
      × (row.expires_at ≡ now)
      × (row.available_at ≡ t)
released-row db l now t r o =
    let row = record o.stored { expires_at = now; available_at = t } in
    rw (o.kept) (row, find_lease-put_lease db l.run_id row, refl, refl)

freed :
    (db : Database) (id : Text) (row : LeaseRow) (later : ℕ) (state : State)
    → find_lease db id ≡ some row
    → row.expires_at ≤ later
    → (state ≡ cancelling) ⊎ (row.available_at ≤ later)
    → still_leased (find_lease db id) state later ≡ false
unfolding State-discrete
freed db id row later state kept gone due = rw kept (ground arith)

-- A release that is answered ends the lease at once and for good. The Run can be claimed again when
-- the delay is over, and at once if it is CANCELLING.
pub release_claim-frees :
    (w : Weather) (db new : Database) (l : Lease) (delay : ℤ) (now : ℕ)
    → release_claim w db l delay now ≡ (new, ok tt)
    → (later : ℕ) → now ≤ later
    → (lock_owned_claim new l later ≡ err lease_lost)
      × ((state : State)
          → (state ≡ cancelling) ⊎ (add_time now delay ≤ later)
          → still_leased (find_lease new l.run_id) state later ≡ false)
release_claim-frees w db new l delay now h later le =
    let body = lock_owned_claim db l now >>= release_owned db l delay now in
    let go = transact-ok w db new body tt (release_claim-transact w db new l delay now h) in
    let (r, owned, rest) =
      bind-ok (lock_owned_claim db l now) (release_owned db l delay now) (new, tt) go in
    let o = lock_owned_claim-Owns db l now r owned in
    let t = add_time now delay in
    let e : new ≡ with_delay now t (find_lease db l.run_id) db l.run_id = ground arith in
    let (row, kept, gone, available) = released-row db l now t r o in
    rw e (
      released-lost db l now t later r o le,
      λ state due.
          freed (with_delay now t (find_lease db l.run_id) db l.run_id) l.run_id row later state
            kept (rw gone le) (rw available due),
    )
