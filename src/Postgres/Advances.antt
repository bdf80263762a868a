-- ===== src/Postgres/Advances.antt =====
-- What each transaction does to the stored Runs.
use perfeng_control_plane.Base.{
  ℕ, not, ◌||◌, ◌==◌, ◌≡◌, refl, List, [], Option, none, some, arith, inl, inr, ◌∙◌, ap,
  Option-cases,
}
use mathlib.Core.Path.{subst}
use perfeng_control_plane.Base.Int.{ℤ, pos_part}
use perfeng_control_plane.Text.{Text, Text-discrete}
use perfeng_control_plane.Errors.{Error, Result, ok, err, ◌>>=◌, validation, not_found}
use perfeng_control_plane.Run.{Run, Change, transition}
use perfeng_control_plane.Run.Claims.{Lease, valid_lease, valid_claim_options}
use perfeng_control_plane.Identity.{valid_lease_ttl, valid_retry_delay}
use perfeng_control_plane.Postgres.Tables.{
  RunRow, Database, find_row, find_lease, Weather, transact, add_time,
}
use perfeng_control_plane.Postgres.Candidates.{lock_claim_candidates}
use perfeng_control_plane.Postgres.Claims.{
  acquire_each, claim_runs, lock_owned_claim, set_snapshot, set_expiry, with_delay, renew_claim,
  release_claim, advance_claim,
}
use perfeng_control_plane.Postgres.Runs.{changed, unchanged, on_locked, visible_row}
use perfeng_control_plane.Postgres.Fencing.{Owns, lock_owned_claim-Owns}
use perfeng_control_plane.Postgres.Owner.{bind-ok, advance_owned, advance_owned-ok}
use perfeng_control_plane.Postgres.Renewal.{renew_owned, release_owned}
use perfeng_control_plane.Postgres.Kept.{transact-after}
use perfeng_control_plane.Run.History.{Step}
use perfeng_control_plane.Memory.Later.{Reach-trans}
use perfeng_control_plane.Postgres.Kept.{guard-after}
use perfeng_control_plane.Postgres.Progress.{
  LaterRow, Follows, set_snapshot-Follows, same_runs, expiry-runs, delay-runs, advanced-Follows,
  acquire_each-runs,
}

Follows-refl : (db : Database) → Follows db db
Follows-refl db = same_runs db db refl

LaterRow-trans :
    (row s : RunRow) (o : Option RunRow) → LaterRow row (some s) → LaterRow s o → LaterRow row o
LaterRow-trans row s none h k = k
LaterRow-trans row s (some t) h k = (k.0 ∙ h.0, k.1 ∙ h.1, Reach-trans h.2 k.2)

pub Follows-trans : (a b c : Database) → Follows a b → Follows b c → Follows a c
Follows-trans a b c f g id row found = elim (Option-cases (find_row b id)) [
  | inl gone ↦ absurd (subst (LaterRow row) gone (f id row found))
  | inr (s, e) ↦
      LaterRow-trans row s (find_row c id) (subst (LaterRow row) e (f id row found)) (g id s e)
]

under_lease-Follows {ℓ} :
    {A : Type ℓ} (w : Weather) (db : Database) (l : Lease) (now : ℕ)
    (f : Run → Result (Database × A))
    → ((r : Run) (new : Database) (a : A) → Owns db l now r → f r ≡ ok (new, a) → Follows db new)
    → Follows db (transact w db (lock_owned_claim db l now >>= f)).0
under_lease-Follows w db l now f g =
    transact-after (Follows db) w db (lock_owned_claim db l now >>= f) (Follows-refl db) λ new a h.
      let (r, owned, rest) = bind-ok (lock_owned_claim db l now) f (new, a) h in
      g r new a (lock_owned_claim-Owns db l now r owned) rest

pub claims-Follows :
    (w : Weather) (db : Database) (worker : Text) (limit ttl : ℤ) (locked : List Text) (q : ℕ)
    (clock : ℕ → ℕ) (token : ℕ → Text)
    → Follows db (claim_runs w db worker limit ttl locked q clock token).0
unfolding claim_runs
claims-Follows w db worker limit ttl locked q clock token =
    let s =
      acquire_each worker ttl clock token 0 (db, [])
        (lock_claim_candidates db q locked (pos_part limit)) in
    let e : s.0.runs ≡ db.runs = acquire_each-runs worker ttl clock token 0 db [] _ in
    guard-after (Follows db) (not (valid_claim_options worker limit ttl)) (db, err validation)
      (transact w db (ok s)) (Follows-refl db)
      (transact-after (Follows db) w db (ok s) (Follows-refl db)
        λ new a h. let f : new ≡ s.0 = ground arith in same_runs db new (ap (λ d. d.runs) f ∙ e))

pub renew-Follows :
    (w : Weather) (db : Database) (l : Lease) (ttl : ℤ) (now : ℕ)
    → Follows db (renew_claim w db l ttl now).0
unfolding renew_claim
renew-Follows w db l ttl now =
    guard-after (Follows db) (not (valid_lease l) || not (valid_lease_ttl ttl)) (db, err validation)
      (transact w db (lock_owned_claim db l now >>= renew_owned db l ttl now)) (Follows-refl db)
      (under_lease-Follows w db l now (renew_owned db l ttl now) λ r new a o h.
        let e : new ≡ set_expiry db l.run_id (add_time now ttl) = ground arith in
        same_runs db new (
          ap (λ d. d.runs) e ∙ expiry-runs (add_time now ttl) (find_lease db l.run_id) db l.run_id))

pub release-Follows :
    (w : Weather) (db : Database) (l : Lease) (delay : ℤ) (now : ℕ)
    → Follows db (release_claim w db l delay now).0
unfolding release_claim
release-Follows w db l delay now =
    let t = add_time now delay in
    guard-after (Follows db) (not (valid_lease l) || not (valid_retry_delay delay))
      (db, err validation)
      (transact w db (lock_owned_claim db l now >>= release_owned db l delay now)) (Follows-refl db)
      (under_lease-Follows w db l now (release_owned db l delay now) λ r new a o h.
        let e : new ≡ with_delay now t (find_lease db l.run_id) db l.run_id = ground arith in
        same_runs db new
          (ap (λ d. d.runs) e ∙ delay-runs now t (find_lease db l.run_id) db l.run_id))

pub advance_claim-Follows :
    (w : Weather) (db : Database) (l : Lease) (revision : ℕ) (change : Change) (now : ℕ)
    → Follows db (advance_claim w db l revision change now).0
unfolding advance_claim
advance_claim-Follows w db l revision change now =
    guard-after (Follows db) (not (valid_lease l)) (db, err validation)
      (transact w db (lock_owned_claim db l now >>= advance_owned db l revision change now))
      (Follows-refl db)
      (under_lease-Follows w db l now (advance_owned db l revision change now) λ r new s o h.
        let (moved, e) = advance_owned-ok db new l revision change now r s h in
        let made : transition o.row.snapshot revision change now ≡ ok s = rw (o.snapshot) moved in
        rw e (
          advanced-Follows db l.run_id o.row s now o.found (Step.advance change revision now made)))

unchanged-Follows : (o : Option Error) (db : Database) (r : Run) → Follows db (unchanged o db r).0
unchanged-Follows none db r = Follows-refl db
unchanged-Follows (some e) db r = Follows-refl db

changed-Follows :
    (w : Weather) (db : Database) (j : Text) (row : RunRow) (result : Result Run)
    → find_row db j ≡ some row
    → ((s : Run) → result ≡ ok s → Step row.snapshot s)
    → Follows db (changed w db j row.snapshot result).0
changed-Follows w db j row (err e) found f =
    transact-after {A = Run} (Follows db) w db (err e) (Follows-refl db)
      λ new a h. absurd (ground arith)
changed-Follows w db j row (ok s) found f =
    guard-after (Follows db) (s.revision == row.snapshot.revision)
      (unchanged w.begin db row.snapshot) (transact w db (ok (set_snapshot db j s, s)))
      (unchanged-Follows w.begin db row.snapshot)
      (transact-after (Follows db) w db (ok (set_snapshot db j s, s)) (Follows-refl db) λ new a h.
        let e : new ≡ set_snapshot db j s = ground arith in
        rw e (set_snapshot-Follows db j row s found (f s refl)))

pub on_row-Follows :
    (w : Weather) (db : Database) (principal j : Text) (change : Run → Result Run)
    (o : Option RunRow)
    → find_row db j ≡ o
    → ((r s : Run) → change r ≡ ok s → Step r s)
    → Follows db (on_locked w db j change (visible_row principal o)).0
on_row-Follows w db principal j change none found f =
    transact-after {A = Run} (Follows db) w db (err not_found) (Follows-refl db)
      λ new a h. absurd (ground arith)
on_row-Follows w db principal j change (some row) found f =
    elim (Text-discrete row.principal principal) [
      | yes mine ↦
          let e : visible_row principal (some row) ≡ ok row.snapshot = ground arith in
          rw e (changed-Follows w db j row (change row.snapshot) found (f row.snapshot))
      | no other ↦
          let e : visible_row principal (some row) ≡ err not_found = ground arith in
          rw e (
            transact-after {A = Run} (Follows db) w db (err not_found) (Follows-refl db)
              λ new a h. absurd (ground arith))
    ]
