-- ===== src/Postgres/NativeWrites.antt =====
-- What any outcome of a renewal or a release of a native lease may have written
-- (internal/postgres/native_renewals.go, native_releases.go).
use perfeng_control_plane.Base.{
  ℕ, ◌+◌, ◌≡◌, refl, Bool, true, false, Option, none, some, arith, ◌∙◌, ap, sym, not, ◌||◌, ◌==◌,
  ltb, is_none, if◌then◌else◌,
}
use mathlib.Core.Path.{subst}
use perfeng_control_plane.Text.{Text, text_eq}
use perfeng_control_plane.Errors.{
  Error, Result, ok, err, ◌>>=◌, validation, conflict, stale_revision, lease_gone,
}
use perfeng_control_plane.Contract.{terminal}
use perfeng_control_plane.Run.{Run}
use perfeng_control_plane.Postgres.Tables.{
  RunRow, NativeRow, LeaseRow, Database, find_row, find_lease, Weather, begun, transact,
}
use perfeng_control_plane.Postgres.Claims.{set_snapshot}
use perfeng_control_plane.Postgres.Owner.{bind-ok}
use perfeng_control_plane.Postgres.Kept.{guard-after, transact-after, set_snapshot-kept}
use perfeng_control_plane.Postgres.Progress.{Follows}
use perfeng_control_plane.Postgres.NativeRenewal.{
  Request, Scope, lock_native_renewal_scope, matching_authority, next_run, with_run, renewed_row,
  written, answer, malformed, valid_native_worker, renew_scope, renew_native_lease,
}
use perfeng_control_plane.Postgres.NativeRelease.{
  ReleaseRequest, released_native_run, released_row, put_native, reason_text, string_of,
  valid_release, repeated, first_release, release_scope, release_native_lease,
}
use perfeng_control_plane.Postgres.NativeLocked
use perfeng_control_plane.Postgres.NativeOwner.{renew_scope-passes, checked-ok}
use perfeng_control_plane.Postgres.NativeMoves.{
  Walk, next_run-Walk, released_native_run-Walk, native_run-row, with_run-Follows,
}

-- What the two operations write when they write: the Run as it has walked, and the row of the lease.
abbrev native_write : Database → Text → Run → Run → NativeRow → Database
native_write db id current next row = put_native (with_run db id current next) id row

-- A property of the tables that every such write keeps.
abbrev Writes : (Database → Type 0) → Database → Type 0
Writes P db =
    (id : Text) (row : RunRow) (next : Run) (lease : NativeRow)
    → find_row db id ≡ some row
    → Walk row.snapshot next
    → P (native_write db id row.snapshot next lease)

begun-after {ℓ} :
    {A : Type ℓ} (P : Database → Type 0) (o : Option Error) (db : Database)
    (p : Database × Result A)
    → P db
    → P p.0
    → P (begun o db p).0
begun-after P none db p old new = new
begun-after P (some e) db p old new = old

ok_tables {ℓ} : {A : Type ℓ} {x y : Database × A} → ok x ≡ ok y → x.0 ≡ y.0
ok_tables h = ground (arith, h)

guard_lease :
    (b : Bool) (db : Database) (j id : Text) (next : Run) (row : LeaseRow)
    → find_lease db j ≡ some row
    → find_lease (if b then db else set_snapshot db id next) j ≡ some row
guard_lease true db j id next row kept = kept
guard_lease false db j id next row kept = set_snapshot-kept db id j next (find_row db id) ∙ kept

module _ (P : Database → Type 0) (db : Database) (old : P db) (writes : Writes P db) where
  scope-after :
      (worker_id lease_id : Text) (s : Scope) (next : Run) (lease : NativeRow)
      → lock_native_renewal_scope db worker_id lease_id ≡ ok s
      → Walk s.current next
      → P (native_write db s.run_id s.current next lease)
  scope-after worker_id lease_id s next lease at walk =
      let read = NativeLocked.locked db worker_id lease_id s at in
      let (row, found, same) = native_run-row s.run_id (find_row db s.run_id) s.current read.run in
      subst (λ r. P (native_write db s.run_id r next lease)) same
        (writes s.run_id row next lease found (subst (λ r. Walk r next) (sym same) walk))

  module _ (sha256 : Text → Text) (w : Weather) (worker_id : Text) where
    pub renew_native_lease-after :
        (r : Request) (ttl grace now : ℕ)
        → P (renew_native_lease sha256 w db worker_id r ttl grace now).0
    unfolding renew_native_lease
    renew_native_lease-after r ttl grace now =
        let body =
          lock_native_renewal_scope db worker_id r.lease_id
          >>= renew_scope sha256 db worker_id r ttl grace now in
        guard-after P (malformed worker_id r ttl grace) (db, err validation) (transact w db body)
          old
          (transact-after P w db body old λ new renewal h.
            let (s, at, rest) =
              bind-ok (lock_native_renewal_scope db worker_id r.lease_id)
                (renew_scope sha256 db worker_id r ttl grace now) (new, renewal) h in
            let (_, _, _, made) =
              renew_scope-passes sha256 db new worker_id r ttl grace now s renewal rest in
            let (next, stepped, final) =
              bind-ok (next_run s.current r.phase now) _ (new, renewal) made in
            let e =
              checked-ok sha256 (written db s next (now + ttl), answer r s next now ttl grace) new
                renewal final in
            subst P (ap (λ x. x.0) e) (
              scope-after worker_id r.lease_id s next (renewed_row s.stored (now + ttl)) at
                (next_run-Walk s.current r.phase now next stepped)))

    first_release-after :
        (r : ReleaseRequest) (now : ℕ) (s : Scope)
        → lock_native_renewal_scope db worker_id r.lease_id ≡ ok s
        → P (first_release w db s r now).0
    first_release-after r now s at =
        let stale = not (s.current.revision == r.expected_run_revision) in
        let put = λ (next : Run).
          ok (native_write db s.run_id s.current next (released_row s.stored r now), tt) in
        let body : Result (Database × Unit {0}) =
          released_native_run s.current r.reason now >>= put in
        guard-after P (not (ltb now s.stored.expires_at) || terminal s.current.state)
          (db, err lease_gone) (if stale then (db, err stale_revision) else transact w db body) old
          (guard-after P stale (db, err stale_revision) (transact w db body) old
            (transact-after P w db body old λ new a h.
              let (next, moves, e) =
                bind-ok (released_native_run s.current r.reason now) put (new, a) h in
              subst P (ok_tables e) (
                scope-after worker_id r.lease_id s next (released_row s.stored r now) at
                  (released_native_run-Walk s.current r.reason now next moves))))

    release_scope-after :
        (r : ReleaseRequest) (now : ℕ) (o : Result Scope)
        → lock_native_renewal_scope db worker_id r.lease_id ≡ o
        → P (release_scope sha256 w db worker_id r now o).0
    unfolding release_scope
    release_scope-after r now (err e) at = old
    release_scope-after r now (ok s) at =
        let known = not (is_none s.stored.released_at) in
        let first = first_release w db s r now in
        let again = text_eq (string_of s.stored.release_reason) (reason_text r.reason) in
        guard-after P
          (not (matching_authority sha256 s.stored worker_id r.lease_id r.attempt_id r.capability))
          (db, err lease_gone) (if known then repeated db s.stored r.reason else first) old
          (guard-after P known (repeated db s.stored r.reason) first
            (guard-after {A = Result (Unit {0})} P again (db, ok tt) (db, err conflict) old old)
            (first_release-after r now s at))

    pub release_native_lease-after :
        (r : ReleaseRequest) (now : ℕ) → P (release_native_lease sha256 w db worker_id r now).0
    unfolding release_native_lease
    release_native_lease-after r now =
        let locked = lock_native_renewal_scope db worker_id r.lease_id in
        let p = release_scope sha256 w db worker_id r now locked in
        guard-after P (not (valid_native_worker worker_id) || not (valid_release r))
          (db, err validation) (begun w.begin db p) old
          (begun-after P w.begin db p old (release_scope-after r now locked refl))

pub native_write-Follows : (db : Database) → Writes (Follows db) db
native_write-Follows db id row next lease found walk = with_run-Follows db id row next found walk

pub native_write-kept :
    (db : Database) (j : Text) (row : LeaseRow)
    → find_lease db j ≡ some row
    → Writes (λ d. find_lease d j ≡ some row) db
native_write-kept db j row kept id r next lease found walk =
    guard_lease (next.revision == r.snapshot.revision) db j id next row kept
