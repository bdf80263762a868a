-- ===== src/Postgres/Promise.antt =====
-- What the transactions promise to the client of a Run and to the holder of its lease.
use perfeng_control_plane.Base.{
  ℕ, false, ◌<◌, ◌≡◌, refl, List, [], ◌∷◌, some, arith, inl, inr, ◌∙◌, sym, Option-cases,
}
use mathlib.Core.Path.{subst}
use perfeng_control_plane.Errors.{ok}
use perfeng_control_plane.Contract.{terminal}
use perfeng_control_plane.Run.{Run, transition, request_cancellation}
use perfeng_control_plane.Run.Claims.{Lease}
use perfeng_control_plane.Postgres.Tables.{LeaseRow, Database, find_row, find_lease}
use perfeng_control_plane.Postgres.Claims.{lock_owned_claim}
use perfeng_control_plane.Postgres.Runs.{cancel, advance, mutate, locked_run}
use perfeng_control_plane.Postgres.Fencing.{lock_owned_claim-Owns}
use perfeng_control_plane.Postgres.Owner.{read_back, same_as_owned}
use perfeng_control_plane.Postgres.Transactions.{
  Transaction, claims, renews, releases, advances_claim, cancels, advances, creates, renews_native,
  releases_native, commit, history, AllForeign,
}
use perfeng_control_plane.Run.History.{Step, Reach}
use perfeng_control_plane.Postgres.Holding.{history-kept}
use perfeng_control_plane.Postgres.Progress.{LaterRow, Follows, same_runs}
use perfeng_control_plane.Postgres.Fencing.{keeps}
use perfeng_control_plane.Postgres.Creates.{accept-Follows}
use perfeng_control_plane.Postgres.NativeWrites.{
  renew_native_lease-after, release_native_lease-after, native_write-Follows,
}
use perfeng_control_plane.Postgres.Advances.{
  claims-Follows, renew-Follows, release-Follows, advance_claim-Follows, on_row-Follows,
  Follows-trans,
}

commit-Follows : (db : Database) (t : Transaction) → Follows db (commit db t)
unfolding commit cancel advance mutate locked_run
commit-Follows db (claims w worker limit ttl locked q clock token) =
    claims-Follows w db worker limit ttl locked q clock token
commit-Follows db (renews w l ttl now) = renew-Follows w db l ttl now
commit-Follows db (releases w l delay now) = release-Follows w db l delay now
commit-Follows db (advances_claim w l revision change now) =
    advance_claim-Follows w db l revision change now
commit-Follows db (cancels w principal j now) =
    on_row-Follows w db principal j (λ r. request_cancellation r now) (find_row db j) refl
      λ r s h. Step.cancel now h
commit-Follows db (advances w principal j revision change now) =
    on_row-Follows w db principal j (λ r. transition r revision change now) (find_row db j) refl
      λ r s h. Step.advance change revision now h
commit-Follows db (creates w now draw principal key request target) =
    accept-Follows w db now draw principal key request target
commit-Follows db (renews_native sha256 w worker_id r ttl grace now) =
    renew_native_lease-after (Follows db) db (same_runs db db refl) (native_write-Follows db) sha256
      w worker_id r ttl grace now
commit-Follows db (releases_native sha256 w worker_id r now) =
    release_native_lease-after (Follows db) db (same_runs db db refl) (native_write-Follows db)
      sha256 w worker_id r now

-- Through any sequence of claims, renewals and releases of leases, transitions with or without a lease,
-- cancellations, creates, and renewals and releases of native leases, and however each of them
-- ends, a stored Run keeps its principal and its target and only moves along its lifecycle.
pub history-Follows : (db : Database) (ts : List Transaction) → Follows db (history db ts)
unfolding history
history-Follows db [] = same_runs db db refl
history-Follows db (t ∷ ts) =
    Follows-trans db (commit db t) (history (commit db t) ts) (commit-Follows db t)
      (history-Follows (commit db t) ts)

-- A lease that is owned stays owned until it expires through any transactions that are not its
-- owner's and that claim before it expires: claims by others, renewals, releases and transitions
-- under other leases, creates, cancellations, transitions outside a lease, and renewals and releases of
-- native leases. Its owner then sees the Run as
-- it is stored, which is a later one of the same lifecycle, unless that is terminal.
pub lease_held :
    (db : Database) (l : Lease) (now later : ℕ) (r : Run) (row : LeaseRow) (ts : List Transaction)
    → lock_owned_claim db l now ≡ ok r
    → find_lease db l.run_id ≡ some row
    → AllForeign l.run_id row ts
    → later < row.expires_at
    → (s : Run) × Reach r s
      × (locked_run (history db ts) l.principal l.run_id ≡ ok s)
      × (terminal s.state ≡ false → lock_owned_claim (history db ts) l later ≡ ok s)
lease_held db l now later r row ts h at foreign soon =
    let o = lock_owned_claim-Owns db l now r h in
    let kept = history-kept l.run_id row db ts foreign at in
    let run = history-Follows db ts l.run_id o.row o.found in
    elim (Option-cases (find_row (history db ts) l.run_id)) [
      | inl gone ↦ absurd (subst (LaterRow o.row) gone run)
      | inr (s, found) ↦
          let (principal, _, moved) = subst (LaterRow o.row) found run in
          let same : some o.stored ≡ some row = sym o.kept ∙ at in
          let back =
            read_back (history db ts) l.run_id l.principal s s.snapshot found
              (principal ∙ o.mine) in
          let mine = same_as_owned (history db ts) l.principal l.run_id s.snapshot back in
          (
            s.snapshot,
            subst (λ x. Reach x s.snapshot) o.snapshot moved,
            back,
            λ active.
                keeps (history db ts) l later s.snapshot row mine kept
                  (grind (arith, same, o.worker)) (grind (arith, same, o.same_token)) soon
                  (rw active refl),
          )
    ]
