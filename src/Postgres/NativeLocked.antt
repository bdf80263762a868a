-- ===== src/Postgres/NativeLocked.antt =====
-- What the lock of a native lease has read, and what a write of its rows keeps of it
-- (internal/postgres/native_renewals.go, native_releases.go).
use perfeng_control_plane.Base.{
  ℕ, ◌≡◌, refl, Bool, true, false, List, [], ◌∷◌, Option, none, some, arith, ◌∙◌, sym, ◌==◌, inl,
  inr, Bool-cases, if◌then◌else◌,
}
unfoldable use perfeng_control_plane.Base.Maps.{lookup, insert}
use perfeng_control_plane.Base.Maps.{lookup-insert_self}
use perfeng_control_plane.Text.{Text, Text-discrete}
use perfeng_control_plane.Errors.{Error, Result, ok, err, lease_gone}
use perfeng_control_plane.Contract.{aborted}
use perfeng_control_plane.Run.{Run, to_state, moved}
use perfeng_control_plane.Run.Valid.{transition-Passes}
use perfeng_control_plane.Postgres.Tables.{RunRow, NativeRow, Database, find_row, member}
use perfeng_control_plane.Postgres.Claims.{set_snapshot}
use perfeng_control_plane.Postgres.Owner.{bind-ok}
use perfeng_control_plane.Postgres.NativeRenewal.{
  Scope, find_native, lock_rows, native_run, native_row, with_run,
}
unfoldable use perfeng_control_plane.Postgres.NativeRenewal.{
  native_lease_location, lock_native_renewal_scope,
}
use perfeng_control_plane.Postgres.NativeRelease.{ReleaseReason}
unfoldable use perfeng_control_plane.Postgres.NativeRelease.{released_native_run}

-- A row that keeps its lease and its worker is found where it was.
pub location-insert :
    (rows : List (Text × NativeRow)) (id lease_id : Text) (old row : NativeRow)
    → lookup Text-discrete id rows ≡ some old
    → row.lease_id ≡ old.lease_id
    → row.worker_id ≡ old.worker_id
    → native_lease_location (insert Text-discrete id row rows) lease_id
      ≡ native_lease_location rows lease_id
unfolding lookup insert native_lease_location
location-insert [] id lease_id old row at l w = ground arith
location-insert ((j, r) ∷ rows) id lease_id old row at l w =
    let later = location-insert rows id lease_id old row in ground arith

past {ℓ} :
    {A : Type ℓ} (bad : Bool) (e : Error) (x : Result A) (y : A)
    → (if bad then err e else x) ≡ ok y
    → (bad ≡ false) × (x ≡ ok y)
past bad e x y h = ground arith

-- What the lock of a lease has read.
pub record Locked (db : Database) (worker_id lease_id : Text) (s : Scope) : Type 0 where
  pub located : native_lease_location db.native_leases lease_id ≡ ok (s.run_id, worker_id)
  pub known : member worker_id db.present ≡ true
  pub run : native_run s.run_id (find_row db s.run_id) ≡ ok s.current
  pub lease : find_native db s.run_id ≡ some s.stored

pub locked :
    (db : Database) (worker_id lease_id : Text) (s : Scope)
    → lock_native_renewal_scope db worker_id lease_id ≡ ok s
    → Locked db worker_id lease_id s
unfolding lock_native_renewal_scope
locked db worker_id lease_id s h =
    let ((id, holder), at, rest) =
      bind-ok (native_lease_location db.native_leases lease_id) _ s h in
    let (fine, found) = past _ lease_gone (lock_rows db id) s rest in
    let (r, run, more) = bind-ok (native_run id (find_row db id)) _ s found in
    let (row, lease, built) = bind-ok (native_row (find_native db id)) _ s more in
    let scope : record { run_id = id; current = r; stored = row } ≡ s = ground arith in
    let held : find_native db id ≡ some row = ground arith in
    rw (sym scope)
      (record { located = at ∙ ground arith; known = ground arith; run = run; lease = held })

pub Locked-lock :
    (db : Database) (worker_id lease_id : Text) (s : Scope)
    → Locked db worker_id lease_id s
    → lock_native_renewal_scope db worker_id lease_id ≡ ok s
unfolding lock_native_renewal_scope
Locked-lock db worker_id lease_id s l = rw (l.located, l.known, l.run, l.lease) (ground arith)

-- The transition of a release keeps the identifier.
pub released_native_run-id :
    (r : Run) (reason : ReleaseReason) (now : ℕ) (next : Run)
    → released_native_run r reason now ≡ ok next
    → next.id ≡ r.id
unfolding released_native_run moved
released_native_run-id r reason now next h =
    let moves = transition-Passes r r.revision (to_state aborted) now {s = next} in
    ground (arith, moves)

pub with_run-tables :
    (db : Database) (id : Text) (current next : Run)
    → ((with_run db id current next).native_leases ≡ db.native_leases)
      × ((with_run db id current next).present ≡ db.present)
with_run-tables db id current next = ground arith

set_snapshot-run :
    (db : Database) (id : Text) (current next : Run) (o : Option RunRow)
    → find_row db id ≡ o
    → native_run id o ≡ ok current
    → next.id ≡ current.id
    → native_run id (find_row (set_snapshot db id next) id) ≡ ok next
set_snapshot-run db id current next none at run same = absurd (ground arith)
set_snapshot-run db id current next (some row) at run same =
    rw (at, lookup-insert_self Text-discrete id (record row { snapshot = next }) db.runs)
      (ground arith)

pub with_run-run :
    (db : Database) (id : Text) (current next : Run)
    → native_run id (find_row db id) ≡ ok current
    → next.id ≡ current.id
    → (r : Run) × (native_run id (find_row (with_run db id current next) id) ≡ ok r)
with_run-run db id current next at same = elim (Bool-cases (next.revision == current.revision)) [
  | inl e ↦ (current, rw (e, with_run) at)
  | inr e ↦
      (next, rw (e, with_run) (set_snapshot-run db id current next (find_row db id) refl at same))
]
