-- ===== src/Postgres/NativeOwner.antt =====
-- A renewal of a native lease is its owner's, moves the Run by the reported phase, and extends the lease.
use perfeng_control_plane.Base.{
  ℕ, ◌+◌, ◌<◌, ◌≡◌, refl, Bool, true, false, some, arith, ◌∙◌, ap, sym, if◌then◌else◌, not, ◌==◌,
}
use perfeng_control_plane.Base.Maps.{lookup-insert_self}
use perfeng_control_plane.Text.{Text, Text-discrete}
use perfeng_control_plane.Errors.{Error, Result, ok, err, ◌>>=◌, validation}
use perfeng_control_plane.Contract.{cancelling, terminal}
use perfeng_control_plane.Run.{Run}
use perfeng_control_plane.Native.{Phase, Renewal}
use perfeng_control_plane.Postgres.Tables.{RunRow, find_row, NativeRow, Database, Weather, transact}
use mathlib.Core.Path.{subst}
use perfeng_control_plane.Postgres.Owner.{bind-ok, transact-ok}
use perfeng_control_plane.Postgres.NativeLocked
use perfeng_control_plane.Postgres.NativeMoves.{Walk, next_run-Walk, native_run-row, with_run-row}
use perfeng_control_plane.Postgres.NativeRenewal.{
  Request, Scope, find_native, lock_native_renewal_scope, matching_authority, current_native_lease,
  is_cancelling, with_run, next_run, renewed_row, written, answer, checked, malformed, renew_scope,
  renew_native_lease,
}

guards {ℓ} :
    {A : Type ℓ} (a b c d : Bool) (e f g k : Error) (x : Result A) (y : A)
    → (if not a
        then err e
        else if not b
        then err f
        else if c
        then err g
        else if not d
        then err k
        else x)
      ≡ ok y
    → (a ≡ true) × (b ≡ true) × (c ≡ false) × (x ≡ ok y)
guards a b c d e f g k x y h = ground arith

after_guard {ℓ} :
    {A : Type ℓ} (bad : Bool) (db : Database) (e : Error) (x : Database × Result A) {new : Database}
    {a : A}
    → (if bad then (db, err e) else x) ≡ (new, ok a)
    → x ≡ (new, ok a)
after_guard bad db e x h = ground arith

same-revision : (m n : ℕ) → (m == n) ≡ true → m ≡ n
same-revision m n h = ground arith

module _ (sha256 : Text → Text) where
  -- The stored lease is that of the request, by worker, attempt and capability, and not over, and the
  -- Run is active and as the request expects it.
  pub record Fenced (db : Database) (worker_id : Text) (r : Request) (now : ℕ) (s : Scope)
      : Type 0 where
    pub locked : lock_native_renewal_scope db worker_id r.lease_id ≡ ok s
    pub held : current_native_lease sha256 s.stored worker_id r now ≡ true
    pub expected : s.current.revision ≡ r.expected_run_revision
    pub active : terminal s.current.state ≡ false

  -- The row of the Run has the Run as it has moved and is otherwise kept. A CANCELLING Run has not.
  pub record Extended (db new : Database) (worker_id : Text) (r : Request) (ttl grace now : ℕ)
      (s : Scope) (renewal : Renewal) : Type 0 where
    pub next : Run
    pub stepped : next_run s.current r.phase now ≡ ok next
    pub waits : s.current.state ≡ cancelling → next ≡ s.current
    pub row : RunRow
    pub before : find_row db s.run_id ≡ some row
    pub snapshot : row.snapshot ≡ s.current
    pub moved : find_row new s.run_id ≡ some (record row { snapshot = next })
    pub answered : renewal ≡ answer r s next now ttl grace
    pub stored : find_native new s.run_id ≡ some (renewed_row s.stored (now + ttl))
    pub still_held :
        (later : ℕ)
        → later < now + ttl
        → current_native_lease sha256 (renewed_row s.stored (now + ttl)) worker_id r later ≡ true

  renewed-current :
      (row : NativeRow) (worker_id : Text) (r : Request) (now t later : ℕ)
      → current_native_lease sha256 row worker_id r now ≡ true
      → later < t
      → current_native_lease sha256 (renewed_row row t) worker_id r later ≡ true
  unfolding current_native_lease matching_authority
  renewed-current row worker_id r now t later held soon = ground arith

  pub checked-ok :
      (x : Database × Renewal) (new : Database) (renewal : Renewal)
      → checked x ≡ ok (new, renewal)
      → x ≡ (new, renewal)
  checked-ok x new renewal h = ground arith

  written-native :
      (db : Database) (s : Scope) (next : Run) (t : ℕ)
      → find_native (written db s next t) s.run_id ≡ some (renewed_row s.stored t)
  written-native db s next t = lookup-insert_self Text-discrete s.run_id (renewed_row s.stored t) _

  written-run :
      (db : Database) (s : Scope) (row : RunRow) (next : Run) (t : ℕ)
      → find_row db s.run_id ≡ some row
      → row.snapshot ≡ s.current
      → Walk s.current next
      → find_row (written db s next t) s.run_id ≡ some (record row { snapshot = next })
  written-run db s row next t found same walk =
      ap (λ r. find_row (with_run db s.run_id r next) s.run_id) (sym same)
      ∙ with_run-row db s.run_id row next found (subst (λ r. Walk r next) (sym same) walk)

  next_run-cancelling :
      (r next : Run) (phase : Phase) (now : ℕ)
      → next_run r phase now ≡ ok next
      → r.state ≡ cancelling
      → next ≡ r
  unfolding next_run
  next_run-cancelling r next phase now h stopping =
      let at : is_cancelling r.state ≡ true = rw stopping refl in ground (arith, h, at)

  renews-transact :
      (w : Weather) (db new : Database) (worker_id : Text) (r : Request) (ttl grace now : ℕ)
      (renewal : Renewal)
      → renew_native_lease sha256 w db worker_id r ttl grace now ≡ (new, ok renewal)
      → transact w db (
          lock_native_renewal_scope db worker_id r.lease_id
          >>= renew_scope sha256 db worker_id r ttl grace now)
        ≡ (new, ok renewal)
  unfolding renew_native_lease
  renews-transact w db new worker_id r ttl grace now renewal h =
      after_guard (malformed worker_id r ttl grace) db validation _ h

  pub renew_scope-passes :
      (db new : Database) (worker_id : Text) (r : Request) (ttl grace now : ℕ) (s : Scope)
      (renewal : Renewal)
      → renew_scope sha256 db worker_id r ttl grace now s ≡ ok (new, renewal)
      → (current_native_lease sha256 s.stored worker_id r now ≡ true)
        × (s.current.revision ≡ r.expected_run_revision)
        × (terminal s.current.state ≡ false)
        × ((next_run s.current r.phase now >>= λ next.
              checked (written db s next (now + ttl), answer r s next now ttl grace))
            ≡ ok (new, renewal))
  unfolding renew_scope
  renew_scope-passes db new worker_id r ttl grace now s renewal h =
      let (held, same, active, rest) = guards _ _ _ _ _ _ _ _ _ (new, renewal) h in
      (held, same-revision s.current.revision r.expected_run_revision same, active, rest)

  -- A renewal that is answered was made by the owner of a current lease on a Run that is active and at
  -- the revision it expects. The row of the Run then has the Run as the reported phase moves it, or as
  -- it was if it is CANCELLING, and keeps the rest, and the lease is held until the new expiry.
  pub renew_native_lease-Fenced :
      (w : Weather) (db new : Database) (worker_id : Text) (r : Request) (ttl grace now : ℕ)
      (renewal : Renewal)
      → renew_native_lease sha256 w db worker_id r ttl grace now ≡ (new, ok renewal)
      → (s : Scope) × Fenced db worker_id r now s
        × Extended db new worker_id r ttl grace now s renewal
  renew_native_lease-Fenced w db new worker_id r ttl grace now renewal h =
      let body =
        lock_native_renewal_scope db worker_id r.lease_id
        >>= renew_scope sha256 db worker_id r ttl grace now in
      let go = renews-transact w db new worker_id r ttl grace now renewal h in
      let (s, locked, rest) =
        bind-ok (lock_native_renewal_scope db worker_id r.lease_id)
          (renew_scope sha256 db worker_id r ttl grace now) (new, renewal)
          (transact-ok w db new body renewal go) in
      let (held, expected, active, made) =
        renew_scope-passes db new worker_id r ttl grace now s renewal rest in
      let (next, stepped, final) = bind-ok (next_run s.current r.phase now) _ (new, renewal) made in
      let e =
        checked-ok (written db s next (now + ttl), answer r s next now ttl grace) new renewal
          final in
      let walk = next_run-Walk s.current r.phase now next stepped in
      let read = NativeLocked.locked db worker_id r.lease_id s locked in
      let (row, before, snapshot) =
        native_run-row s.run_id (find_row db s.run_id) s.current read.run in
      (
        s,
        record { locked = locked; held = held; expected = expected; active = active },
        record {
          next = next;
          stepped = stepped;
          waits = next_run-cancelling s.current next r.phase now stepped;
          row = row;
          before = before;
          snapshot = snapshot;
          moved =
              ap (λ x. find_row x.0 s.run_id) (sym e)
              ∙ written-run db s row next (now + ttl) before snapshot walk;
          answered = ap (λ x. x.1) (sym e);
          stored =
              ap (λ x. find_native x.0 s.run_id) (sym e) ∙ written-native db s next (now + ttl);
          still_held =
              λ later soon. renewed-current s.stored worker_id r now (now + ttl) later held soon;
        },
      )
