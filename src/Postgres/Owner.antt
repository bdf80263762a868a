-- ===== src/Postgres/Owner.antt =====
-- A transition under a lease.
use perfeng_control_plane.Base.{
  ℕ, ◌≤◌, ◌≡◌, refl, true, false, some, arith, ◌⊎◌, inl, inr, ◌∙◌, Bool-cases, sym,
}
use mathlib.Core.Path.{subst}
use perfeng_control_plane.Base.Maps.{lookup-insert_self}
use perfeng_control_plane.Text.{Text, Text-discrete}
use perfeng_control_plane.Errors.{Error, Result, ok, err, ◌>>=◌, lease_lost}
use perfeng_control_plane.Contract.{terminal}
use perfeng_control_plane.Run.{Run, Change, transition}
use perfeng_control_plane.Run.Claims.{Lease}
use perfeng_control_plane.Postgres.Tables.{
  RunRow, LeaseRow, Database, find_row, find_lease, Weather, uncertain, transact,
}
use perfeng_control_plane.Postgres.Claims.{owned_row, lock_owned_claim, advanced, advance_claim}
use perfeng_control_plane.Postgres.Runs.{locked_run}
use perfeng_control_plane.Postgres.Fencing.{Owns, lock_owned_claim-Owns, lost, keeps}

-- A transaction that answers without an error has committed its body.
pub transact-ok {ℓ} :
    {A : Type ℓ} (w : Weather) (db new : Database) (body : Result (Database × A)) (a : A)
    → transact w db body ≡ (new, ok a)
    → body ≡ ok (new, a)
unfolding transact
transact-ok w db new body a h = ground arith

-- One that answers with an error has changed nothing, or its commit lost the answer.
pub transact-err {ℓ} :
    {A : Type ℓ} (w : Weather) (db new : Database) (body : Result (Database × A)) (e : Error)
    → transact w db body ≡ (new, err e)
    → (new ≡ db) ⊎ (w.commit ≡ uncertain e)
unfolding transact
transact-err w db new body e h = ground arith

pub bind-ok {ℓ ℓ'} :
    {A : Type ℓ} {B : Type ℓ'} (o : Result A) (f : A → Result B) (b : B)
    → (o >>= f) ≡ ok b
    → (a : A) × (o ≡ ok a) × (f a ≡ ok b)
bind-ok (ok a) f b h = (a, refl, h)
bind-ok (err e) f b h = absurd (ground arith)

-- What a transition writes, given the two rows of the Run.
advanced-final :
    (db : Database) (id : Text) (row : RunRow) (stored : LeaseRow) (next : Run) (now : ℕ)
    → find_row db id ≡ some row
    → find_lease db id ≡ some stored
    → terminal next.state ≡ true
    → (find_row (advanced db id next now) id ≡ some (record row { snapshot = next }))
      × (find_lease (advanced db id next now) id ≡ some (record stored { expires_at = now }))
advanced-final db id row stored next now found kept final =
    rw (found, final, kept)
      (
        lookup-insert_self Text-discrete id (record row { snapshot = next }) db.runs,
        lookup-insert_self Text-discrete id (record stored { expires_at = now }) db.leases,
      )

advanced-active :
    (db : Database) (id : Text) (row : RunRow) (next : Run) (now : ℕ)
    → find_row db id ≡ some row
    → terminal next.state ≡ false
    → (find_row (advanced db id next now) id ≡ some (record row { snapshot = next }))
      × (find_lease (advanced db id next now) id ≡ find_lease db id)
advanced-active db id row next now found active =
    rw (found, active)
      (lookup-insert_self Text-discrete id (record row { snapshot = next }) db.runs, refl)

pub read_back :
    (db : Database) (id principal : Text) (row : RunRow) (next : Run)
    → find_row db id ≡ some (record row { snapshot = next })
    → row.principal ≡ principal
    → locked_run db principal id ≡ ok next
unfolding locked_run
read_back db id principal row next found mine = rw (found) (ground arith)

pub same_as_owned :
    (db : Database) (principal id : Text) (r : Run)
    → locked_run db principal id ≡ ok r
    → owned_row principal (find_row db id) ≡ ok r
unfolding locked_run
same_as_owned db principal id r h = ground arith

abbrev Written : Database → Lease → Run → ℕ → Type 0
Written new l next now =
    (locked_run new l.principal l.run_id ≡ ok next)
    × (terminal next.state ≡ true
        → (later : ℕ) → now ≤ later
        → lock_owned_claim new l later ≡ err lease_lost)
    × (terminal next.state ≡ false → lock_owned_claim new l now ≡ ok next)

advanced-Written :
    (db : Database) (l : Lease) (now : ℕ) (r next : Run)
    → Owns db l now r
    → Written (advanced db l.run_id next now) l next now
advanced-Written db l now r next o = elim (Bool-cases (terminal next.state)) [
  | inl final ↦
      let (a, b) = advanced-final db l.run_id o.row o.stored next now o.found o.kept final in
      (
        read_back _ _ _ o.row next a o.mine,
        λ _ later le. lost _ l later _ b (inr le),
        λ active. absurd (grind (arith, final, active)),
      )
  | inr active ↦
      let (a, b) = advanced-active db l.run_id o.row next now o.found active in
      let back = read_back _ _ _ o.row next a o.mine in
      (
        back,
        λ final. absurd (grind (arith, final, active)),
        λ _.
            keeps _ l now next o.stored (same_as_owned _ _ _ next back) (b ∙ o.kept) o.worker
              o.same_token o.current (rw active refl),
      )
]

abbrev pub advance_owned : Database → Lease → ℕ → Change → ℕ → Run → Result (Database × Run)
advance_owned db l revision change now r =
    transition r revision change now >>= λ next. ok (advanced db l.run_id next now, next)

pub advance_owned-ok :
    (db new : Database) (l : Lease) (revision : ℕ) (change : Change) (now : ℕ) (r next : Run)
    → advance_owned db l revision change now r ≡ ok (new, next)
    → (transition r revision change now ≡ ok next) × (new ≡ advanced db l.run_id next now)
advance_owned-ok db new l revision change now r next h = ground arith

advance_claim-transact :
    (w : Weather) (db new : Database) (l : Lease) (revision : ℕ) (change : Change) (now : ℕ)
    (next : Run)
    → advance_claim w db l revision change now ≡ (new, ok next)
    → transact w db (lock_owned_claim db l now >>= advance_owned db l revision change now)
      ≡ (new, ok next)
unfolding advance_claim
advance_claim-transact w db new l revision change now next h = ground arith

advance_claim-writes :
    (w : Weather) (db new : Database) (l : Lease) (revision : ℕ) (change : Change) (now : ℕ)
    (next : Run)
    → advance_claim w db l revision change now ≡ (new, ok next)
    → (r : Run) × (lock_owned_claim db l now ≡ ok r)
      × (transition r revision change now ≡ ok next)
      × (new ≡ advanced db l.run_id next now)
advance_claim-writes w db new l revision change now next h =
    let body = lock_owned_claim db l now >>= advance_owned db l revision change now in
    let go = advance_claim-transact w db new l revision change now next h in
    let (r, owned, rest) =
      bind-ok (lock_owned_claim db l now) (advance_owned db l revision change now) (new, next)
        (transact-ok w db new body next go) in
    let (moved, e) = advance_owned-ok db new l revision change now r next rest in
    (r, owned, moved, e)

-- A transition that is answered was made on the Run as the lease owns it, and is what is stored. A
-- terminal one ends the lease for good, any other leaves it owned.
pub advance_claim-fenced :
    (w : Weather) (db new : Database) (l : Lease) (revision : ℕ) (change : Change) (now : ℕ)
    (next : Run)
    → advance_claim w db l revision change now ≡ (new, ok next)
    → ((r : Run) × (lock_owned_claim db l now ≡ ok r)
        × (transition r revision change now ≡ ok next))
      × (locked_run new l.principal l.run_id ≡ ok next)
      × (terminal next.state ≡ true
          → (later : ℕ) → now ≤ later
          → lock_owned_claim new l later ≡ err lease_lost)
      × (terminal next.state ≡ false → lock_owned_claim new l now ≡ ok next)
advance_claim-fenced w db new l revision change now next h =
    let (r, owned, moved, e) = advance_claim-writes w db new l revision change now next h in
    let written = advanced-Written db l now r next (lock_owned_claim-Owns db l now r owned) in
    let (back, final, active) = subst (λ d. Written d l next now) (sym e) written in
    ((r, owned, moved), back, final, active)
