-- ===== src/Refinement/Writes.antt =====
-- The writes of the two stores, side by side.
use perfeng_control_plane.Base.{[], ◌≡◌, ◌≢◌, refl, Option, none, some, arith, ◌∙◌, ap, sym, ite}
use perfeng_control_plane.Base.Maps.{lookup, insert, lookup-insert}
use perfeng_control_plane.Text.{Text, Text-discrete}
use perfeng_control_plane.Memory.Store.{
  OwnedRun, BindingKey, BindingKey-discrete, Repository, find_run,
}
use perfeng_control_plane.Postgres.Tables.{RunRow, BindingRow, Database, find_row}
use perfeng_control_plane.Postgres.Acceptance.{joined, join_run}
use perfeng_control_plane.Refinement.Related.{
  as_owned, owned_row, bound_binding, References, Related,
}

abbrev pub put_row : Database → Text → RunRow → Database
put_row db id r = record db { runs = insert Text-discrete id r db.runs }

abbrev pub put_owned : Repository → Text → OwnedRun → Repository
put_owned m id o = record m { runs = insert Text-discrete id o m.runs }

pub find_row-put_row :
    (db : Database) (id j : Text) (r : RunRow)
    → find_row (put_row db id r) j ≡ ite (Text-discrete id j) (some r) (find_row db j)
find_row-put_row db id j r = lookup-insert Text-discrete id j r db.runs

pub put_row-runs :
    (db : Database) (m : Repository) (id j : Text) (r : RunRow)
    → find_run m j ≡ owned_row (find_row db j)
    → find_run (put_owned m id (as_owned r)) j ≡ owned_row (find_row (put_row db id r) j)
put_row-runs db m id j r same =
    rw (find_row-put_row db id j r, lookup-insert Text-discrete id j (as_owned r) m.runs)
      (ground (arith, same))

put_row-join_run :
    (db : Database) (id principal : Text) (old r : RunRow) (o : Option BindingRow)
    → find_row db id ≡ some old
    → r.principal ≡ old.principal
    → r.target ≡ old.target
    → join_run (put_row db id r) principal o ≡ join_run db principal o
put_row-join_run db id principal old r none at p t = refl
put_row-join_run db id principal old r (some b) at p t =
    rw (find_row-put_row db id b.run_id r) (ground arith)

-- A row that keeps its principal and its target joins as before.
put_row-joined :
    (db : Database) (id : Text) (old r : RunRow) (k : BindingKey)
    → find_row db id ≡ some old
    → r.principal ≡ old.principal
    → r.target ≡ old.target
    → joined (put_row db id r) k ≡ joined db k
unfolding joined
put_row-joined db id old r k at p t =
    put_row-join_run db id k.principal old r (lookup BindingKey-discrete k db.bindings) at p t

put_row-References :
    (db : Database) (id : Text) (old r : RunRow) (k : BindingKey) (b : BindingRow)
    → find_row db id ≡ some old
    → r.principal ≡ old.principal
    → References db k b
    → References (put_row db id r) k b
put_row-References db id old r k b at p (q, f, h) =
    let kept = find_row-put_row db id b.run_id r in
    elim (Text-discrete id b.run_id) [
      | yes e ↦ (r, ground (arith, kept), ground arith)
      | no n ↦ (q, ground (arith, kept), h)
    ]

pub put_row-owners :
    (db : Database) (id j : Text) (r s : RunRow)
    → r.principal ≢ []
    → (find_row db j ≡ some s → s.principal ≢ [])
    → find_row (put_row db id r) j ≡ some s
    → s.principal ≢ []
put_row-owners db id j r s owned others e = ground (arith, find_row-put_row db id j r)

-- The write of a Run that keeps its principal and its target.
pub put_row-Related :
    {db : Database} {m : Repository} (id : Text) (old r : RunRow)
    → Related db m
    → find_row db id ≡ some old
    → r.principal ≡ old.principal
    → r.target ≡ old.target
    → Related (put_row db id r) (put_owned m id (as_owned r))
put_row-Related {db} {m} id old r R at p t = record {
  runs = λ j. put_row-runs db m id j r (R.runs j);
  bindings = λ k. R.bindings k ∙ ap bound_binding (sym (put_row-joined db id old r k at p t));
  references = λ k b e. put_row-References db id old r k b at p (R.references k b e);
  owners = λ j s e. put_row-owners db id j r s (rw p (R.owners id old at)) (R.owners j s) e;
}
