-- ===== src/Refinement/Create.antt =====
-- A create, which writes a Run and its binding, on the two stores.
use perfeng_control_plane.Base.{
  ℕ, [], ◌+◌, ◌*◌, ◌≡◌, ◌≢◌, refl, Option, none, some, arith, ◌∙◌, ap, ite,
}
use perfeng_control_plane.Base.Maps.{lookup, lookup-insert, lookup-insert_self}
use perfeng_control_plane.Text.{Text, Text-discrete}
use perfeng_control_plane.Time.{hour}
use perfeng_control_plane.Run.{Request, ExecutionTarget}
unfoldable use perfeng_control_plane.Run.History.{accepted_run}
use perfeng_control_plane.Memory.Store.{BindingKey, BindingKey-discrete, Repository}
use perfeng_control_plane.Memory.Runs.{acceptance}
unfoldable use perfeng_control_plane.Memory.Runs.{store_run}
use perfeng_control_plane.Postgres.Tables.{RunRow, BindingRow, Database, find_row}
use perfeng_control_plane.Postgres.Acceptance.{join_run, binding_key, with_create}
unfoldable use perfeng_control_plane.Postgres.Acceptance.{joined}
use perfeng_control_plane.Refinement.Related.{References, Related}
use perfeng_control_plane.Refinement.Writes.{find_row-put_row, put_row-runs, put_row-owners}

module _ (db : Database) (principal key id : Text) (request : Request) (target : ExecutionTarget)
    (now : ℕ) where
  abbrev row : RunRow
  row = record { principal = principal; target = target; snapshot = accepted_run id request now }

  abbrev binding : BindingRow
  binding = record {
    run_id = id;
    original = accepted_run id request now;
    expires_at = now + 24 * hour;
  }

  abbrev created : Database
  created = with_create db principal key id request target now

  abbrev new_key : BindingKey
  new_key = binding_key principal key

  find_binding :
      (k : BindingKey)
      → lookup BindingKey-discrete k created.bindings
        ≡ ite
            (BindingKey-discrete new_key k)
            (some binding)
            (lookup BindingKey-discrete k db.bindings)
  find_binding k = lookup-insert BindingKey-discrete new_key k binding db.bindings

  references :
      (k : BindingKey) (b : BindingRow)
      → find_row db id ≡ none
      → (lookup BindingKey-discrete k db.bindings ≡ some b → References db k b)
      → lookup BindingKey-discrete k created.bindings ≡ some b
      → References created k b
  references k b free old e =
      let bound = find_binding k in
      elim (BindingKey-discrete new_key k) [
        | yes same ↦ (
          row,
          ground (arith, find_row-put_row db id b.run_id row),
          ground (arith, ap (λ n. n.principal) same),
        )
        | no other ↦
            let (r, f, p) = old (ground arith) in
            (r, ground (arith, find_row-put_row db id b.run_id row), p)
      ]

  join_kept :
      (k : BindingKey) (o : Option BindingRow)
      → find_row db id ≡ none
      → ((b : BindingRow) → o ≡ some b → References db k b)
      → join_run created k.principal o ≡ join_run db k.principal o
  join_kept k none free old = refl
  join_kept k (some b) free old =
      let (r, f, p) = old b refl in ground (arith, find_row-put_row db id b.run_id row)

  joined-created :
      (k : BindingKey)
      → find_row db id ≡ none
      → ((b : BindingRow) → lookup BindingKey-discrete k db.bindings ≡ some b → References db k b)
      → joined created k
        ≡ ite
            (BindingKey-discrete new_key k)
            (some (record { row = binding; target = target }))
            (joined db k)
  unfolding joined
  joined-created k free old =
      let kept = join_kept k (lookup BindingKey-discrete k db.bindings) free old in
      let stored = lookup-insert_self Text-discrete id row db.runs in
      ap (join_run created k.principal) (find_binding k)
      ∙ elim (BindingKey-discrete new_key k)
          as (λ d.
            join_run created k.principal
              (ite d (some binding) (lookup BindingKey-discrete k db.bindings))
            ≡ ite d (some (record { row = binding; target = target })) (joined db k)) [
              | yes same ↦ rw stored (ground (arith, ap (λ n. n.principal) same))
              | no other ↦ kept
            ]

  pub create-Related :
      (m : Repository)
      → principal ≢ []
      → Related db m
      → find_row db id ≡ none
      → Related created (store_run m principal key (acceptance id request now) target)
  unfolding store_run accepted_run
  create-Related m owner R free = record {
    runs = λ j. put_row-runs db m id j row (R.runs j);
    bindings = λ k.
        rw
          (
            joined-created k free (R.references k),
            lookup-insert BindingKey-discrete new_key k
                (record { accepted = acceptance id request now; target = target }) m.bindings,
          )
          (ground (arith, R.bindings k));
    references = λ k b e. references k b free (R.references k b) e;
    owners = λ j s e. put_row-owners db id j row s owner (R.owners j s) e;
  }
