-- ===== src/Refinement/Related.antt =====
-- When tables and a process-local repository stand for the same Runs and bindings.
use perfeng_control_plane.Base.{◌≡◌, ◌≢◌, refl, [], Option, none, some}
unfoldable use perfeng_control_plane.Base.Maps.{lookup}
use perfeng_control_plane.Text.{Text}
unfoldable use perfeng_control_plane.Text.{Text-discrete}
use perfeng_control_plane.Memory.Store.{
  OwnedRun, BindingKey, BindingKey-discrete, Binding, Repository, find_run,
}
unfoldable use perfeng_control_plane.Memory.Store.{new}
use perfeng_control_plane.Postgres.Tables.{RunRow, BindingRow, Database, find_row}
use perfeng_control_plane.Postgres.Acceptance.{Bound, joined}

abbrev pub as_owned : RunRow → OwnedRun
as_owned r = record { principal = r.principal; run = r.snapshot; target = r.target }

abbrev pub owned_row : Option RunRow → Option OwnedRun
owned_row none = none
owned_row (some r) = some (as_owned r)

abbrev pub bound_binding : Option Bound → Option Binding
bound_binding none = none
bound_binding (some b) = some (record {
  accepted = record { run = b.row.original; expires_at = b.row.expires_at };
  target = b.target;
})

abbrev pub bound_at : Repository → BindingKey → Option Binding
bound_at m k = lookup BindingKey-discrete k m.bindings

-- The foreign key of a binding row: its Run is stored under the same principal.
abbrev pub References : Database → BindingKey → BindingRow → Type 0
References db k b = (r : RunRow) × (find_row db b.run_id ≡ some r) × (r.principal ≡ k.principal)

pub record Related (db : Database) (m : Repository) : Type 0 where
  pub runs : (id : Text) → find_run m id ≡ owned_row (find_row db id)
  pub bindings : (k : BindingKey) → bound_at m k ≡ bound_binding (joined db k)
  pub references :
      (k : BindingKey) (b : BindingRow)
      → lookup BindingKey-discrete k db.bindings ≡ some b
      → References db k b
  pub owners : (id : Text) (r : RunRow) → find_row db id ≡ some r → r.principal ≢ []

-- The tables as the migrations leave them.
abbrev pub no_rows : Database
no_rows = record {
  runs = [];
  bindings = [];
  leases = [];
  native_leases = [];
  held = [];
  present = [];
}

pub no_rows-Related : Related no_rows new
unfolding joined new lookup Text-discrete
no_rows-Related = record {
  runs = λ id. refl;
  bindings = λ k. refl;
  references = λ k b e. absurd (cc);
  owners = λ id r e. absurd (cc);
}
