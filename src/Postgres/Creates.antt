-- ===== src/Postgres/Creates.antt =====
-- What a create does to the tables: nothing, or the rows of a new Run and its binding.
use perfeng_control_plane.Base.{ℕ, ◌≡◌, ◌≢◌, refl, Option, none, some, arith, ◌∙◌, sym, ap}
use perfeng_control_plane.Base.Maps.{lookup-insert_ne}
use perfeng_control_plane.Text.{Text, Text-discrete}
use perfeng_control_plane.Errors.{Error, Result, err, validation}
use perfeng_control_plane.Run.{Request, ExecutionTarget}
use perfeng_control_plane.Memory.Runs.{run_id, refused_create}
use perfeng_control_plane.Postgres.Tables.{RunRow, Database, find_row, Weather, begun, transact}
use perfeng_control_plane.Postgres.Acceptance.{
  Bound, joined, live_bound, binding_key, with_create, at_bound,
}
unfoldable use perfeng_control_plane.Postgres.Acceptance.{insert_create, accept}
use perfeng_control_plane.Postgres.Kept.{transact-after}
use perfeng_control_plane.Postgres.Kept.{guard-after}
use perfeng_control_plane.Postgres.Progress.{Follows, stays, same_runs}

begun-after {ℓ} :
    {A : Type ℓ} (P : Database → Type 0) (o : Option Error) (db : Database)
    (answer : Database × Result A)
    → P db
    → P answer.0
    → P (begun o db answer).0
begun-after P none db answer kept after = after
begun-after P (some e) db answer kept after = kept

clash : {r : RunRow} → none ≡ some r → ⊥
clash h = cc

module _ (P : Database → Type 0) (db : Database) (kept : P db) (now : ℕ) (principal key : Text)
    (request : Request) (target : ExecutionTarget) where
  insert_create-after :
      (w : Weather) (id : Text)
      → (find_row db id ≡ none → P (with_create db principal key id request target now))
      → P (transact w db (insert_create db now id principal key request target)).0
  unfolding insert_create
  insert_create-after w id made =
      transact-after P w db (insert_create db now id principal key request target) kept λ new a h.
        let free : find_row db id ≡ none = ground arith in
        let e : new ≡ with_create db principal key id request target now = ground arith in
        rw e (made free)

  bound-after :
      (w : Weather) (id : Text) (o : Option Bound)
      → (find_row db id ≡ none → P (with_create db principal key id request target now))
      → P (at_bound w db now id principal key request target o).0
  bound-after w id (some b) made = kept
  bound-after w id none made = insert_create-after w id made

  pub accept-after :
      (w : Weather) (draw : ℕ × ℕ × ℕ × ℕ)
      → ((id : Text)
          → find_row db id ≡ none
          → P (with_create db principal key id request target now))
      → P (accept w db now draw principal key request target).0
  unfolding accept
  accept-after w (a, b, c, d) made =
      let id = run_id now a b c d in
      let bound = live_bound (joined db (binding_key principal key)) now in
      guard-after P (refused_create principal key request target) (db, err validation)
        (begun w.begin db (at_bound w db now id principal key request target bound)) kept
        (begun-after P w.begin db (at_bound w db now id principal key request target bound) kept
          (bound-after w id bound (made id)))

created-row :
    (db : Database) (principal key id : Text) (request : Request) (target : ExecutionTarget)
    (now : ℕ)
    → find_row db id ≡ none
    → Follows db (with_create db principal key id request target now)
created-row db principal key id request target now free j row found =
    let other : id ≢ j = λ e. absurd (clash (sym free ∙ (ap (find_row db) e ∙ found))) in
    stays row _ (lookup-insert_ne Text-discrete id j _ db.runs other ∙ found)

pub accept-Follows :
    (w : Weather) (db : Database) (now : ℕ) (draw : ℕ × ℕ × ℕ × ℕ) (principal key : Text)
    (request : Request) (target : ExecutionTarget)
    → Follows db (accept w db now draw principal key request target).0
accept-Follows w db now draw principal key request target =
    accept-after (Follows db) db (same_runs db db refl) now principal key request target w draw
      λ id free. created-row db principal key id request target now free
