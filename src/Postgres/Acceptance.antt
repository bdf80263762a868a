-- ===== src/Postgres/Acceptance.antt =====
-- internal/postgres/repository.go: Accept, the create of a Run under an idempotency key. The advisory
-- lock serializes the creates of one key, so the transaction is a function of the tables it finds.
use perfeng_control_plane.Base.{
  ℕ, ◌+◌, ◌*◌, Option, none, some, ◌||◌, not, holds, ltb, is_none, if◌then◌else◌,
}
use perfeng_control_plane.Base.Maps.{lookup, insert}
use perfeng_control_plane.Text.{Text, Text-discrete, text_eq}
use perfeng_control_plane.Time.{hour}
use perfeng_control_plane.Errors.{Result, ok, err, validation, conflict, unavailable}
use perfeng_control_plane.Run.{Request, Request-discrete, ExecutionTarget, ExecutionTarget-discrete}
use perfeng_control_plane.Run.History.{accepted_run}
use perfeng_control_plane.Memory.Store.{Accepted, BindingKey, BindingKey-discrete}
use perfeng_control_plane.Memory.Runs.{run_id, refused_create}
use perfeng_control_plane.Postgres.Tables.{
  RunRow, BindingRow, Database, find_row, Weather, begun, transact,
}

-- A binding row joined with the target of its Run.
pub record Bound : Type 0 where
  pub row : BindingRow
  pub target : ExecutionTarget

abbrev pub binding_key : Text → Text → BindingKey
binding_key principal key = record { principal = principal; key = key }

abbrev pub with_target : Text → BindingRow → Option RunRow → Option Bound
with_target principal b none = none
with_target principal b (some r) =
    if text_eq r.principal principal then some (record { row = b; target = r.target }) else none

abbrev pub join_run : Database → Text → Option BindingRow → Option Bound
join_run db principal none = none
join_run db principal (some b) = with_target principal b (find_row db b.run_id)

-- The `SELECT` of the binding and the target of its Run.
unfoldable pub joined : Database → BindingKey → Option Bound
joined db k = join_run db k.principal (lookup BindingKey-discrete k db.bindings)

-- `err == nil && now.Before(expiry)`
abbrev pub live_bound : Option Bound → ℕ → Option Bound
live_bound none now = none
live_bound (some b) now = if ltb now b.row.expires_at then some b else none

abbrev pub answer_bound : Bound → Request → ExecutionTarget → Result Accepted
answer_bound b request target =
    if not (holds (Request-discrete b.row.original.request request))
      || not (holds (ExecutionTarget-discrete b.target target))
    then err conflict
    else ok (record { run = b.row.original; expires_at = b.row.expires_at })

-- The rows of a new Run and of its binding, which replaces an expired one.
abbrev pub with_create : Database → Text → Text → Text → Request → ExecutionTarget → ℕ → Database
with_create db principal key id request target now =
    let created = accepted_run id request now in
    record db {
      runs =
          insert Text-discrete id
            (record { principal = principal; target = target; snapshot = created }) db.runs;
      bindings =
          insert BindingKey-discrete (binding_key principal key)
            (record { run_id = id; original = created; expires_at = now + 24 * hour }) db.bindings;
    }

-- The `INSERT`s. An identifier that another Run has breaks the primary key, which is reported as an
-- unavailable store.
unfoldable pub insert_create :
    Database → ℕ → Text → Text → Text → Request → ExecutionTarget → Result (Database × Accepted)
insert_create db now id principal key request target =
    if is_none (find_row db id)
    then ok (
      with_create db principal key id request target now,
      record { run = accepted_run id request now; expires_at = now + 24 * hour },
    )
    else err unavailable

-- A replay rolls its transaction back.
abbrev pub at_bound :
    Weather
    → Database
    → ℕ
    → Text
    → Text
    → Text
    → Request
    → ExecutionTarget
    → Option Bound
    → Database × Result Accepted
at_bound w db now id principal key request target none =
    transact w db (insert_create db now id principal key request target)
at_bound w db now id principal key request target (some b) = (db, answer_bound b request target)

abbrev pub accept_at :
    Weather
    → Database
    → ℕ
    → Text
    → Text
    → Text
    → Request
    → ExecutionTarget
    → Database × Result Accepted
accept_at w db now id principal key request target =
    at_bound w db now id principal key request target
      (live_bound (joined db (binding_key principal key)) now)

-- The clock is read under the advisory lock; `a b c d` are the four bytes of the one draw.
unfoldable pub accept :
    Weather
    → Database
    → ℕ
    → ℕ × ℕ × ℕ × ℕ
    → Text
    → Text
    → Request
    → ExecutionTarget
    → Database × Result Accepted
accept w db now (a, b, c, d) principal key request target =
    if refused_create principal key request target
    then (db, err validation)
    else begun w.begin db (accept_at w db now (run_id now a b c d) principal key request target)
