-- ===== src/Postgres/Tables.antt =====
-- The tables of the database that the modelled transactions read and write, and the frame of a
-- transaction (internal/postgres/database.go): begin, body, commit or rollback.
use perfeng_control_plane.Base.{
  ℕ, ◌+◌, ◌-◌, suc, Bool, false, List, [], ◌∷◌, Option, none, some, ◌||◌,
}
use perfeng_control_plane.Base.Int.{ℤ, pos, negsuc}
use perfeng_control_plane.Base.Maps.{lookup}
use perfeng_control_plane.Text.{Text, Text-discrete, text_eq}
use perfeng_control_plane.Errors.{Error, Result, ok, err}
use perfeng_control_plane.Run.{Run, ExecutionTarget}
use perfeng_control_plane.Memory.Store.{BindingKey}

-- perfeng_control.runs
pub record RunRow : Type 0 where
  pub principal : Text
  pub target : ExecutionTarget
  pub snapshot : Run

-- perfeng_control.create_bindings, by principal and idempotency key
pub record BindingRow : Type 0 where
  pub run_id : Text
  pub original : Run
  pub expires_at : ℕ

-- perfeng_control.reconciliation_leases
pub record LeaseRow : Type 0 where
  pub worker_id : Text
  pub token : Text
  pub expires_at : ℕ
  pub available_at : ℕ

-- perfeng_control.native_execution_leases, of protocol version 2
pub record NativeRow : Type 0 where
  pub lease_id : Text
  pub attempt_id : Text
  pub worker_id : Text
  pub capability_digest : Text
  pub issued_at : ℕ
  pub expires_at : ℕ
  pub renew_after_seconds : ℕ
  pub released_at : Option ℕ
  pub release_reason : Option Text
  pub release_message : Option Text

pub record Database : Type 0 where
  pub runs : List (Text × RunRow)
  pub bindings : List (BindingKey × BindingRow)
  pub leases : List (Text × LeaseRow)
  pub native_leases : List (Text × NativeRow)
  -- the Runs with a row in perfeng_control.benchmark_target_reservations that is not released
  pub held : List Text
  -- the workers with a row in perfeng_control.native_worker_presence_v2
  pub present : List Text

abbrev pub find_row : Database → Text → Option RunRow
find_row db id = lookup Text-discrete id db.runs

abbrev pub find_lease : Database → Text → Option LeaseRow
find_lease db id = lookup Text-discrete id db.leases

unfoldable pub member : Text → List Text → Bool
member t [] = false
member t (s ∷ ss) = text_eq s t || member t ss

-- How a commit ends: written, rolled back with an error, or written although its answer was lost.
pub data Commit : Type 0 where
  done : Commit
  rolled_back uncertain : Error → Commit

-- What the database does to one transaction. A statement in the middle that fails has the effect of
-- a begin that fails: the error, and no change.
pub record Weather : Type 0 where
  pub begin : Option Error
  pub commit : Commit

-- A transaction that may return before its commit; what it then has not written is rolled back.
abbrev pub begun {ℓ} :
    {A : Type ℓ} → Option Error → Database → Database × Result A → Database × Result A
begun none db answer = answer
begun (some e) db answer = (db, err e)

abbrev finish {ℓ} : {A : Type ℓ} → Commit → Database → Database → A → Database × Result A
finish done old new a = (new, ok a)
finish (rolled_back e) old new a = (old, err e)
finish (uncertain e) old new a = (new, err e)

abbrev close {ℓ} : {A : Type ℓ} → Commit → Database → Result (Database × A) → Database × Result A
close c db (err e) = (db, err e)
close c db (ok (new, a)) = finish c db new a

unfoldable pub transact {ℓ} :
    {A : Type ℓ} → Weather → Database → Result (Database × A) → Database × Result A
transact w db body = elim w.begin [ some e ↦ (db, err e) | none ↦ close w.commit db body ]

-- `t.Add(d)`.
abbrev pub add_time : ℕ → ℤ → ℕ
add_time t (pos d) = t + d
add_time t (negsuc d) = t - suc d
