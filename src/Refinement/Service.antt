-- ===== src/Refinement/Service.antt =====
-- The calls of the service on the two stores. On the tables every transaction begins and commits;
-- in the process no context has ended, and the one draw of a create is the same.
use perfeng_control_plane.Base.{ℕ, List, [], ◌∷◌, Option, none, some, ◌≡◌}
use perfeng_control_plane.Text.{Text}
use perfeng_control_plane.Errors.{Result}
use perfeng_control_plane.Run.{Run, Request, ExecutionTarget, Change}
use perfeng_control_plane.Memory.Runs as Process
use perfeng_control_plane.Memory.Runs.{bytes, run_id}
use perfeng_control_plane.Memory.Store.{Accepted, Repository}
use perfeng_control_plane.Postgres.Tables.{Database, Weather, done, find_row}
use perfeng_control_plane.Postgres.Runs as Tables
use perfeng_control_plane.Postgres.Acceptance

-- The calls, with the time that the store reads.
pub data Call : Type 0 where
  accepts :
      (now : ℕ) (draw : ℕ × ℕ × ℕ × ℕ) (principal key : Text) → Request → ExecutionTarget → Call
  gets : (principal id : Text) → Call
  cancels : (now : ℕ) (principal id : Text) → Call
  advances : (now : ℕ) (principal id : Text) (revision : ℕ) → Change → Call

pub data Answer : Type 0 where
  drawing : Answer
  accepted : Result Accepted → Answer
  shown : Result Run → Answer

abbrev pub calm : Weather
calm = record { begin = none; commit = done }

abbrev pub answered {ℓ κ} : {A : Type ℓ} {S : Type κ} → (A → Answer) → S × A → S × Answer
answered f (s, a) = (s, f a)

abbrev pub answered_accept :
    Repository → Option (Repository × Result Accepted) → Repository × Answer
answered_accept m none = (m, drawing)
answered_accept m (some p) = answered accepted p

unfoldable pub on_tables : Database → Call → Database × Answer
on_tables db (accepts now draw principal key request target) =
    answered accepted (Acceptance.accept calm db now draw principal key request target)
on_tables db (gets principal id) = (db, shown (Tables.get none db principal id))
on_tables db (cancels now principal id) = answered shown (Tables.cancel calm db principal id now)
on_tables db (advances now principal id revision change) =
    answered shown (Tables.advance calm db principal id revision change now)

unfoldable pub in_process : Repository → Call → Repository × Answer
in_process m (accepts now (a, b, c, d) principal key request target) =
    answered_accept m (Process.accept m none now (bytes a b c d ∷ []) principal key request target)
in_process m (gets principal id) = (m, shown (Process.get m none principal id))
in_process m (cancels now principal id) = answered shown (Process.cancel m none now principal id)
in_process m (advances now principal id revision change) =
    answered shown (Process.advance m none now principal id revision change)

-- The draw of a create meets no stored Run.
abbrev pub Fresh : Database → Call → Type 0
Fresh db (accepts now (a, b, c, d) principal key request target) =
    find_row db (run_id now a b c d) ≡ none
Fresh db _ = Unit

unfoldable pub answers_of_tables : Database → List Call → List Answer
answers_of_tables db [] = []
answers_of_tables db (c ∷ cs) = let (next, a) = on_tables db c in a ∷ answers_of_tables next cs

unfoldable pub answers_in_process : Repository → List Call → List Answer
answers_in_process m [] = []
answers_in_process m (c ∷ cs) = let (next, a) = in_process m c in a ∷ answers_in_process next cs

unfoldable pub AllFresh : Database → List Call → Type 0
AllFresh db [] = Unit
AllFresh db (c ∷ cs) = Fresh db c × AllFresh (on_tables db c).0 cs
