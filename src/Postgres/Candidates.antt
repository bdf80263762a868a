-- ===== src/Postgres/Candidates.antt =====
-- internal/postgres/claims.go: the Runs that a claim considers, in their order.
use perfeng_control_plane.Base.{
  ℕ, zero, suc, Bool, true, false, List, [], ◌∷◌, Option, none, some, not, ◌&&◌, ◌||◌, ltb, leb,
  if◌then◌else◌,
}
use perfeng_control_plane.Text.{Text}
use perfeng_control_plane.Contract.{
  State, created, validating, provisioning, warming_up, running, collecting, analyzing, reporting,
  cancelling,
}
use perfeng_control_plane.Run.{Run, ExecutionTarget, kubernetes}
use perfeng_control_plane.Memory.Artifacts.{text_lt}
use perfeng_control_plane.Postgres.Tables.{RunRow, LeaseRow, Database, find_lease, member}

pub record Candidate : Type 0 where
  pub principal : Text
  pub snapshot : Run

-- The list of active states in the query.
abbrev pub is_active : State → Bool
is_active created = true
is_active validating = true
is_active provisioning = true
is_active warming_up = true
is_active running = true
is_active collecting = true
is_active analyzing = true
is_active reporting = true
is_active cancelling = true
is_active _ = false

abbrev is_kubernetes : ExecutionTarget → Bool
is_kubernetes kubernetes = true
is_kubernetes _ = false

abbrev is_cancelling : State → Bool
is_cancelling cancelling = true
is_cancelling _ = false

-- The joined lease is missing, or expired and due.
abbrev lease_due : Option LeaseRow → State → ℕ → Bool
lease_due none state clock = true
lease_due (some l) state clock =
    leb l.expires_at clock && (leb l.available_at clock || is_cancelling state)

unfoldable pub eligible : Database → ℕ → Text → RunRow → Bool
eligible db clock id row =
    is_kubernetes row.target
    && (is_active row.snapshot.state || member id db.held)
    && lease_due (find_lease db id) row.snapshot.state clock

-- A row of the answer, with the columns that order it.
pub record Found : Type 0 where
  pub id : Text
  pub due : Option ℕ
  pub candidate : Candidate

abbrev due_of : Option LeaseRow → Option ℕ
due_of none = none
due_of (some l) = some l.available_at

abbrev due_before : Option ℕ → Option ℕ → Bool
due_before none none = false
due_before none (some n) = true
due_before (some m) none = false
due_before (some m) (some n) = ltb m n

-- CANCELLING first, then by the time it is due with missing leases first, then by identifier.
unfoldable pub sooner : Found → Found → Bool
sooner a b =
    let c = is_cancelling a.candidate.snapshot.state in
    let d = is_cancelling b.candidate.snapshot.state in
    (c && not d)
    || (not (d && not c)
        && (due_before a.due b.due || (not (due_before b.due a.due) && text_lt a.id b.id)))

unfoldable pub place : Found → List Found → List Found
place a [] = a ∷ []
place a (b ∷ bs) = if sooner b a then b ∷ place a bs else a ∷ b ∷ bs

-- The rows that are eligible and that no other transaction has locked, in order.
unfoldable pub found_rows : Database → ℕ → List Text → List (Text × RunRow) → List Found
found_rows db clock locked [] = []
found_rows db clock locked ((id, row) ∷ rows) =
    let rest = found_rows db clock locked rows in
    let this : Found = record {
      id = id;
      due = due_of (find_lease db id);
      candidate = record { principal = row.principal; snapshot = row.snapshot };
    } in
    if eligible db clock id row && not (member id locked) then place this rest else rest

unfoldable pub first : ℕ → List Found → List Candidate
first zero rows = []
first (suc n) [] = []
first (suc n) (r ∷ rows) = r.candidate ∷ first n rows

unfoldable pub lock_claim_candidates : Database → ℕ → List Text → ℕ → List Candidate
lock_claim_candidates db clock locked limit = first limit (found_rows db clock locked db.runs)
