-- ===== src/Postgres/Progress.antt =====
-- What one write does to the stored Runs.
use perfeng_control_plane.Base.{
  ℕ, suc, ◌≡◌, refl, ◌≢◌, List, [], ◌∷◌, Option, none, some, arith, inl, inr, ◌∙◌, ap, sym,
  Bool-cases,
}
use perfeng_control_plane.Base.Int.{ℤ}
use perfeng_control_plane.Base.Maps.{lookup-insert_ne, lookup-insert_self}
use perfeng_control_plane.Text.{Text, Text-discrete}
use perfeng_control_plane.Contract.{terminal}
use perfeng_control_plane.Run.{Run}
use perfeng_control_plane.Run.Claims.{Claim}
use perfeng_control_plane.Postgres.Tables.{RunRow, LeaseRow, Database, find_row, find_lease}
use perfeng_control_plane.Postgres.Candidates.{Candidate}
use perfeng_control_plane.Postgres.Claims.{
  try_acquire_claim, taken, acquire_each, set_snapshot, with_expiry, with_delay, advanced,
}
use perfeng_control_plane.Run.History.{Step, Reach, here, next}

-- The row of a Run as it is stored later.
abbrev pub LaterRow : RunRow → Option RunRow → Type 0
LaterRow row none = ⊥
LaterRow row (some s) =
    (s.principal ≡ row.principal) × (s.target ≡ row.target) × Reach row.snapshot s.snapshot

abbrev pub Follows : Database → Database → Type 0
Follows db new =
    (id : Text) (row : RunRow) → find_row db id ≡ some row → LaterRow row (find_row new id)

pub set_snapshot-row :
    (db : Database) (j : Text) (r : RunRow) (s : Run)
    → find_row db j ≡ some r
    → find_row (set_snapshot db j s) j ≡ some (record r { snapshot = s })
set_snapshot-row db j r s at =
    rw at (lookup-insert_self Text-discrete j (record r { snapshot = s }) db.runs)

set_snapshot-row_ne :
    (db : Database) (j id : Text) (r : RunRow) (s : Run)
    → find_row db j ≡ some r
    → j ≢ id
    → find_row (set_snapshot db j s) id ≡ find_row db id
set_snapshot-row_ne db j id r s at other =
    rw at (lookup-insert_ne Text-discrete j id (record r { snapshot = s }) db.runs other)

pub stays : (row : RunRow) (o : Option RunRow) → o ≡ some row → LaterRow row o
stays row none e = absurd (cc)
stays row (some s) e = let same : s ≡ row = cc in rw same (refl, refl, here)

pub same_runs : (db new : Database) → new.runs ≡ db.runs → Follows db new
same_runs db new e id row found = stays row (find_row new id) (rw e found)

pub set_snapshot-Reach :
    (db : Database) (j : Text) (r : RunRow) (s : Run)
    → find_row db j ≡ some r
    → Reach r.snapshot s
    → Follows db (set_snapshot db j s)
set_snapshot-Reach db j r s at st id row found = elim (Text-discrete j id) [
  | yes same ↦
      let e : some r ≡ some row = sym at ∙ (ap (find_row db) same ∙ found) in
      let same_row : r ≡ row = grind (arith, e) in
      let stored : find_row (set_snapshot db j s) id ≡ some (record r { snapshot = s }) =
        ap (find_row (set_snapshot db j s)) (sym same) ∙ set_snapshot-row db j r s at in
      let reached : LaterRow r (some (record r { snapshot = s })) = (refl, refl, st) in
      rw (stored, sym same_row) reached
  | no other ↦ stays row _ (set_snapshot-row_ne db j id r s at other ∙ found)
]

pub set_snapshot-Follows :
    (db : Database) (j : Text) (r : RunRow) (s : Run)
    → find_row db j ≡ some r
    → Step r.snapshot s
    → Follows db (set_snapshot db j s)
set_snapshot-Follows db j r s at st = set_snapshot-Reach db j r s at (next here st)

pub expiry-runs :
    (t : ℕ) (o : Option LeaseRow) (db : Database) (j : Text) → (with_expiry t o db j).runs ≡ db.runs
expiry-runs t none db j = refl
expiry-runs t (some row) db j = refl

pub delay-runs :
    (now t : ℕ) (o : Option LeaseRow) (db : Database) (j : Text)
    → (with_delay now t o db j).runs ≡ db.runs
delay-runs now t none db j = refl
delay-runs now t (some row) db j = refl

pub advanced-Follows :
    (db : Database) (j : Text) (r : RunRow) (s : Run) (now : ℕ)
    → find_row db j ≡ some r
    → Step r.snapshot s
    → Follows db (advanced db j s now)
advanced-Follows db j r s now at st id row found =
    let after = set_snapshot-Follows db j r s at st id row found in
    elim (Bool-cases (terminal s.state)) [
      | inl final ↦
          let e = expiry-runs now (find_lease (set_snapshot db j s) j) (set_snapshot db j s) j in
          rw (final, e) after
      | inr active ↦ rw active after
    ]

taken-runs :
    (db : Database) (c : Candidate) (worker_id token : Text) (ttl : ℤ) (now : ℕ) (cs : List Claim)
    → (taken db cs (try_acquire_claim db c worker_id ttl now token)).0.runs ≡ db.runs
unfolding try_acquire_claim
taken-runs db c worker_id token ttl now cs = ground arith

pub acquire_each-runs :
    (worker_id : Text) (ttl : ℤ) (clock : ℕ → ℕ) (token : ℕ → Text) (n : ℕ) (db : Database)
    (got : List Claim) (cs : List Candidate)
    → (acquire_each worker_id ttl clock token n (db, got) cs).0.runs ≡ db.runs
unfolding acquire_each
acquire_each-runs worker_id ttl clock token n db got [] = refl
acquire_each-runs worker_id ttl clock token n db got (c ∷ cs) =
    let s = taken db got (try_acquire_claim db c worker_id ttl (clock n) (token n)) in
    acquire_each-runs worker_id ttl clock token (suc n) s.0 s.1 cs
    ∙ taken-runs db c worker_id (token n) ttl (clock n) got
