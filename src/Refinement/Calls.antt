-- ===== src/Refinement/Calls.antt =====
-- One call on the two stores.
use perfeng_control_plane.Base.{
  ℕ, ◌+◌, ◌≡◌, refl, ◌==◌, true, false, some, arith, inl, inr, Option-cases,
}
unfoldable use perfeng_control_plane.Base.{ℕ_discrete}
use perfeng_control_plane.Base.Maps.{lookup-insert}
use perfeng_control_plane.Text.{Text, Text-discrete}
use perfeng_control_plane.Errors.{Result, ok, err, not_found}
use perfeng_control_plane.Run.{Run, Change, transition, request_cancellation, moved, to_state}
use perfeng_control_plane.Run.Valid.{transition-Passes}
use perfeng_control_plane.Run.Cancel.{request_cancellation-Cancels}
use perfeng_control_plane.Memory.Store.{Repository}
unfoldable use perfeng_control_plane.Memory.Store.{visible}
use perfeng_control_plane.Memory.Runs.{update, written}
use perfeng_control_plane.Postgres.Tables.{RunRow, Database, find_row}
unfoldable use perfeng_control_plane.Postgres.Tables.{transact}
unfoldable use perfeng_control_plane.Postgres.Runs.{locked_run, mutate}
use perfeng_control_plane.Postgres.Runs.{changed}
use perfeng_control_plane.Refinement.Related.{as_owned, Related}
use perfeng_control_plane.Refinement.Writes.{put_owned, put_row-Related}
use perfeng_control_plane.Refinement.Service.{calm}

-- What both stores see of a Run under a principal.
pub data Seen (db : Database) (m : Repository) (principal id : Text) : Type 0 where
  hidden :
      locked_run db principal id ≡ err not_found
      → visible m principal id ≡ err not_found
      → Seen db m principal id
  seen :
      (r : RunRow)
      → find_row db id ≡ some r
      → locked_run db principal id ≡ ok r.snapshot
      → visible m principal id ≡ ok (as_owned r)
      → Seen db m principal id

pub Related-Seen :
    {db : Database} {m : Repository} (principal id : Text) → Related db m → Seen db m principal id
unfolding locked_run visible
Related-Seen {db} {m} principal id R =
    let run = R.runs id in
    elim (Option-cases (find_row db id)) [
      | inl e ↦ hidden (rw e refl) (rw (run, e) refl)
      | inr (r, e) ↦ elim (Text-discrete r.principal principal) [
        | yes p ↦ let owner = R.owners id r e in seen r e (ground arith) (ground (arith, run))
        | no p ↦ hidden (ground arith) (ground (arith, run))
      ]
    ]

-- A change that gives a Run of the same revision gives the same Run.
abbrev pub IsVersioned : (Run → Result Run) → Type 0
IsVersioned f = (r s : Run) → f r ≡ ok s → s.revision ≡ r.revision → s ≡ r

pub transition-IsVersioned :
    (revision : ℕ) (change : Change) (now : ℕ) → IsVersioned (λ r. transition r revision change now)
unfolding moved
transition-IsVersioned revision change now r s e same =
    let (p, q) = transition-Passes r revision change now e in
    let bump : s.revision ≡ r.revision + 1 = rw q refl in absurd (omega arith)

pub cancellation-IsVersioned : (now : ℕ) → IsVersioned (λ r. request_cancellation r now)
unfolding moved
cancellation-IsVersioned now r s e same = elim (request_cancellation-Cancels r now s e) [
  | inl (kept, h) ↦ kept
  | inr (t, h, moves) ↦ transition-IsVersioned r.revision (to_state t) now r s moves same
]

-- The process-local store writes an unchanged Run again.
put_owned-Related :
    {db : Database} {m : Repository} (id : Text) (r : RunRow)
    → Related db m
    → find_row db id ≡ some r
    → Related db (put_owned m id (as_owned r))
put_owned-Related {db} {m} id r R at = record {
  runs = λ j. rw (lookup-insert Text-discrete id j (as_owned r) m.runs) (ground (arith, R.runs j));
  bindings = R.bindings;
  references = R.references;
  owners = R.owners;
}

-- Both stores answer alike and stand for the same Runs.
abbrev pub Agree {ℓ} : {A : Type ℓ} → Database × A → Repository × A → Type ℓ
Agree p q = (p.1 ≡ q.1) × Related p.0 q.0

changed-Agree :
    {db : Database} {m : Repository} (id : Text) (r : RunRow) (answer : Result Run)
    → ((s : Run) → answer ≡ ok s → s.revision ≡ r.snapshot.revision → s ≡ r.snapshot)
    → Related db m
    → find_row db id ≡ some r
    → Agree (changed calm db id r.snapshot answer) (written m id (as_owned r) answer)
unfolding transact
changed-Agree id r (err e) versioned R at = (refl, R)
changed-Agree {db} {m} id r (ok s) versioned R at =
    elim (ℕ_discrete s.revision r.snapshot.revision) [
      | yes same ↦
          let kept = versioned s refl same in
          let equal : s.revision == r.snapshot.revision ≡ true = ground arith in
          rw equal (rw kept (refl, put_owned-Related id r R at))
      | no other ↦
          let differs : s.revision == r.snapshot.revision ≡ false = ground arith in
          rw (differs, at) (refl, put_row-Related id r (record r { snapshot = s }) R at refl refl)
    ]

pub mutate-Agree :
    {db : Database} {m : Repository} (principal id : Text) (f : Run → Result Run)
    → IsVersioned f
    → Related db m
    → Agree (mutate calm db principal id f) (update m id (visible m principal id) f)
unfolding mutate transact
mutate-Agree principal id f versioned R = elim (Related-Seen principal id R) [
  | hidden e d ↦ rw (e, d) (refl, R)
  | seen r at e d ↦ rw (e, d) (changed-Agree id r (f r.snapshot) (versioned r.snapshot) R at)
]
