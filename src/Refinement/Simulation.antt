-- ===== src/Refinement/Simulation.antt =====
-- Any sequence of calls on the two stores.
use perfeng_control_plane.Base.{
  ℕ, [], ◌∷◌, ◌≡◌, ◌≢◌, ◌<◌, refl, true, false, List, Option, none, some, arith, ◌∙◌, ap, inl, inr,
  Option-cases, Bool-cases,
}
use perfeng_control_plane.Text.{Text}
use perfeng_control_plane.Errors.{Result, ok}
use perfeng_control_plane.Run.{Run, Request, ExecutionTarget}
use perfeng_control_plane.Memory.Store.{Repository, Binding}
unfoldable use perfeng_control_plane.Memory.Store.{new}
use perfeng_control_plane.Memory.Runs.{
  Draw, bytes, run_id, live, find_binding, refused_create, acceptance,
}
use perfeng_control_plane.Memory.Runs as Process
unfoldable use perfeng_control_plane.Memory.Runs.{replay}
use perfeng_control_plane.Memory.Acceptance.{
  FreeDraw, accept-store_run, accept-accept_valid, accept_valid-live,
}
use perfeng_control_plane.Postgres.Tables.{Database, find_row}
unfoldable use perfeng_control_plane.Postgres.Tables.{transact}
use perfeng_control_plane.Postgres.Runs as Tables
use perfeng_control_plane.Postgres.Acceptance as Acceptance
unfoldable use perfeng_control_plane.Postgres.Acceptance.{insert_create}
use perfeng_control_plane.Postgres.Acceptance.{
  Bound, joined, live_bound, binding_key, accept_at, answer_bound, with_create,
}
use perfeng_control_plane.Refinement.Related.{
  owned_row, bound_binding, Related, no_rows, no_rows-Related,
}
use perfeng_control_plane.Refinement.Create.{create-Related}
use perfeng_control_plane.Refinement.Service.{
  Call, accepts, gets, cancels, advances, calm, answered_accept, Fresh, answered, accepted, shown,
}
unfoldable use perfeng_control_plane.Refinement.Service.{
  on_tables, in_process, answers_of_tables, answers_in_process, AllFresh,
}
use perfeng_control_plane.Refinement.Calls.{
  hidden, seen, Related-Seen, transition-IsVersioned, cancellation-IsVersioned, Agree, mutate-Agree,
}

tables_new :
    (db : Database) (now a b c d : ℕ) (principal key : Text) (request : Request)
    (target : ExecutionTarget)
    → refused_create principal key request target ≡ false
    → live_bound (joined db (binding_key principal key)) now ≡ none
    → find_row db (run_id now a b c d) ≡ none
    → Acceptance.accept calm db now (a, b, c, d) principal key request target ≡ (
      with_create db principal key (run_id now a b c d) request target now,
      ok (acceptance (run_id now a b c d) request now),
    )
unfolding Acceptance.accept transact insert_create
tables_new db now a b c d principal key request target fine fresh free =
    rw (fine, accept_at, fresh, insert_create, free) refl

tables_live :
    (db : Database) (now : ℕ) (draw : ℕ × ℕ × ℕ × ℕ) (principal key : Text) (request : Request)
    (target : ExecutionTarget) (b : Bound)
    → refused_create principal key request target ≡ false
    → live_bound (joined db (binding_key principal key)) now ≡ some b
    → Acceptance.accept calm db now draw principal key request target
      ≡ (db, answer_bound b request target)
unfolding Acceptance.accept
tables_live db now draw principal key request target b fine bound = rw (fine, accept_at, bound) refl

as_binding : Bound → Binding
as_binding b = record {
  accepted = record { run = b.row.original; expires_at = b.row.expires_at };
  target = b.target;
}

-- A binding row is live in one store when it is in the other.
live-bound_binding :
    (o : Option Bound) (p : Option Binding) (now : ℕ)
    → p ≡ bound_binding o
    → live_bound o now ≡ none
    → live p now ≡ none
live-bound_binding none p now same e = ground arith
live-bound_binding (some b) p now same e = ground arith

live_some :
    (o : Option Bound) (now : ℕ) (b : Bound)
    → live_bound o now ≡ some b
    → (o ≡ some b) × (now < b.row.expires_at)
live_some o now b e = ground arith

process_live :
    (m : Repository) (now : ℕ) (draws : List Draw) (principal key : Text) (request : Request)
    (target : ExecutionTarget) (b : Bound)
    → refused_create principal key request target ≡ false
    → find_binding m principal key ≡ bound_binding (some b)
    → now < b.row.expires_at
    → Process.accept m none now draws principal key request target
      ≡ some (m, answer_bound b request target)
unfolding replay
process_live m now draws principal key request target b fine bound soon =
    accept-accept_valid m now draws principal key request target fine
    ∙ accept_valid-live m now draws principal key request target _ bound soon

owned_create :
    (principal key : Text) (request : Request) (target : ExecutionTarget)
    → refused_create principal key request target ≡ false
    → principal ≢ []
owned_create principal key request target fine e = ground arith

refused-Agree :
    (db : Database) (m : Repository) (now : ℕ) (draw : ℕ × ℕ × ℕ × ℕ) (draws : List Draw)
    (principal key : Text) (request : Request) (target : ExecutionTarget)
    → Related db m
    → refused_create principal key request target ≡ true
    → Agree
        (answered accepted (Acceptance.accept calm db now draw principal key request target))
        (answered_accept m (Process.accept m none now draws principal key request target))
unfolding Acceptance.accept Process.accept
refused-Agree db m now draw draws principal key request target R bad = rw bad (refl, R)

accepts-Agree :
    (db : Database) (m : Repository) (now a b c d : ℕ) (principal key : Text) (request : Request)
    (target : ExecutionTarget)
    → Related db m
    → find_row db (run_id now a b c d) ≡ none
    → let call = accepts now (a, b, c, d) principal key request target in
      Agree (on_tables db call) (in_process m call)
unfolding on_tables in_process
accepts-Agree db m now a b c d principal key request target R free =
    let bound = R.bindings (binding_key principal key) in
    let found = R.runs (run_id now a b c d) in
    elim (Bool-cases (refused_create principal key request target)) [
      | inl bad ↦
          refused-Agree db m now (a, b, c, d) (bytes a b c d ∷ []) principal key request target R
            bad
      | inr fine ↦ elim (Option-cases (live_bound (joined db (binding_key principal key)) now)) [
        | inl fresh ↦
            let stale = live-bound_binding _ _ now bound fresh in
            rw
              (
                tables_new db now a b c d principal key request target fine fresh free,
                accept-store_run m now (bytes a b c d ∷ []) principal key (run_id now a b c d)
                    request target fine stale (FreeDraw.free a b c d (found ∙ ap owned_row free)),
              )
              (
                refl,
                create-Related db principal key (run_id now a b c d) request target now m
                    (owned_create principal key request target fine) R free,
              )
        | inr (old, l) ↦
            let (at, soon) = live_some _ now old l in
            rw
              (
                tables_live db now (a, b, c, d) principal key request target old fine l,
                process_live m now (bytes a b c d ∷ []) principal key request target old fine
                    (bound ∙ ap bound_binding at) soon,
              )
              (refl, R)
      ]
    ]

gets-Agree :
    (db : Database) (m : Repository) (principal id : Text)
    → Related db m
    → Agree (on_tables db (gets principal id)) (in_process m (gets principal id))
unfolding on_tables in_process Tables.get Process.get
gets-Agree db m principal id R = elim (Related-Seen principal id R) [
  | hidden e d ↦ rw (e, d) (refl, R)
  | seen r at e d ↦ rw (e, d) (refl, R)
]

shown-Agree :
    (p : Database × Result Run) (q : Repository × Result Run)
    → Agree p q
    → Agree (answered shown p) (answered shown q)
shown-Agree p q (same, R) = (ap shown same, R)

call-Agree :
    (db : Database) (m : Repository) (c : Call)
    → Related db m
    → Fresh db c
    → Agree (on_tables db c) (in_process m c)
unfolding on_tables in_process Tables.cancel Tables.advance Process.cancel Process.advance
call-Agree db m (accepts now (a, b, c, d) principal key request target) R free =
    accepts-Agree db m now a b c d principal key request target R free
call-Agree db m (gets principal id) R free = gets-Agree db m principal id R
call-Agree db m (cancels now principal id) R free =
    shown-Agree _ _ (mutate-Agree principal id _ (cancellation-IsVersioned now) R)
call-Agree db m (advances now principal id revision change) R free =
    shown-Agree _ _ (mutate-Agree principal id _ (transition-IsVersioned revision change now) R)

same_answers :
    (db : Database) (m : Repository) (cs : List Call)
    → Related db m
    → AllFresh db cs
    → answers_of_tables db cs ≡ answers_in_process m cs
unfolding answers_of_tables answers_in_process AllFresh
same_answers db m [] R free = refl
same_answers db m (c ∷ cs) R (first, later) =
    let (same, next) = call-Agree db m c R first in
    rw same (
      ap (λ rest. (in_process m c).1 ∷ rest)
        (same_answers (on_tables db c).0 (in_process m c).0 cs next later))

-- The durable store refines the process-local one: from empty stores, any sequence of creates,
-- reads, cancellations and transitions, each create with a draw that no stored Run has, is answered
-- alike by the transactions on the tables, when they begin and commit, and by the store in the
-- process.
pub tables-refine_process :
    (cs : List Call)
    → AllFresh no_rows cs
    → answers_of_tables no_rows cs ≡ answers_in_process new cs
tables-refine_process cs free = same_answers no_rows new cs no_rows-Related free
