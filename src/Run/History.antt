-- ===== src/Run/History.antt =====
-- The histories of a Run: accepted transitions and cancellations, in any order, from its creation.
use perfeng_control_plane.Base.{ℕ, ◌+◌, ◌≤◌, ◌<◌, ◌≡◌, refl, true, none, arith, inl, inr, ◌∙◌}
use perfeng_control_plane.Errors.{ok}
use perfeng_control_plane.Text.{Text}
use perfeng_control_plane.Contract.{
  State, created, validating, provisioning, warming_up, running, collecting, analyzing, reporting,
  cancelling, can_transition, terminal,
}
use perfeng_control_plane.Run.{
  Run, Request, Change, requires_failure, to_state, transition, request_cancellation,
}
use perfeng_control_plane.Run.Valid.{
  IsValid, transition-Passes, transition-IsValid, terminal-no_edge,
}
use perfeng_control_plane.Run.Cancel.{request_cancellation-Cancels}

-- The Run that `Accept` stores.
unfoldable pub accepted_run : (id : Text) → Request → ℕ → Run
accepted_run id request now = record {
  id = id;
  state = created;
  revision = 1;
  request = request;
  created_at = now;
  updated_at = now;
  finished_at = none;
  tool_exit_code = none;
  failure = none;
}

pub data Step (r : Run) : Run → Type 0 where
  advance :
      (change : Change) (expected now : ℕ) {s : Run}
      → transition r expected change now ≡ ok s
      → Step r s
  cancel : (now : ℕ) {s : Run} → request_cancellation r now ≡ ok s → Step r s

pub data Reach (r : Run) : Run → Type 0 where
  here : Reach r r
  next : {s t : Run} → Reach r s → Step s t → Reach r t

pub accepted_run-IsValid :
    (id : Text) (request : Request) (now : ℕ) → IsValid (accepted_run id request now)
unfolding accepted_run requires_failure terminal
accepted_run-IsValid id request now = ground arith

-- The longest way to a terminal state.
abbrev pub steps_left : State → ℕ
steps_left created = 9
steps_left validating = 8
steps_left provisioning = 7
steps_left warming_up = 6
steps_left running = 5
steps_left collecting = 4
steps_left analyzing = 3
steps_left reporting = 2
steps_left cancelling = 1
steps_left _ = 0

-- Every edge of the lifecycle leads down, so it has no cycle.
edge-steps_left : (s t : State) → can_transition s t ≡ true → steps_left t < steps_left s
unfolding can_transition
edge-steps_left s t h = ground arith

-- A valid Run `s` further along than `r`, with the same identity, and with its steps accounted for.
pub record Follows (r s : Run) : Type 0 where
  pub valid : IsValid s
  pub same_id : s.id ≡ r.id
  pub same_request : s.request ≡ r.request
  pub same_start : s.created_at ≡ r.created_at
  pub later : r.updated_at ≤ s.updated_at
  pub newer : r.revision ≤ s.revision
  pub bounded : s.revision + steps_left s.state ≤ r.revision + steps_left r.state

transition-Follows :
    (r : Run) (expected : ℕ) (change : Change) (now : ℕ) {s : Run}
    → IsValid r
    → transition r expected change now ≡ ok s
    → Follows r s
transition-Follows r expected change now {s} v e =
    let spec = transition-IsValid r expected change now s v e in
    let current = (transition-Passes r expected change now e).0.current in
    ground (arith, spec, current, edge-steps_left r.state s.state spec.3)

step-Follows : {r s : Run} → IsValid r → Step r s → Follows r s
step-Follows {r} v (advance change expected now e) = transition-Follows r expected change now v e
step-Follows {r} v (cancel now {s} e) = elim (request_cancellation-Cancels r now s e) [
  | inl (same, h) ↦ rw same (ground (arith, v))
  | inr (t, h, moves) ↦ transition-Follows r r.revision (to_state t) now v moves
]

-- Along any history a Run stays valid, keeps its identity, request and creation time, moves neither
-- its update time nor its revision back, and has at most as many revisions left as its first state
-- has steps to a terminal one.
pub Reach-Follows : {r s : Run} → IsValid r → Reach r s → Follows r s
Reach-Follows v here = ground (arith, v)
Reach-Follows {r} v (next {s} h st) =
    let f = Reach-Follows v h in let g = step-Follows f.valid st in ground (arith, f, g)

-- However a Run is driven from its acceptance, it is valid, and its revision never passes 10.
pub accepted-revision_bound :
    (id : Text) (request : Request) (now : ℕ) (s : Run)
    → Reach (accepted_run id request now) s
    → IsValid s × (s.revision ≤ 10)
unfolding accepted_run
accepted-revision_bound id request now s h =
    let f = Reach-Follows (accepted_run-IsValid id request now) h in
    (f.valid, omega (arith, f.bounded))

-- A terminal Run never changes again: every later Run of its history is the Run itself.
terminal-step : {r s : Run} → terminal r.state ≡ true → Step r s → s ≡ r
terminal-step {r} h (advance change expected now e) =
    let (p, q) = transition-Passes r expected change now e in
    cc (terminal-no_edge r.state change.state p.edge)
terminal-step {r} h (cancel now {s} e) = elim (request_cancellation-Cancels r now s e) [
  | inl (same, k) ↦ same
  | inr (t, k, moves) ↦
      let (p, q) = transition-Passes r r.revision (to_state t) now moves in
      cc (terminal-no_edge r.state t p.edge)
]

pub terminal-Reach : {r s : Run} → terminal r.state ≡ true → Reach r s → s ≡ r
terminal-Reach h here = refl
terminal-Reach {r} h (next {s} k st) =
    let same = terminal-Reach h k in
    let final : terminal s.state ≡ true = rw same h in terminal-step final st ∙ same
