-- ===== src/Run/Cancel.antt =====
-- Cancellation of a Run in every state.
use perfeng_control_plane.Base.{ℕ, ◌+◌, ◌≤◌, ◌<◌, ◌≡◌, refl, true, false, arith, ◌⊎◌, inl, inr}
use perfeng_control_plane.Errors.{Result, ok, err, run_terminal, invalid_transition}
use perfeng_control_plane.Contract.{
  State, created, validating, provisioning, warming_up, running, collecting, analyzing, reporting,
  cancelling, completed, invalid, aborted, infrastructure_failure, test_failure, can_transition,
  terminal,
}
use perfeng_control_plane.Run.{
  Run, max_run_revision, requires_failure, bad_exit, bad_failure, to_state, moved, transition,
  request_cancellation, cancel_at,
}
use perfeng_control_plane.Run.Valid.{
  IsValid, Passes, transition-ok, transition-Passes, transition-IsValid,
}

-- What a cancellation asks of a state.
pub data Cancellation : Type 0 where
  keep refuse no_edge : Cancellation
  move : State → Cancellation

abbrev pub cancellation : State → Cancellation
cancellation created = Cancellation.move aborted
cancellation validating = Cancellation.move aborted
cancellation cancelling = Cancellation.keep
cancellation aborted = Cancellation.keep
cancellation completed = Cancellation.refuse
cancellation invalid = Cancellation.refuse
cancellation infrastructure_failure = Cancellation.refuse
cancellation test_failure = Cancellation.refuse
cancellation (State.other name) = Cancellation.no_edge
cancellation _ = Cancellation.move cancelling

abbrev pub cancelled : Cancellation → Run → ℕ → Result Run
cancelled Cancellation.keep r now = ok r
cancelled Cancellation.refuse r now = err run_terminal
cancelled Cancellation.no_edge r now = err invalid_transition
cancelled (Cancellation.move s) r now = ok (moved r (to_state s) now)

move-Passes :
    (r : Run) (s : State)
    → r.revision < max_run_revision
    → can_transition r.state s ≡ true
    → requires_failure s ≡ false
    → Passes r r.revision (to_state s)
unfolding bad_exit bad_failure
move-Passes r s room edge quiet = record {
  current = refl;
  room = room;
  edge = edge;
  exit = refl;
  message = refl;
  named = λ h. cc;
}

moves :
    (r : Run) (s t : State) (now : ℕ)
    → r.revision < max_run_revision
    → r.state ≡ s
    → can_transition s t ≡ true
    → requires_failure t ≡ false
    → transition r r.revision (to_state t) now ≡ ok (moved r (to_state t) now)
moves r s t now room e edge quiet =
    transition-ok r r.revision (to_state t) now (move-Passes r t room (rw e edge) quiet)

no_move :
    (r : Run) (name : _) (t : State) (now : ℕ)
    → r.state ≡ State.other name
    → transition r r.revision (to_state t) now ≡ err invalid_transition
unfolding transition can_transition
no_move r name t now e = ground arith

cancel_at-table :
    (s : State) (r : Run) (now : ℕ)
    → r.revision < max_run_revision
    → r.state ≡ s
    → cancel_at s r now ≡ cancelled (cancellation s) r now
unfolding cancel_at terminal can_transition requires_failure
cancel_at-table created r now room e = moves r _ aborted now room e refl refl
cancel_at-table validating r now room e = moves r _ aborted now room e refl refl
cancel_at-table provisioning r now room e = moves r _ cancelling now room e refl refl
cancel_at-table warming_up r now room e = moves r _ cancelling now room e refl refl
cancel_at-table running r now room e = moves r _ cancelling now room e refl refl
cancel_at-table collecting r now room e = moves r _ cancelling now room e refl refl
cancel_at-table analyzing r now room e = moves r _ cancelling now room e refl refl
cancel_at-table reporting r now room e = moves r _ cancelling now room e refl refl
cancel_at-table (State.other name) r now room e = no_move r name cancelling now e
cancel_at-table _ r now room e = refl

-- Below the last revision a cancellation does what the table says in every state: it aborts a Run
-- that was not dispatched, moves an active one to CANCELLING, leaves one alone that is being or was
-- cancelled, and refuses any other terminal one.
pub request_cancellation_table :
    (r : Run) (now : ℕ)
    → r.revision < max_run_revision
    → request_cancellation r now ≡ cancelled (cancellation r.state) r now
unfolding request_cancellation
request_cancellation_table r now room = cancel_at-table r.state r now room refl

abbrev pub IsCancelled : State → Type 0
IsCancelled s = (s ≡ cancelling) ⊎ (s ≡ aborted)

abbrev pub Cancels : Run → ℕ → Run → Type 0
Cancels r now s =
    ((s ≡ r) × IsCancelled r.state)
    ⊎ ((t : State) × IsCancelled t × (transition r r.revision (to_state t) now ≡ ok s))

cancel_at-Cancels :
    (st : State) (r : Run) (now : ℕ) (s : Run)
    → r.state ≡ st
    → cancel_at st r now ≡ ok s
    → Cancels r now s
unfolding cancel_at terminal
cancel_at-Cancels cancelling r now s h e = inl (ground arith, inl h)
cancel_at-Cancels aborted r now s h e = inl (ground arith, inr h)
cancel_at-Cancels created r now s h e = inr (aborted, inr refl, e)
cancel_at-Cancels validating r now s h e = inr (aborted, inr refl, e)
cancel_at-Cancels _ r now s h e = inr (cancelling, inl refl, ground arith)

pub request_cancellation-Cancels :
    (r : Run) (now : ℕ) (s : Run) → request_cancellation r now ≡ ok s → Cancels r now s
unfolding request_cancellation
request_cancellation-Cancels r now s e = cancel_at-Cancels r.state r now s refl e

keeps_cancelled : (s : Run) (later : ℕ) → IsCancelled s.state → request_cancellation s later ≡ ok s
unfolding request_cancellation cancel_at
keeps_cancelled s later h = ground arith

-- After a cancellation that succeeds the Run is CANCELLING or ABORTED, and a second cancellation,
-- at any time, succeeds and changes nothing.
pub request_cancellation_twice :
    (r : Run) (now later : ℕ) (s : Run)
    → request_cancellation r now ≡ ok s
    → IsCancelled s.state × (request_cancellation s later ≡ ok s)
unfolding moved
request_cancellation_twice r now later s e = elim (request_cancellation-Cancels r now s e) [
  | inl (same, h) ↦ let g : IsCancelled s.state = rw same h in (g, keeps_cancelled s later g)
  | inr (t, h, moves) ↦
      let (p, q) = transition-Passes r r.revision (to_state t) now moves in
      let g : IsCancelled s.state = rw q h in (g, keeps_cancelled s later g)
]

-- A valid Run stays valid under a cancellation, whatever its state, and its revision grows by at
-- most one.
pub request_cancellation-IsValid :
    (r : Run) (now : ℕ) (s : Run)
    → IsValid r
    → request_cancellation r now ≡ ok s
    → IsValid s × (s.revision ≤ r.revision + 1)
request_cancellation-IsValid r now s v e = elim (request_cancellation-Cancels r now s e) [
  | inl (same, h) ↦ rw same (v, omega arith)
  | inr (t, h, moves) ↦
      let spec = transition-IsValid r r.revision (to_state t) now s v moves in
      (spec.0, omega (arith, spec.1))
]
