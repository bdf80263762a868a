-- ===== src/Reconcile/Allowed.antt =====
-- The decisions fit the lifecycle: a stage asks only for transitions that the Run of its claim allows.
use perfeng_control_plane.Base.{
  ℕ, ◌<◌, ◌≡◌, refl, true, false, some, arith, ◌⊎◌, inl, inr, Bool-cases, is_none,
}
unfoldable use perfeng_control_plane.Text.Utf8.{valid_string, rune_count}
use perfeng_control_plane.Text.{Text}
use perfeng_control_plane.Errors.{ok}
use perfeng_control_plane.Contract.{
  State, provisioning, warming_up, running, collecting, cancelling, infrastructure_failure,
  can_transition,
}
use perfeng_control_plane.Run.{
  Run, Change, max_run_revision, bad_exit, bad_failure, requires_failure, accepts_failure, moved,
  transition, to_state, infrastructure_error,
}
use perfeng_control_plane.Run.Valid.{Passes, transition-ok}
use perfeng_control_plane.Reconcile.Lifecycle.{
  JobPhase, Observation, Decision, decide_bound_execution, decide_observed, decide_execution,
  decide_state, failure_change, disappeared, deletion, is_execution, is_absent,
}

-- A change that every Run in the state accepts below the last revision.
abbrev pub Allowed : State → Change → Type 0
Allowed s change =
    (can_transition s change.state ≡ true)
    × (bad_exit change.tool_exit_code ≡ false)
    × (bad_failure change.state change.failure ≡ false)
    × (requires_failure change.state ≡ true → is_none change.failure ≡ false)

pub Allowed-Passes :
    (r : Run) (change : Change)
    → r.revision < max_run_revision
    → Allowed r.state change
    → Passes r r.revision change
Allowed-Passes r change room (edge, exit, message, named) = record {
  current = refl;
  room = room;
  edge = edge;
  exit = exit;
  message = message;
  named = named;
}

abbrev Chosen : State → Change → Type 0
Chosen s change =
    ((s ≡ provisioning) × (change ≡ to_state running))
    ⊎ (((s ≡ warming_up) × (change ≡ to_state collecting))
        ⊎ (((s ≡ running) × (change ≡ to_state collecting))
            ⊎ ((is_execution s ≡ true)
                × ((change ≡ failure_change disappeared) ⊎ (change ≡ failure_change deletion)))))

observed-Chosen :
    (s : State) (phase : JobPhase) (change : Change)
    → decide_observed s phase ≡ ok (Decision.advance change)
    → Chosen s change
unfolding decide_observed
observed-Chosen provisioning phase change h = inl (refl, ground arith)
observed-Chosen warming_up phase change h = inr (inl (refl, ground arith))
observed-Chosen running phase change h = inr (inr (inl (refl, ground arith)))
observed-Chosen _ phase change h = absurd (ground arith)

execution-Chosen :
    (s : State) (o : Observation) (change : Change)
    → decide_execution s o ≡ ok (Decision.advance change)
    → Chosen s change
unfolding decide_execution
execution-Chosen s o change h = elim (Bool-cases (is_execution s)) [
  | inr other ↦ absurd (ground arith)
  | inl active ↦ elim (Bool-cases (is_absent o.phase)) [
    | inl gone ↦ inr (inr (inr (active, inl (ground arith))))
    | inr there ↦ elim (Bool-cases o.deleting) [
      | inl deleting ↦ inr (inr (inr (active, inr (ground arith))))
      | inr kept ↦ observed-Chosen s o.phase change (ground arith)
    ]
  ]
]

decided-Chosen :
    (s : State) (o : Observation) (change : Change)
    → decide_bound_execution s o ≡ ok (Decision.advance change)
    → Chosen s change
unfolding decide_bound_execution decide_state
decided-Chosen cancelling o change h = absurd (ground arith)
decided-Chosen s o change h = execution-Chosen s o change (ground arith)

failure-Allowed :
    (s : State) (message : Text)
    → is_execution s ≡ true
    → bad_failure infrastructure_failure
        (some (record { code = infrastructure_error; message = message }))
      ≡ false
    → Allowed s (failure_change message)
unfolding can_transition bad_exit
failure-Allowed provisioning message h fine = (refl, refl, fine, λ _. refl)
failure-Allowed warming_up message h fine = (refl, refl, fine, λ _. refl)
failure-Allowed running message h fine = (refl, refl, fine, λ _. refl)
failure-Allowed _ message h fine = absurd (ground arith)

pub quiet-Allowed :
    (s t : State) → can_transition s t ≡ true → requires_failure t ≡ false → Allowed s (to_state t)
unfolding bad_exit bad_failure
quiet-Allowed s t edge quiet = (edge, refl, refl, λ h. absurd (grind (arith, h, quiet)))

decided-Allowed :
    (s : State) (o : Observation) (change : Change)
    → decide_bound_execution s o ≡ ok (Decision.advance change)
    → Allowed s change
unfolding can_transition requires_failure bad_failure accepts_failure disappeared deletion
    valid_string rune_count
decided-Allowed s o change h = elim (decided-Chosen s o change h) [
  | inl (at, e) ↦ rw (at, e) (quiet-Allowed provisioning running refl refl)
  | inr (inl (at, e)) ↦ rw (at, e) (quiet-Allowed warming_up collecting refl refl)
  | inr (inr (inl (at, e))) ↦ rw (at, e) (quiet-Allowed running collecting refl refl)
  | inr (inr (inr (at, inl e))) ↦ rw e (failure-Allowed s disappeared at refl)
  | inr (inr (inr (at, inr e))) ↦ rw e (failure-Allowed s deletion at refl)
]

-- Every transition that the observation of a bound Job decides on is one that a Run in that state
-- accepts at its own revision below the last: the edge exists, and a failure comes with a code and a
-- message that the state takes.
pub decide_bound_execution-accepted :
    (r : Run) (o : Observation) (change : Change) (now : ℕ)
    → r.revision < max_run_revision
    → decide_bound_execution r.state o ≡ ok (Decision.advance change)
    → transition r r.revision change now ≡ ok (moved r change now)
decide_bound_execution-accepted r o change now room h =
    transition-ok r r.revision change now
      (Allowed-Passes r change room (decided-Allowed r.state o change h))
