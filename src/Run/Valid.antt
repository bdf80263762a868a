-- ===== src/Run/Valid.antt =====
-- What every stored Run satisfies, and what one transition does to it.
use perfeng_control_plane.Base.{
  ℕ, ◌+◌, ◌≤◌, ◌<◌, ◌≡◌, refl, ◌↔◌, Bool, true, false, Option, none, some, arith, is_none,
  if◌then◌else◌,
}
use perfeng_control_plane.Errors.{ok, err, stale_revision}
use perfeng_control_plane.Contract.{State, can_transition, terminal}
use perfeng_control_plane.Run.{
  Run, Change, Failure, max_run_revision, accepts_failure, requires_failure, bad_exit, bad_failure,
  moved, transition, clamp_time,
}

-- The failure that a Run shows fits its state.
abbrev pub FailureFits : State → Option Failure → Type 0
FailureFits state none = requires_failure state ≡ false
FailureFits state (some f) = accepts_failure state f.code ≡ true

abbrev pub FinishFits : Bool → Option ℕ → ℕ → Type 0
FinishFits true finished updated = finished ≡ some updated
FinishFits false finished updated = finished ≡ none

pub record IsValid (r : Run) : Type 0 where
  pub numbered : (1 ≤ r.revision) × (r.revision ≤ max_run_revision)
  pub ordered : r.created_at ≤ r.updated_at
  pub failed : FailureFits r.state r.failure
  pub finished : FinishFits (terminal r.state) r.finished_at r.updated_at

-- The guards that a transition passes.
pub record Passes (r : Run) (expected : ℕ) (change : Change) : Type 0 where
  pub current : r.revision ≡ expected
  pub room : r.revision < max_run_revision
  pub edge : can_transition r.state change.state ≡ true
  pub exit : bad_exit change.tool_exit_code ≡ false
  pub message : bad_failure change.state change.failure ≡ false
  pub named : requires_failure change.state ≡ true → is_none change.failure ≡ false

pub transition-ok :
    (r : Run) (expected : ℕ) (change : Change) (now : ℕ)
    → Passes r expected change
    → transition r expected change now ≡ ok (moved r change now)
unfolding transition
transition-ok r expected change now p = ground arith

pub transition-Passes :
    (r : Run) (expected : ℕ) (change : Change) (now : ℕ) {s : Run}
    → transition r expected change now ≡ ok s
    → Passes r expected change × (s ≡ moved r change now)
unfolding transition
transition-Passes r expected change now e = ground arith

-- The order in which the guards refuse.
pub transition-stale :
    (r : Run) (expected : ℕ) (change : Change) (now : ℕ)
    → (transition r expected change now ≡ err stale_revision) ↔ ¬ (r.revision ≡ expected)
unfolding transition
transition-stale r expected change now = (λ h. ground arith, λ h. ground arith)

-- A state with a next one is not terminal.
pub terminal-no_edge : (s t : State) → can_transition s t ≡ true → terminal s ≡ false
unfolding can_transition terminal
terminal-no_edge s t h = ground arith

pub accepts-requires : (s : State) (c : _) → accepts_failure s c ≡ true → requires_failure s ≡ true
unfolding accepts_failure requires_failure
accepts-requires s c h = ground arith

moved_ordered : (u now : ℕ) → (u ≤ clamp_time u now) × (now ≤ clamp_time u now)
moved_ordered u now = ground arith

moved-FinishFits :
    (b c : Bool) (finished : Option ℕ) (old at : ℕ)
    → b ≡ false
    → FinishFits b finished old
    → FinishFits c (if c then some at else finished) at
moved-FinishFits true c finished old at h f = cc
moved-FinishFits false true finished old at h f = refl
moved-FinishFits false false finished old at h f = f

moved-FailureFits :
    (s : State) (failure : Option Failure)
    → bad_failure s failure ≡ false
    → (requires_failure s ≡ true → is_none failure ≡ false)
    → FailureFits s failure
unfolding bad_failure
moved-FailureFits s none h k = ground arith
moved-FailureFits s (some f) h k = ground arith

pub moved-IsValid :
    (r : Run) (expected : ℕ) (change : Change) (now : ℕ)
    → IsValid r
    → Passes r expected change
    → IsValid (moved r change now)
unfolding moved
moved-IsValid r expected change now v p = record {
  numbered = (omega arith, omega arith);
  ordered = omega (arith, v.ordered, (moved_ordered r.updated_at now).0);
  failed = moved-FailureFits change.state change.failure p.message p.named;
  finished =
      moved-FinishFits (terminal r.state) (terminal change.state) r.finished_at r.updated_at _
        (terminal-no_edge r.state change.state p.edge) v.finished;
}

-- Every accepted transition keeps a Run valid, moves its revision by one and its state along one
-- edge of the lifecycle, and changes neither its identity, its request nor its creation time; its
-- update time goes back neither behind the old one nor behind the clock.
pub transition-IsValid :
    (r : Run) (expected : ℕ) (change : Change) (now : ℕ) (s : Run)
    → IsValid r
    → transition r expected change now ≡ ok s
    → IsValid s
      × (s.revision ≡ expected + 1)
      × (s.state ≡ change.state)
      × (can_transition r.state s.state ≡ true)
      × (s.id ≡ r.id)
      × (s.request ≡ r.request)
      × (s.created_at ≡ r.created_at)
      × (r.updated_at ≤ s.updated_at)
      × (now ≤ s.updated_at)
unfolding moved
transition-IsValid r expected change now s v e =
    let (p, q) = transition-Passes r expected change now e in
    let valid = moved-IsValid r expected change now v p in
    ground (arith, valid, moved_ordered r.updated_at now)
