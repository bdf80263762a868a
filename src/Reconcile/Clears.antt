-- ===== src/Reconcile/Clears.antt =====
-- A cancellation in a world where a Job that is asked to stop goes away
-- (internal/reconcile/bound_execution.go).
use perfeng_control_plane.Base.{
  ℕ, zero, suc, ◌≤◌, ◌<◌, ◌≡◌, refl, Bool, true, false, none, some, arith, ◌∙◌, ap,
}
use perfeng_control_plane.Errors.{ok}
use perfeng_control_plane.Contract.{cancelling, aborted}
use perfeng_control_plane.Run.{to_state}
use perfeng_control_plane.Run.Claims.{Claim}
use perfeng_control_plane.Reconcile.Lifecycle.{
  Observation, Decision, valid_phase, is_absent, decide_state, decide_bound_execution,
}
use perfeng_control_plane.Reconcile.Stage.{advance_owned_claim}
use perfeng_control_plane.Reconcile.Bound.{
  Execution, Config, World, apply, cancellation_action, continue_cancellation, turn, cancel,
}

-- The calls of the loop do not fail. A Job that is asked to stop is there for a number of waits that
-- grows smaller with each, and the verifier confirms the stop of a Job that is gone.
pub record Clears {S : Type 0} (w : World S) (config : Config) (e : Execution) : Type 0 where
  pub waits_left : S → ℕ
  pub is_asked : S → Bool
  pub seen : S → Observation
  pub asked : S → S
  pub verified : S → S
  pub waited : S → S
  pub observes : (s : S) → w.observe_job s e ≡ (s, ok (seen s))
  pub known : (s : S) → valid_phase (seen s).phase ≡ true
  pub present : (s : S) (n : ℕ) → waits_left s ≡ suc n → is_absent (seen s).phase ≡ false
  pub gone : (s : S) → waits_left s ≡ 0 → is_absent (seen s).phase ≡ true
  pub requests : (s : S) → w.request_job_stop s e ≡ (asked s, none)
  pub asks : (s : S) → (waits_left (asked s) ≡ waits_left s) × (is_asked (asked s) ≡ true)
  pub confirms :
      (s : S) → waits_left s ≡ 0 → w.confirm_execution_stopped s e ≡ (verified s, ok true)
  pub pauses : (s : S) → w.pause s config.cancellation_poll_every ≡ (waited s, none)
  pub stays_asked : (s : S) → is_asked s ≡ true → is_asked (waited s) ≡ true
  pub wanes :
      (s : S) (n : ℕ) → is_asked s ≡ true → waits_left s ≡ suc n → waits_left (waited s) < suc n

decide_absent :
    (o : Observation)
    → valid_phase o.phase ≡ true
    → is_absent o.phase ≡ true
    → decide_bound_execution cancelling o ≡ ok Decision.confirm_stop
unfolding decide_bound_execution decide_state
decide_absent o known gone = rw (known, gone) refl

decide_present :
    (o : Observation)
    → valid_phase o.phase ≡ true
    → is_absent o.phase ≡ false
    → decide_bound_execution cancelling o ≡ ok Decision.stop
unfolding decide_bound_execution decide_state
decide_present o known there = rw (known, there) refl

at_state :
    {S : Type 0} (w : World S) (config : Config) (s : S) (c : Claim) (e : Execution) (r : Bool)
    → c.run.state ≡ cancelling
    → turn w config s c.run.state e r ≡ turn w config s cancelling e r
at_state w config s c e r h = ap (λ st. turn w config s st e r) h

module _ {S : Type 0} (w : World S) (config : Config) (e : Execution) (h : Clears w config e) where
  turn_gone :
      (s : S) (r : Bool)
      → h.waits_left s ≡ 0
      → turn w config s cancelling e r ≡ (h.verified s, ok (true, r))
  unfolding turn cancellation_action continue_cancellation
  turn_gone s r z =
      rw (h.observes s, decide_absent (h.seen s) (h.known s) (h.gone s z), h.confirms s z) refl

  turn_asks :
      (s : S) (n : ℕ)
      → h.waits_left s ≡ suc n
      → turn w config s cancelling e false ≡ (h.asked s, ok (false, true))
  unfolding turn cancellation_action continue_cancellation
  turn_asks s n z =
      rw (h.observes s, decide_present (h.seen s) (h.known s) (h.present s n z), h.requests s) refl

  turn_waits :
      (s : S) (n : ℕ)
      → h.waits_left s ≡ suc n
      → turn w config s cancelling e true ≡ (s, ok (false, true))
  unfolding turn cancellation_action continue_cancellation
  turn_waits s n z = rw (h.observes s, decide_present (h.seen s) (h.known s) (h.present s n z)) refl

  -- The loop has returned: the transition to ABORTED, after the verifier at a Job that is gone.
  abbrev Aborts : Claim → S → Bool → ℕ → Type 0
  Aborts c s r fuel =
      (t : S) × (h.waits_left t ≡ 0)
      × (cancel w config fuel s c e r
          ≡ some (advance_owned_claim w.store (h.verified t) c (to_state aborted)))

  ends_gone :
      (c : Claim) (s : S) (r : Bool) (fuel : ℕ)
      → c.run.state ≡ cancelling
      → h.waits_left s ≡ 0
      → Aborts c s r (suc fuel)
  unfolding cancel apply
  ends_gone c s r fuel at z =
      (s, z, rw (at_state w config s c e r at ∙ turn_gone s r z, cancel) refl)

  goes_on :
      (c : Claim) (s t : S) (r : Bool) (fuel : ℕ)
      → turn w config s c.run.state e r ≡ (t, ok (false, true))
      → Aborts c (h.waited t) true fuel
      → Aborts c s r (suc fuel)
  unfolding cancel
  goes_on c s t r fuel made (u, z, rest) = (u, z, rw (made, h.pauses t, cancel) rest)

  asked-Aborts :
      (c : Claim) (fuel n : ℕ) (s : S)
      → c.run.state ≡ cancelling
      → h.is_asked s ≡ true
      → h.waits_left s ≡ n
      → n < fuel
      → Aborts c s true fuel
  asked-Aborts c zero n s at q z enough = absurd (omega (arith, enough))
  asked-Aborts c (suc fuel) zero s at q z enough = ends_gone c s true fuel at z
  asked-Aborts c (suc fuel) (suc n) s at q z enough =
      goes_on c s s true fuel (at_state w config s c e true at ∙ turn_waits s n z) (
        asked-Aborts c fuel (h.waits_left (h.waited s)) (h.waited s) at (h.stays_asked s q) refl
          (omega (arith, enough, h.wanes s n q z)))

  unasked-Aborts :
      (c : Claim) (fuel n : ℕ) (s : S)
      → c.run.state ≡ cancelling
      → h.waits_left s ≡ n
      → n < suc fuel
      → Aborts c s false (suc fuel)
  unasked-Aborts c fuel zero s at z enough = ends_gone c s false fuel at z
  unasked-Aborts c fuel (suc n) s at z enough =
      let (same, q) = h.asks s in
      goes_on c s (h.asked s) false fuel (at_state w config s c e false at ∙ turn_asks s n z) (
        asked-Aborts c fuel (h.waits_left (h.waited (h.asked s))) (h.waited (h.asked s)) at
          (h.stays_asked (h.asked s) q) refl
          (omega (arith, enough, h.wanes (h.asked s) n q (same ∙ z))))

  -- The calls of the loop do not fail, a Job that is asked to stop goes away after finitely many
  -- waits, and the verifier confirms the stop of a Job that is gone. Then the loop of a CANCELLING Run,
  -- whether its Job is still there or not, returns within one turn more than the Job has waits left. It
  -- has asked the verifier at a Job that is gone, and ends with the transition of the Run to ABORTED.
  pub cancel-Clears :
      (c : Claim) (s : S) (fuel : ℕ)
      → c.run.state ≡ cancelling
      → h.waits_left s ≤ fuel
      → (t : S) × (h.waits_left t ≡ 0)
        × (cancel w config (suc fuel) s c e false
            ≡ some (advance_owned_claim w.store (h.verified t) c (to_state aborted)))
  cancel-Clears c s fuel at enough =
      unasked-Aborts c fuel (h.waits_left s) s at refl (omega (arith, enough))
