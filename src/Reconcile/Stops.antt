-- ===== src/Reconcile/Stops.antt =====
-- The loop of a cancellation stops the Job at most once.
use perfeng_control_plane.Base.{
  ℕ, zero, suc, ◌+◌, ◌≤◌, ◌≡◌, Bool, true, false, Option, none, some, arith,
}
use mathlib.Core.Path.{subst}
use perfeng_control_plane.Base.Int.{ℤ}
use perfeng_control_plane.Errors.{Error, Result, ok, err, ◌>>=◌}
use perfeng_control_plane.Contract.{State}
use perfeng_control_plane.Run.Claims.{Claim}
use perfeng_control_plane.Reconcile.Lifecycle.{Decision, decide_bound_execution}
use perfeng_control_plane.Reconcile.Stage.{advance_owned_claim}
use perfeng_control_plane.Reconcile.Bound.{
  Execution, Config, World, apply, cancellation_action, requested, confirmed, continue_cancellation,
  acted, turn, paused, after_turn, cancel,
}

abbrev pub counted {ℓ} : {S : Type 0} {X : Type ℓ} → ℕ → S × X → (S × ℕ) × X
counted n (s, x) = ((s, n), x)

abbrev pub count_stop : {S : Type 0} → ℕ → S × Option Error → (S × ℕ) × Option Error
count_stop n (s, none) = ((s, suc n), none)
count_stop n (s, some x) = ((s, n), some x)

-- A world that also counts the stop requests that were accepted.
unfoldable pub counting : {S : Type 0} → World S → World (S × ℕ)
counting w = record {
  store = record {
    advance_claim =
        λ s l revision change. counted s.1 (w.store.advance_claim s.0 l revision change);
  };
  get_execution = λ s l. counted s.1 (w.get_execution s.0 l);
  observe_job = λ s e. counted s.1 (w.observe_job s.0 e);
  request_job_stop = λ s e. count_stop s.1 (w.request_job_stop s.0 e);
  confirm_execution_stopped = λ s e. counted s.1 (w.confirm_execution_stopped s.0 e);
  pause = λ s d. counted s.1 (w.pause s.0 d);
}

-- The stops that the rest of the loop may still make.
abbrev allowance : Bool → ℕ
allowance true = 0
allowance false = 1

abbrev Within : {S : Type 0} → ℕ → (S × ℕ) × Result (Bool × Bool) → Type 0
Within m ((s, n), err x) = n ≤ m
Within m ((s, n), ok (b, q)) = n + allowance q ≤ m

module _ {S : Type 0} (w : World S) (config : Config) where
  stop-Within :
      (n : ℕ) (answer : S × Option Error)
      → Within (n + 1) (requested (counting w) config (count_stop n answer))
  stop-Within n (s, none) = omega arith
  stop-Within n (s, some x) = omega arith

  confirm-Within :
      (n : ℕ) (r : Bool) (answer : S × Result Bool)
      → Within (n + allowance r) (confirmed (counting w) config r (counted n answer))
  confirm-Within n r (s, ok b) = omega arith
  confirm-Within n r (s, err x) = omega arith

  continue-Within :
      (s : S) (n : ℕ) (e : Execution) (d : Decision) (r : Bool)
      → Within (n + allowance r) (continue_cancellation (counting w) config (s, n) e d r)
  unfolding continue_cancellation counting
  continue-Within s n e Decision.stop true = omega arith
  continue-Within s n e Decision.stop false = stop-Within n (w.request_job_stop s e)
  continue-Within s n e Decision.confirm_stop r =
      confirm-Within n r (w.confirm_execution_stopped s e)
  continue-Within s n e Decision.wait r = omega arith
  continue-Within s n e (Decision.advance change) r = omega arith

  acted-Within :
      (s : S) (n : ℕ) (e : Execution) (r : Bool) (d : Result Decision)
      → Within (n + allowance r) (acted (counting w) config e r ((s, n), d))
  acted-Within s n e r (err x) = omega arith
  acted-Within s n e r (ok d) = continue-Within s n e d r

  turn-Within :
      (s : S) (n : ℕ) (st : State) (e : Execution) (r : Bool)
      → Within (n + allowance r) (turn (counting w) config (s, n) st e r)
  unfolding turn cancellation_action counting
  turn-Within s n st e r =
      acted-Within (w.observe_job s e).0 n e r ((w.observe_job s e).1 >>= decide_bound_execution st)

  abbrev Few : ℕ → Option ((S × ℕ) × Result ℤ) → Type 0
  Few m none = Unit {0}
  Few m (some ((s, n), x)) = n ≤ m

  paused-Few :
      (m n : ℕ) (answer : S × Option Error) (go : S × ℕ → Option ((S × ℕ) × Result ℤ))
      → n ≤ m
      → ((u : S) → Few m (go (u, n)))
      → Few m (paused (counting w) config (counted n answer) go)
  paused-Few m n (s, none) go le f = f s
  paused-Few m n (s, some x) go le f = le

  after_turn-Few :
      (m : ℕ) (c : Claim) (answer : (S × ℕ) × Result (Bool × Bool))
      (go : S × ℕ → Bool → Option ((S × ℕ) × Result ℤ))
      → Within m answer
      → ((u : S) (k : ℕ) (q : Bool) → k + allowance q ≤ m → Few m (go (u, k) q))
      → Few m (after_turn (counting w) config c answer go)
  unfolding apply advance_owned_claim counting
  after_turn-Few m c ((s, n), err x) go h f = h
  after_turn-Few m c ((s, n), ok (true, q)) go h f = omega (arith, h)
  after_turn-Few m c ((s, n), ok (false, q)) go h f = f s n q h

  Within-mono : (a b : ℕ) (x : (S × ℕ) × Result (Bool × Bool)) → Within a x → a ≤ b → Within b x
  Within-mono a b ((s, n), err x) h le = omega (arith, h)
  Within-mono a b ((s, n), ok (c, q)) h le = omega (arith, h)

  cancel-Few :
      (fuel m n : ℕ) (s : S) (c : Claim) (e : Execution) (r : Bool)
      → n + allowance r ≤ m
      → Few m (cancel (counting w) config fuel (s, n) c e r)
  unfolding cancel counting
  cancel-Few zero m n s c e r h = tt
  cancel-Few (suc fuel) m n s c e r h =
      after_turn-Few m c (turn (counting w) config (s, n) c.run.state e r) _
        (Within-mono (n + allowance r) m (turn (counting w) config (s, n) c.run.state e r)
          (turn-Within s n c.run.state e r) h)
        λ u k q le.
          paused-Few m k (w.pause u config.cancellation_poll_every)
            (λ v. cancel (counting w) config fuel v c e q) (omega (arith, le))
            λ v. cancel-Few fuel m k v c e q le

  -- The Kubernetes API accepts at most one stop request of an attempt, however often the loop turns.
  pub cancel-stops_once :
      (fuel n : ℕ) (s t : S) (c : Claim) (e : Execution) (x : Result ℤ)
      → cancel (counting w) config fuel (s, 0) c e false ≡ some ((t, n), x)
      → n ≤ 1
  cancel-stops_once fuel n s t c e x h =
      subst (Few 1) h (cancel-Few fuel 1 0 s c e false (omega arith))
