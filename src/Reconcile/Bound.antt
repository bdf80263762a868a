-- ===== src/Reconcile/Bound.antt =====
-- internal/reconcile/bound_execution.go: observing, advancing and stopping a Job that is bound to its
-- Run. The loop of a cancellation runs on fuel: `none` is a loop that still runs.
use perfeng_control_plane.Base.{
  ℕ, zero, suc, Bool, true, false, [], Option, none, some, not, ◌&&◌, ◌||◌, ◌*◌, ltb, if◌then◌else◌,
}
use perfeng_control_plane.Base.Int.{ℤ, pos, negsuc}
use perfeng_control_plane.Text.{Text, text_eq}
use perfeng_control_plane.Text.Regex.{Regex, seq, one_of, matches, alnum, hex, among, times, up_to}
use perfeng_control_plane.Time.{minute, positive_to}
use perfeng_control_plane.Errors.{Error, Result, ok, err, ◌>>=◌, validation, execution_not_bound}
use perfeng_control_plane.Contract.{State, cancelling, aborted, valid_id}
use perfeng_control_plane.Identity.{valid_retry_delay}
use perfeng_control_plane.Run.{to_state}
use perfeng_control_plane.Run.Claims.{Lease, Claim, valid_lease}
use perfeng_control_plane.Reconcile.Stage.{ClaimAdvancer, advance_owned_claim}
use perfeng_control_plane.Reconcile.Lifecycle.{Observation, Decision, decide_bound_execution}

-- internal/kubernetes/execution.go
pub record Execution : Type 0 where
  pub run_id : Text
  pub namespace : Text
  pub job_name : Text
  pub uid : Text
  pub spec_sha256 : Text

-- `^[a-zA-Z0-9][a-zA-Z0-9._:-]{0,127}$`
abbrev uid_pattern : Regex
uid_pattern = seq (one_of alnum) (up_to 127 (one_of (λ c. alnum c || among "._:-" c)))

-- `^[a-f0-9]{64}$`
abbrev fingerprint_pattern : Regex
fingerprint_pattern = times 64 (one_of hex)

-- `dns_label` stands for the test of a DNS label by the Kubernetes library.
unfoldable pub valid_execution : (Text → Bool) → Execution → Bool
valid_execution dns_label e =
    valid_id e.run_id
    && text_eq e.job_name e.run_id
    && dns_label e.namespace
    && matches uid_pattern e.uid
    && matches fingerprint_pattern e.spec_sha256

abbrev pub positive : ℤ → Bool
positive (pos n) = ltb 0 n
positive (negsuc n) = false

pub record Config : Type 0 where
  pub retry_after : ℤ
  pub cancellation_poll_every : ℤ

unfoldable pub valid_config : Config → Bool
valid_config config =
    positive config.retry_after
    && valid_retry_delay config.retry_after
    && positive_to (5 * minute) config.cancellation_poll_every

-- The store, the controller, the verifier and the timer.
pub record World (S : Type 0) : Type 0 where
  pub store : ClaimAdvancer S
  pub get_execution : S → Lease → S × Result (Option Execution)
  pub observe_job : S → Execution → S × Result Observation
  pub request_job_stop : S → Execution → S × Option Error
  pub confirm_execution_stopped : S → Execution → S × Result Bool
  pub pause : S → ℤ → S × Option Error

abbrev is_cancelling : State → Bool
is_cancelling cancelling = true
is_cancelling _ = false

abbrev unnamed : State → Bool
unnamed (State.other name) = text_eq name []
unnamed _ = false

module _ {S : Type 0} (w : World S) (config : Config) where
  unfoldable pub apply : S → Claim → Decision → S × Result ℤ
  apply s c Decision.wait = (s, ok config.retry_after)
  apply s c (Decision.advance change) = advance_owned_claim w.store s c change
  apply s c _ = (s, err validation)

  unfoldable pub cancellation_action : S → State → Execution → S × Result Decision
  cancellation_action s state e =
      let seen = w.observe_job s e in (seen.0, seen.1 >>= decide_bound_execution state)

  -- Whether the stop is complete, and whether it was requested.
  abbrev pub requested : S × Option Error → S × Result (Bool × Bool)
  requested (s, none) = (s, ok (false, true))
  requested (s, some e) = (s, err e)

  abbrev pub confirmed : Bool → S × Result Bool → S × Result (Bool × Bool)
  confirmed stop_requested (s, ok stopped) = (s, ok (stopped, stop_requested))
  confirmed stop_requested (s, err e) = (s, err e)

  unfoldable pub continue_cancellation : S → Execution → Decision → Bool → S × Result (Bool × Bool)
  continue_cancellation s e Decision.stop true = (s, ok (false, true))
  continue_cancellation s e Decision.stop false = requested (w.request_job_stop s e)
  continue_cancellation s e Decision.confirm_stop stop_requested =
      confirmed stop_requested (w.confirm_execution_stopped s e)
  continue_cancellation s e _ stop_requested = (s, err validation)

  -- One turn of the loop up to its wait.
  abbrev pub acted : Execution → Bool → S × Result Decision → S × Result (Bool × Bool)
  acted e stop_requested (s, err x) = (s, err x)
  acted e stop_requested (s, ok action) = continue_cancellation s e action stop_requested

  unfoldable pub turn : S → State → Execution → Bool → S × Result (Bool × Bool)
  turn s state e stop_requested = acted e stop_requested (cancellation_action s state e)

  abbrev pub paused : S × Option Error → (S → Option (S × Result ℤ)) → Option (S × Result ℤ)
  paused (s, some x) again = some (s, err x)
  paused (s, none) again = again s

  abbrev pub after_turn :
      Claim → S × Result (Bool × Bool) → (S → Bool → Option (S × Result ℤ)) → Option (S × Result ℤ)
  after_turn c (s, err x) again = some (s, err x)
  after_turn c (s, ok (true, q)) again = some (apply s c (Decision.advance (to_state aborted)))
  after_turn c (s, ok (false, q)) again = again s q

  unfoldable pub cancel : ℕ → S → Claim → Execution → Bool → Option (S × Result ℤ)
  cancel zero s c e stop_requested = none
  cancel (suc fuel) s c e stop_requested =
      after_turn c (turn s c.run.state e stop_requested)
        λ t q. paused (w.pause t config.cancellation_poll_every) λ u. cancel fuel u c e q

  abbrev decided : S → Claim → Result Decision → S × Result ℤ
  decided s c (err x) = (s, err x)
  decided s c (ok d) = apply s c d

  unfoldable pub observe : S → Claim → Execution → S × Result ℤ
  observe s c e =
      let seen = w.observe_job s e in
      decided seen.0 c (seen.1 >>= decide_bound_execution c.run.state)

  unfoldable pub bound :
      (Text → Bool) → ℕ → S → Claim → Result (Option Execution) → Option (S × Result ℤ)
  bound dns_label fuel s c (err x) = some (s, err x)
  bound dns_label fuel s c (ok none) = some (s, err execution_not_bound)
  bound dns_label fuel s c (ok (some e)) =
      if not (valid_execution dns_label e) || not (text_eq e.run_id c.run.id)
      then some (s, err validation)
      else if is_cancelling c.run.state
      then cancel fuel s c e false
      else some (observe s c e)

  unfoldable pub reconcile : (Text → Bool) → ℕ → S → Claim → Option (S × Result ℤ)
  reconcile dns_label fuel s c =
      if not (valid_lease c.lease) || not (text_eq c.lease.run_id c.run.id) || unnamed c.run.state
      then some (s, err validation)
      else let answer = w.get_execution s c.lease in bound dns_label fuel answer.0 c answer.1
