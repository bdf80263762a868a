-- ===== src/Tests/Stages.antt =====
-- Stages of the reconciliation (internal/reconcile).
use perfeng_control_plane.Base.{
  ℕ, suc, zero, ◌+◌, ◌-◌, ◌≤◌, ◌<◌, Bool, ◌≡◌, refl, [], ◌∷◌, none, some, true, false, arith,
}
use perfeng_control_plane.Base.Int.{pos}
unfoldable use perfeng_control_plane.Base.Maps.{lookup}
unfoldable use perfeng_control_plane.Text.{Text-discrete}
use perfeng_control_plane.Text.{text}
use perfeng_control_plane.Errors.{Error, ok}
use perfeng_control_plane.Contract.{
  cancelling, running, validating, collecting, aborted, terminal, valid_id,
}
use perfeng_control_plane.Identity.{valid_worker_id, valid_token}
use perfeng_control_plane.Run.{Run, kubernetes, moved, to_state, transition}
use perfeng_control_plane.Run.History.{accepted_run}
use perfeng_control_plane.Run.Claims.{Claim, valid_lease}
use perfeng_control_plane.Postgres.Tables.{Database}
use perfeng_control_plane.Postgres.Claims.{lock_owned_claim}
use perfeng_control_plane.Postgres.Fencing.{claim_row}
use perfeng_control_plane.Reconcile.Lifecycle.{
  JobPhase, Observation, Decision, absent, active, succeeded, decide_bound_execution, decide_state,
  decide_execution, decide_observed, valid_phase, ended, is_absent,
}
use perfeng_control_plane.Reconcile.Stage.{advance_owned_claim, valid_owned_claim}
use perfeng_control_plane.Reconcile.Validation.{Preflight, reconcile}
use perfeng_control_plane.Reconcile.Bound.{
  Execution, Config, World, turn, cancellation_action, continue_cancellation, cancel, apply,
}
use perfeng_control_plane.Reconcile.Allowed.{decide_bound_execution-accepted}
use perfeng_control_plane.Reconcile.Clears.{Clears, cancel-Clears}
use perfeng_control_plane.Reconcile.Stops.{cancel-stops_once, counting}
use perfeng_control_plane.Reconcile.Preflight.{at_time, after, verdict, Fresh, reconcile_table}
use perfeng_control_plane.Tests.Samples.{noon, fresh_run}

abbrev busy : Run
busy = record fresh_run { state = running; revision = 4 }

abbrev finished_job : Observation
finished_job = record { phase = succeeded; deleting = false }

busy-decided :
    decide_bound_execution running finished_job ≡ ok (Decision.advance (to_state collecting))
unfolding decide_bound_execution decide_state decide_execution decide_observed valid_phase ended
busy-decided = refl

decide_bound_execution-accepted_example :
    transition busy 4 (to_state collecting) (noon + 9)
    ≡ ok (moved busy (to_state collecting) (noon + 9))
unfolding accepted_run
decide_bound_execution-accepted_example =
    decide_bound_execution-accepted busy finished_job (to_state collecting) (noon + 9) (omega arith)
      busy-decided

abbrev phase_of : ℕ → JobPhase
phase_of zero = absent
phase_of (suc n) = active

-- A Job that is there for `n` observations more and is then gone.
abbrev fading : World ℕ
fading = record {
  store = record { advance_claim = λ n l revision change. (n, ok busy) };
  get_execution = λ n l. (n, ok none);
  observe_job = λ n e. (n, ok (record { phase = phase_of n; deleting = false }));
  request_job_stop = λ n e. (n, none);
  confirm_execution_stopped = λ n e. (n, ok true);
  pause = λ n d. (n - 1, none);
}

abbrev config : Config
config = record { retry_after = pos 5000000000; cancellation_poll_every = pos 1000000000 }

abbrev stopped_claim : Claim
stopped_claim = record {
  lease = record {
    run_id = fresh_run.id;
    principal = text "alice";
    worker_id = text "worker-1";
    token = text "0123456789abcdef0123456789abcdef";
    expires_at = noon;
  };
  run = record fresh_run { state = cancelling; revision = 4 };
}

abbrev execution : Execution
execution = record {
  run_id = fresh_run.id;
  namespace = text "perf";
  job_name = fresh_run.id;
  uid = text "u-1";
  spec_sha256 = text "00";
}

-- A Job that stays until it is asked to stop.
abbrev one_less : ℕ × Bool → ℕ × Bool
one_less (n, true) = (n - 1, true)
one_less (n, false) = (n, false)

abbrev stubborn : World (ℕ × Bool)
stubborn = record {
  store = record { advance_claim = λ s l revision change. (s, ok busy) };
  get_execution = λ s l. (s, ok none);
  observe_job = λ s e. (s, ok (record { phase = phase_of s.0; deleting = s.1 }));
  request_job_stop = λ s e. ((s.0, true), none);
  confirm_execution_stopped = λ s e. (s, ok true);
  pause = λ s d. (one_less s, none);
}

phase_of-known : (n : ℕ) → valid_phase (phase_of n) ≡ true
unfolding valid_phase
phase_of-known zero = refl
phase_of-known (suc n) = refl

phase_of-absent : (n : ℕ) → n ≡ 0 → is_absent (phase_of n) ≡ true
phase_of-absent zero h = refl
phase_of-absent (suc n) h = absurd (omega (arith, h))

phase_of-present : (m n : ℕ) → m ≡ suc n → is_absent (phase_of m) ≡ false
phase_of-present zero n h = absurd (omega (arith, h))
phase_of-present (suc m) n h = refl

one_less-asked : (s : ℕ × Bool) → s.1 ≡ true → (one_less s).1 ≡ true
one_less-asked (n, true) h = refl
one_less-asked (n, false) h = h

one_less-lt : (s : ℕ × Bool) (n : ℕ) → s.1 ≡ true → s.0 ≡ suc n → (one_less s).0 < suc n
one_less-lt (m, true) n h k = omega (arith, k)
one_less-lt (m, false) n h k = absurd (ground (arith, h))

clears : Clears stubborn config execution
clears = record {
  waits_left = λ s. s.0;
  is_asked = λ s. s.1;
  seen = λ s. record { phase = phase_of s.0; deleting = s.1 };
  asked = λ s. (s.0, true);
  verified = λ s. s;
  waited = one_less;
  observes = λ s. refl;
  known = λ s. phase_of-known s.0;
  present = λ s n h. phase_of-present s.0 n h;
  gone = λ s h. phase_of-absent s.0 h;
  requests = λ s. refl;
  asks = λ s. (refl, refl);
  confirms = λ s h. refl;
  pauses = λ s. refl;
  stays_asked = one_less-asked;
  wanes = one_less-lt;
}

cancel-Clears_example :
    (t : ℕ × Bool) × (t.0 ≡ 0)
    × (cancel stubborn config 4 (3, false) stopped_claim execution false
        ≡ some (advance_owned_claim stubborn.store t stopped_claim (to_state aborted)))
unfolding clears
cancel-Clears_example =
    cancel-Clears stubborn config execution clears stopped_claim (3, false) 3 refl (omega arith)

counted-run :
    cancel (counting fading) config 2 (1, 0) stopped_claim execution false
    ≡ some ((0, 1), ok (pos 0))
unfolding cancel counting turn cancellation_action continue_cancellation decide_bound_execution
    decide_state valid_phase apply advance_owned_claim
counted-run = refl

cancel-stops_once_example : 1 ≤ 1
cancel-stops_once_example =
    cancel-stops_once fading config 2 1 1 0 stopped_claim execution (ok (pos 0)) counted-run

abbrev waiting_run : Run
waiting_run = moved fresh_run (to_state validating) (noon + 1)

abbrev waiting_claim : Claim
waiting_claim = record { lease = stopped_claim.lease; run = waiting_run }

abbrev waiting_db : Database
waiting_db = record {
  runs =
      (
        fresh_run.id,
        record { principal = text "alice"; target = kubernetes; snapshot = waiting_run },
      )
      ∷ [];
  bindings = [];
  leases =
      (
        fresh_run.id,
        claim_row (text "worker-1") (text "0123456789abcdef0123456789abcdef") (pos 30000000000)
            noon,
      )
      ∷ [];
  native_leases = [];
  held = [];
  present = [];
}

abbrev refusing : Preflight Database ℕ
refusing = record {
  resolve_job = λ db principal r. (db, ok (some 7));
  validate_job = λ id job. some Error.forbidden;
}

waiting-Fresh : Fresh waiting_db waiting_claim (noon + 2)
unfolding lock_owned_claim lookup Text-discrete accepted_run moved terminal valid_owned_claim
    valid_lease valid_id valid_worker_id valid_token
waiting-Fresh = record { owned = refl; well_formed = refl; room = omega arith; waiting = refl }

reconcile_table_example :
    reconcile (at_time (noon + 2)) refusing waiting_db waiting_claim
    ≡ after waiting_db waiting_claim
        (noon + 2)
        (verdict {Job = ℕ} (λ job. some Error.forbidden) (ok (some 7)))
reconcile_table_example =
    reconcile_table refusing waiting_db waiting_claim (noon + 2) (ok (some 7)) waiting-Fresh refl
