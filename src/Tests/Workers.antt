-- ===== src/Tests/Workers.antt =====
-- The worker (internal/worker).
use perfeng_control_plane.Base.{
  ◌+◌, ◌≤◌, ◌≡◌, refl, List, [], ◌∷◌, none, some, true, false, arith, length,
}
use perfeng_control_plane.Base.Int.{pos}
use perfeng_control_plane.Text.{text}
use perfeng_control_plane.Errors.{ok}
use perfeng_control_plane.Contract.{cancelling}
use perfeng_control_plane.Identity.{valid_retry_delay}
use perfeng_control_plane.Run.History.{accepted_run}
use perfeng_control_plane.Run.Claims.{Claim}
use perfeng_control_plane.Worker.{Config, released, default_config, silent, release}
use perfeng_control_plane.Worker.Attempt
use perfeng_control_plane.Worker.Pool
use perfeng_control_plane.Worker.Pool.{empty, takes, take, start_all, start, mem}
use perfeng_control_plane.Worker.Bounded.{AllFit, takes-Bounded, NoDup}
use perfeng_control_plane.Worker.Release.{last_lease, process-released}
use perfeng_control_plane.Tests.Samples.{noon, fresh_run}

abbrev config : Config
unfolding default_config
config = default_config (text "worker-1")

abbrev claim : Claim
claim = record {
  lease = record {
    run_id = fresh_run.id;
    principal = text "alice";
    worker_id = text "worker-1";
    token = text "0123456789abcdef0123456789abcdef";
    expires_at = noon;
  };
  run = fresh_run;
}

-- The same claim twice, then the attempt comes back.
abbrev polls : List Pool.Taken
polls = Pool.polled false (ok (claim ∷ claim ∷ [])) ∷ Pool.completed (silent claim) ∷ []

takes-Bounded_example :
    NoDup (takes config empty polls).active × (length (takes config empty polls).active ≤ 4)
unfolding config default_config AllFit
takes-Bounded_example = takes-Bounded config polls (omega arith, (tt, tt))

abbrev cancelled_claim : Claim
cancelled_claim = record {
  lease = record claim.lease { expires_at = noon + 10000000000 };
  run = record fresh_run { state = cancelling; revision = 5 };
}

abbrev attempt : List Attempt.Taken
attempt = Attempt.renewed false (ok cancelled_claim) none ∷ []

attempt-released :
    Attempt.process config claim attempt
    ≡ some (released cancelled_claim.lease (pos 0), silent cancelled_claim)
unfolding Attempt.process Attempt.take accepted_run release
attempt-released = refl

process-released_example :
    (valid_retry_delay (pos 0) ≡ true) × (cancelled_claim.lease ≡ last_lease claim attempt)
unfolding config default_config valid_retry_delay
process-released_example =
    process-released config claim attempt cancelled_claim.lease (pos 0) (silent cancelled_claim)
      refl attempt-released
