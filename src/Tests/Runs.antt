-- ===== src/Tests/Runs.antt =====
-- Runs of the lifecycle (internal/run/domain.go).
use perfeng_control_plane.Base.{◌+◌, ◌≤◌, ◌≡◌, refl, none, some, true, arith}
use perfeng_control_plane.Text.{text}
unfoldable use perfeng_control_plane.Text.Utf8.{valid_string, rune_count}
use perfeng_control_plane.Errors.{ok}
use perfeng_control_plane.Contract.{validating, aborted, invalid, can_transition, terminal}
use perfeng_control_plane.Run.{
  Run, Change, to_state, validation_failed, transition, request_cancellation, bad_exit, bad_failure,
  requires_failure, moved, accepts_failure,
}
use perfeng_control_plane.Run.Valid.{IsValid, transition-IsValid}
use perfeng_control_plane.Run.Cancel.{
  cancellation, cancelled, request_cancellation_table, request_cancellation_twice, IsCancelled,
}
use perfeng_control_plane.Run.History.{
  accepted_run, accepted_run-IsValid, Reach, here, next, Step, accepted-revision_bound,
  terminal-Reach,
}
use perfeng_control_plane.Tests.Samples.{noon, request, fresh_run}

abbrev started : Run
started = moved fresh_run (to_state validating) (noon + 5)

fresh-started : transition fresh_run 1 (to_state validating) (noon + 5) ≡ ok started
unfolding transition accepted_run can_transition bad_exit bad_failure requires_failure
fresh-started = refl

abbrev rejection : Change
rejection = record {
  state = invalid;
  failure = some (record { code = validation_failed; message = text "plan is invalid" });
  tool_exit_code = none;
}

abbrev rejected : Run
rejected = moved started rejection (noon + 9)

started-rejected : transition started 2 rejection (noon + 9) ≡ ok rejected
unfolding transition accepted_run moved can_transition bad_exit bad_failure requires_failure
    valid_string rune_count accepts_failure
started-rejected = refl

transition-IsValid_example :
    IsValid started
    × (started.revision ≡ 1 + 1)
    × (started.state ≡ validating)
    × (can_transition fresh_run.state started.state ≡ true)
    × (started.id ≡ fresh_run.id)
    × (started.request ≡ fresh_run.request)
    × (started.created_at ≡ fresh_run.created_at)
    × (fresh_run.updated_at ≤ started.updated_at)
    × (noon + 5 ≤ started.updated_at)
transition-IsValid_example =
    transition-IsValid fresh_run 1 (to_state validating) (noon + 5) started
      (accepted_run-IsValid _ request noon) fresh-started

history : Reach fresh_run rejected
history =
    next (next here (Step.advance (to_state validating) 1 (noon + 5) fresh-started))
      (Step.advance rejection 2 (noon + 9) started-rejected)

accepted-revision_bound_example : IsValid rejected × (rejected.revision ≤ 10)
accepted-revision_bound_example = accepted-revision_bound _ request noon rejected history

abbrev stopped : Run
stopped = moved fresh_run (to_state aborted) (noon + 1)

stopped-kept : request_cancellation stopped (noon + 2) ≡ ok stopped
unfolding request_cancellation moved
stopped-kept = refl

terminal-Reach_example : stopped ≡ stopped
unfolding moved terminal
terminal-Reach_example = terminal-Reach refl (next here (Step.cancel (noon + 2) stopped-kept))

request_cancellation_table_example :
    request_cancellation fresh_run (noon + 1)
    ≡ cancelled (cancellation fresh_run.state) fresh_run (noon + 1)
unfolding accepted_run
request_cancellation_table_example = request_cancellation_table fresh_run (noon + 1) (omega arith)

fresh-cancelled : request_cancellation fresh_run (noon + 1) ≡ ok stopped
unfolding accepted_run
fresh-cancelled = request_cancellation_table fresh_run (noon + 1) (omega arith)

request_cancellation_twice_example :
    IsCancelled stopped.state × (request_cancellation stopped (noon + 7) ≡ ok stopped)
request_cancellation_twice_example =
    request_cancellation_twice fresh_run (noon + 1) (noon + 7) stopped fresh-cancelled
