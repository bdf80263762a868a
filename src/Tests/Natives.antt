-- ===== src/Tests/Natives.antt =====
-- Phases and renewals of a native worker (internal/nativeworker).
use perfeng_control_plane.Base.{◌+◌, ◌≤◌, ◌<◌, ◌≡◌, refl, true, arith}
use perfeng_control_plane.Text.{Text, text}
use perfeng_control_plane.Errors.{err, conflict}
use perfeng_control_plane.Contract.{warming_up}
use perfeng_control_plane.Identity.{valid_lease_ttl}
use perfeng_control_plane.Run.History.{accepted_run}
use perfeng_control_plane.Native.{
  preparing, phase_target, phase_state_index, advance_phase, valid_lease_identifier,
  valid_cancellation_grace, valid_lease_policy, valid_renewal,
}
use perfeng_control_plane.Native.Phases.{Arrives, advance_phase-Arrives}
use perfeng_control_plane.Native.Timing.{response, valid_renewal-response}
use perfeng_control_plane.Tests.Samples.{noon, fresh_run}

advance_phase-Arrives_example :
    (0 ≤ 3 → Arrives fresh_run 3 warming_up (advance_phase fresh_run 1 preparing (noon + 1)))
    × (3 < 0 → advance_phase fresh_run 1 preparing (noon + 1) ≡ err conflict)
unfolding phase_target phase_state_index accepted_run
advance_phase-Arrives_example =
    advance_phase-Arrives fresh_run preparing warming_up 0 3 (noon + 1) refl refl refl (omega arith)

abbrev uuid : Text
uuid = text "0123abcd-0123-4abc-8abc-0123456789ab"

valid_renewal-response_example :
    valid_renewal (response uuid uuid 5 noon 30000000000 10000000000 10 true) ≡ true
unfolding valid_lease_identifier valid_cancellation_grace valid_lease_policy valid_lease_ttl
valid_renewal-response_example =
    valid_renewal-response uuid uuid 5 noon 30000000000 10000000000 10 true refl refl (omega arith)
      (omega arith) refl refl
