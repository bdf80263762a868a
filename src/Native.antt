-- ===== src/Native.antt =====
-- internal/nativeworker: the phases that a native worker reports, and the timing of its lease.
use perfeng_control_plane.Base.{
  ℕ, zero, suc, ◌+◌, ◌-◌, ◌*◌, ◌/◌, ◌%◌, Bool, true, false, Option, none, some, not, ◌&&◌, ◌||◌,
  ltb, leb, ◌==◌, if◌then◌else◌, is_none,
}
use perfeng_control_plane.Base.Int.{ℤ, pos, negsuc}
use perfeng_control_plane.Text.{Text}
use perfeng_control_plane.Text.Regex.{Regex, seq, one_of, matches, hex, byte, among, times}
use perfeng_control_plane.Time.{second, sub_time}
use perfeng_control_plane.Errors.{
  Error, Result, ok, err, ◌>>=◌, validation, conflict, stale_revision,
}
use perfeng_control_plane.Contract.{
  State, created, validating, provisioning, warming_up, running, collecting,
}
use perfeng_control_plane.Identity.{valid_lease_ttl}
use perfeng_control_plane.Run.{Run, to_state, transition}
pub mod Phases
pub mod Timing

pub data Phase : Type 0 where
  preparing measuring uploading finalizing : Phase
  other : Text → Phase

unfoldable pub valid_phase : Phase → Bool
valid_phase (Phase.other name) = false
valid_phase _ = true

unfoldable pub phase_target : Phase → Option State
phase_target preparing = some warming_up
phase_target measuring = some running
phase_target uploading = some collecting
phase_target finalizing = some collecting
phase_target (Phase.other name) = none

-- The place of a state in `nativePhaseStates`; none is the index -1.
unfoldable pub phase_state_index : State → Option ℕ
phase_state_index created = some 0
phase_state_index validating = some 1
phase_state_index provisioning = some 2
phase_state_index warming_up = some 3
phase_state_index running = some 4
phase_state_index collecting = some 5
phase_state_index _ = none

-- `nativePhaseStates[index]`, which the loop reads up to 5.
unfoldable pub native_phase_state : ℕ → State
native_phase_state zero = created
native_phase_state (suc zero) = validating
native_phase_state (suc (suc zero)) = provisioning
native_phase_state (suc (suc (suc zero))) = warming_up
native_phase_state (suc (suc (suc (suc zero)))) = running
native_phase_state _ = collecting

-- The loop: so many transitions, the first to the state at `index`.
unfoldable pub cross : ℕ → ℕ → Run → ℕ → Result Run
cross zero index r now = ok r
cross (suc count) index r now =
    transition r r.revision (to_state (native_phase_state index)) now >>= λ next.
    cross count (suc index) next now

abbrev pub crossed : Option ℕ → Option ℕ → Run → ℕ → Result Run
crossed none target r now = err conflict
crossed (some i) none r now = err conflict
crossed (some i) (some t) r now =
    let next = cross (t - i) (suc i) r now in if ltb t i then err conflict else next

abbrev pub toward : Option State → Run → ℕ → Result Run
toward none r now = err validation
toward (some target) r now = crossed (phase_state_index r.state) (phase_state_index target) r now

unfoldable pub advance_phase : Run → ℕ → Phase → ℕ → Result Run
advance_phase r expected phase now =
    if not (r.revision == expected)
    then err stale_revision
    else if not (valid_phase phase)
    then err validation
    else toward (phase_target phase) r now

unfoldable pub valid_cancellation_grace : ℤ → ℤ → Bool
valid_cancellation_grace (pos grace) (pos ttl) =
    leb (5 * second) grace && leb grace ttl && grace % second == 0
valid_cancellation_grace _ _ = false

unfoldable pub valid_lease_policy : ℤ → ℤ → Bool
valid_lease_policy (pos ttl) (pos renew_after) =
    valid_lease_ttl (pos ttl)
    && leb (5 * second) renew_after
    && leb renew_after (ttl / 2)
    && renew_after % second == 0
valid_lease_policy _ _ = false

-- `^[a-f0-9]{8}-[a-f0-9]{4}-4[a-f0-9]{3}-[89ab][a-f0-9]{3}-[a-f0-9]{12}$`
abbrev uuid_pattern : Regex
uuid_pattern =
    let hexes = λ (n : ℕ). times n (one_of hex) in
    let dash = byte b'-' in
    seq (hexes 8) (
      seq dash (
        seq (hexes 4) (
          seq dash (
            seq (byte b'4') (
              seq (hexes 3)
                (seq dash (seq (one_of (among "89ab")) (seq (hexes 3) (seq dash (hexes 12))))))))))

unfoldable pub valid_lease_identifier : Text → Bool
unfolding matches
valid_lease_identifier value = matches uuid_pattern value

pub record Renewal : Type 0 where
  pub lease_id : Text
  pub attempt_id : Text
  pub run_revision : ℕ
  pub server_time : ℕ
  pub expires_at : ℕ
  pub renew_after_seconds : ℕ
  pub cancellation_requested : Bool
  pub stop_by : Option ℕ

abbrev stops_between : ℕ → ℕ → Option ℕ → Bool
stops_between from to none = false
stops_between from to (some at) = ltb from at && not (ltb to at)

unfoldable pub valid_renewal : Renewal → Bool
valid_renewal r =
    let ttl = sub_time r.expires_at r.server_time in
    if not (valid_lease_identifier r.lease_id)
      || not (valid_lease_identifier r.attempt_id)
      || ltb r.run_revision 1
      || r.server_time == 0
      || r.expires_at == 0
      || not (valid_lease_policy ttl (pos (r.renew_after_seconds * second)))
    then false
    else if not r.cancellation_requested
    then is_none r.stop_by
    else stops_between r.server_time r.expires_at r.stop_by
