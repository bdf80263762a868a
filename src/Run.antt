-- ===== src/Run.antt =====
-- internal/run/domain.go: a Run, its request and its lifecycle rules. A Run is a value: what `Clone`
-- isolates is never shared here. Times are nanoseconds since Go's zero time, in UTC; revisions are
-- the `int64` values from 0 up, of which only those from 1 up are ever stored.
pub mod Valid
pub mod Cancel
pub mod History
pub mod Artifact
pub mod Claims
use perfeng_control_plane.Base.{
  ℕ, suc, ◌+◌, ◌≤◌, ◌≡◌, refl, Bool, true, false, not, ◌&&◌, ◌||◌, Option, none, some, arith, leb,
  ltb, ◌==◌, holds, if◌then◌else◌, is_none,
}
unfoldable use perfeng_control_plane.Base.{ℕ_discrete}
use perfeng_control_plane.Base.Int.{ℤ, pos, negsuc}
use perfeng_control_plane.Text.{Text}
use perfeng_control_plane.Text.Utf8.{valid_string, rune_count}
use perfeng_control_plane.Text.Regex.{Regex, seq, one_of, matches, alnum, among, times, up_to}
use perfeng_control_plane.Errors.{
  Error, Result, ok, err, validation, stale_revision, invalid_transition, run_terminal,
}
use perfeng_control_plane.Contract.{
  State, created, validating, cancelling, aborted, invalid, test_failure, infrastructure_failure,
  state_eq, can_transition, terminal, valid_reference, valid_profile, valid_candidate,
  valid_test_suite,
}

pub data ExecutionTarget : Type 0 where
  kubernetes native_linux legacy_windows : ExecutionTarget
  other : Text → ExecutionTarget

unfoldable pub valid_target : ExecutionTarget → Bool
valid_target (other name) = false
valid_target _ = true

unfoldable pub ExecutionTarget-discrete : Discrete ExecutionTarget
unfolding ℕ_discrete
ExecutionTarget-discrete = hlevel ℕ_discrete

pub data FailureCode : Type 0 where
  validation_failed infrastructure_error pipeline_timeout tool_error analysis_error : FailureCode
  other : Text → FailureCode

abbrev pub max_run_revision : ℕ
max_run_revision = 9007199254740991

unfoldable pub accepts_failure : State → FailureCode → Bool
accepts_failure invalid validation_failed = true
accepts_failure test_failure tool_error = true
accepts_failure infrastructure_failure infrastructure_error = true
accepts_failure infrastructure_failure pipeline_timeout = true
accepts_failure infrastructure_failure analysis_error = true
accepts_failure _ _ = false

unfoldable pub requires_failure : State → Bool
requires_failure invalid = true
requires_failure test_failure = true
requires_failure infrastructure_failure = true
requires_failure _ = false

pub record Reference : Type 0 where
  pub id : Text
  pub version : Text
  pub sha256 : Text

pub record Candidate : Type 0 where
  pub git_sha : Text
  pub image : Text

pub record Request : Type 0 where
  pub test_suite : Text
  pub catalogue : Reference
  pub profile : Text
  pub candidate : Candidate
  pub environment : Reference
  pub policy : Reference

-- `==` on the comparable struct.
unfoldable pub Request-discrete : Discrete Request
unfolding ℕ_discrete
Request-discrete = hlevel ℕ_discrete

pub record Failure : Type 0 where
  pub code : FailureCode
  pub message : Text

pub record Run : Type 0 where
  pub id : Text
  pub state : State
  pub revision : ℕ
  pub request : Request
  pub created_at : ℕ
  pub updated_at : ℕ
  pub finished_at : Option ℕ
  pub tool_exit_code : Option ℤ
  pub failure : Option Failure

-- `Validate` encodes the request and checks the schema CreateRun; the encoding always has every
-- property and no other.
unfoldable pub valid_request : Request → Bool
unfolding valid_test_suite valid_reference valid_profile valid_candidate
valid_request r =
    valid_test_suite r.test_suite
    && valid_reference r.catalogue.id r.catalogue.version r.catalogue.sha256
    && valid_profile r.profile
    && valid_candidate r.candidate.git_sha r.candidate.image
    && valid_reference r.environment.id r.environment.version r.environment.sha256
    && valid_reference r.policy.id r.policy.version r.policy.sha256

-- `^[A-Za-z0-9][A-Za-z0-9._:-]{15,127}$`
abbrev key_pattern : Regex
key_pattern =
    let rest = one_of (λ c. alnum c || among "._:-" c) in
    seq (one_of alnum) (seq (times 15 rest) (up_to 112 rest))

unfoldable pub valid_key : Text → Bool
unfolding matches
valid_key key = matches key_pattern key

pub record Change : Type 0 where
  pub state : State
  pub failure : Option Failure
  pub tool_exit_code : Option ℤ

-- `Change{State: state}`.
abbrev pub to_state : State → Change
to_state state = record { state = state; failure = none; tool_exit_code = none }

-- `code != nil && (*code < 0 || *code > 255)`.
unfoldable pub bad_exit : Option ℤ → Bool
bad_exit none = false
bad_exit (some (pos n)) = ltb 255 n
bad_exit (some (negsuc n)) = true

-- The test under `if f := change.Failure; f != nil`.
unfoldable pub bad_failure : State → Option Failure → Bool
bad_failure state none = false
bad_failure state (some f) =
    not (valid_string f.message)
    || ltb (rune_count f.message) 1
    || ltb 1000 (rune_count f.message)
    || not (accepts_failure state f.code)

-- `next.UpdatedAt = now.UTC()`, which never moves back.
abbrev pub clamp_time : ℕ → ℕ → ℕ
clamp_time updated now = if ltb now updated then updated else now

abbrev pub or_else {ℓ} : {A : Type ℓ} → Option A → Option A → Option A
or_else none old = old
or_else (some a) old = some a

-- The Run that `Transition` returns once its guards have passed.
unfoldable pub moved : Run → Change → ℕ → Run
moved r change now =
    let at = clamp_time r.updated_at now in
    record r {
      state = change.state;
      revision = r.revision + 1;
      updated_at = at;
      failure = change.failure;
      tool_exit_code = or_else change.tool_exit_code r.tool_exit_code;
      finished_at = if terminal change.state then some at else r.finished_at;
    }

unfoldable pub transition : Run → ℕ → Change → ℕ → Result Run
transition r expected change now =
    if not (r.revision == expected)
    then err stale_revision
    else if leb max_run_revision r.revision || not (can_transition r.state change.state)
    then err invalid_transition
    else if bad_exit change.tool_exit_code
    then err validation
    else if bad_failure change.state change.failure
    then err validation
    else if requires_failure change.state && is_none change.failure
    then err validation
    else ok (moved r change now)

-- The `switch` of `RequestCancellation`.
cancel_at : State → Run → ℕ → Result Run
cancel_at cancelling r now = ok r
cancel_at aborted r now = ok r
cancel_at created r now = transition r r.revision (to_state aborted) now
cancel_at validating r now = transition r r.revision (to_state aborted) now
cancel_at state r now =
    if terminal state then err run_terminal else transition r r.revision (to_state cancelling) now

unfoldable pub request_cancellation : Run → ℕ → Result Run
unfolding cancel_at
request_cancellation r now = cancel_at r.state r now
