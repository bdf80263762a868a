-- ===== src/Contract.antt =====
-- internal/contract/contract.go: the pinned lifecycle and identifier syntax that the embedded
-- snapshot defines (internal/contract/snapshot/transitions.json and openapi.json).
use perfeng_control_plane.Base.{
  Bool, true, false, List, [], ◌∷◌, Option, none, some, ◌&&◌, ◌||◌, holds,
}
unfoldable use perfeng_control_plane.Base.{ℕ_discrete}
use perfeng_control_plane.Text.{Text, text, text_eq}
use perfeng_control_plane.Text.Regex.{
  Regex, seq, star, one_of, matches, lower, digit, hex, lower_digit, byte, among, literal, times,
  up_to, plus, optional,
}

-- The lifecycle states by name; `other` is any string that names none of them.
pub data State : Type 0 where
  created validating provisioning warming_up running collecting analyzing reporting : State
  cancelling completed invalid aborted infrastructure_failure test_failure : State
  other : Text → State

unfoldable pub State-discrete : Discrete State
unfolding ℕ_discrete
State-discrete = hlevel ℕ_discrete

abbrev pub state_eq : State → State → Bool
state_eq a b = holds (State-discrete a b)

-- The map `transitions`; a state that it lacks has no entry.
unfoldable pub transitions : State → Option (List State)
transitions created = some (validating ∷ aborted ∷ [])
transitions validating = some (provisioning ∷ invalid ∷ infrastructure_failure ∷ aborted ∷ [])
transitions provisioning = some (warming_up ∷ running ∷ infrastructure_failure ∷ cancelling ∷ [])
transitions warming_up = some (running ∷ collecting ∷ infrastructure_failure ∷ cancelling ∷ [])
transitions running = some (collecting ∷ infrastructure_failure ∷ cancelling ∷ [])
transitions collecting = some (analyzing ∷ test_failure ∷ infrastructure_failure ∷ cancelling ∷ [])
transitions analyzing = some (reporting ∷ infrastructure_failure ∷ cancelling ∷ [])
transitions reporting = some (completed ∷ infrastructure_failure ∷ cancelling ∷ [])
transitions cancelling = some (aborted ∷ infrastructure_failure ∷ [])
transitions completed = some []
transitions invalid = some []
transitions aborted = some []
transitions infrastructure_failure = some []
transitions test_failure = some []
transitions (other name) = none

-- `slices.Contains`.
contains : State → List State → Bool
unfolding State-discrete
contains s [] = false
contains s (x ∷ xs) = state_eq x s || contains s xs

-- A missing entry reads as the empty slice.
abbrev listed : State → Option (List State) → Bool
listed to none = false
listed to (some next) = contains to next

unfoldable pub can_transition : State → State → Bool
unfolding transitions contains
can_transition from to = listed to (transitions from)

abbrev is_final : Option (List State) → Bool
is_final (some []) = true
is_final _ = false

unfoldable pub terminal : State → Bool
unfolding transitions
terminal state = is_final (transitions state)

-- `^perf-[0-9]{8}-[0-9]{6}-[a-f0-9]{8}$`
abbrev run_id_pattern : Regex
run_id_pattern = seq (literal "perf-") (
    seq (times 8 (one_of digit))
      (seq (byte b'-') (seq (times 6 (one_of digit)) (seq (byte b'-') (times 8 (one_of hex))))))

unfoldable pub valid_id : Text → Bool
unfolding matches
valid_id id = matches run_id_pattern id

-- `^[a-z][a-z0-9]*(?:-[a-z0-9]+)*$`
abbrev pub resource_id_pattern : Regex
resource_id_pattern =
    seq (one_of lower)
      (seq (star (one_of lower_digit)) (star (seq (byte b'-') (plus (one_of lower_digit)))))

-- The schema CreateRun, over the string fields of its value.
-- `^[a-z][a-z0-9-]{0,62}$`
abbrev name_pattern : Regex
name_pattern = seq (one_of lower) (up_to 62 (one_of (λ c. lower_digit c || among "-" c)))

-- `^[0-9]+\.[0-9]+\.[0-9]+$`
abbrev loose_version_pattern : Regex
loose_version_pattern =
    seq (plus (one_of digit))
      (seq (byte b'.') (seq (plus (one_of digit)) (seq (byte b'.') (plus (one_of digit)))))

abbrev pub sha256_pattern : Regex
sha256_pattern = times 64 (one_of hex)

abbrev git_sha_pattern : Regex
git_sha_pattern = times 40 (one_of hex)

-- `^[a-z0-9]+(?:[.-][a-z0-9]+)*(?::[0-9]+)?(?:/[a-z0-9]+(?:[._-]+[a-z0-9]+)*)+@sha256:[a-f0-9]{64}$`
abbrev image_pattern : Regex
image_pattern = seq (plus (one_of lower_digit)) (
    seq (star (seq (one_of (among ".-")) (plus (one_of lower_digit)))) (
      seq (optional (seq (byte b':') (plus (one_of digit)))) (
        seq
          (plus (
            seq (byte b'/') (
              seq (plus (one_of lower_digit))
                (star (seq (plus (one_of (among "._-"))) (plus (one_of lower_digit)))))))
          (seq (literal "@sha256:") sha256_pattern))))

unfoldable pub valid_reference : Text → Text → Text → Bool
unfolding matches
valid_reference id version sha256 =
    matches name_pattern id
    && matches loose_version_pattern version
    && matches sha256_pattern sha256

unfoldable pub valid_profile : Text → Bool
valid_profile profile =
    text_eq profile (text "smoke")
    || text_eq profile (text "average")
    || text_eq profile (text "regression")
    || text_eq profile (text "stress")
    || text_eq profile (text "capacity")
    || text_eq profile (text "soak")

unfoldable pub valid_candidate : Text → Text → Bool
unfolding matches
valid_candidate git_sha image = matches git_sha_pattern git_sha && matches image_pattern image

unfoldable pub valid_test_suite : Text → Bool
unfolding matches
valid_test_suite name = matches name_pattern name
