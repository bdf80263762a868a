-- ===== src/Identity.antt =====
-- Identifier syntax shared by the evidence packages: internal/rawresult/manifest.go (identities and
-- the pattern tests), internal/run/claims.go (worker and token syntax, timing options) and
-- internal/nativeworker/leasing.go.
use perfeng_control_plane.Base.{ℕ, ◌*◌, ◌%◌, Bool, ◌&&◌, ◌||◌, leb, ltb, ◌==◌}
unfoldable use perfeng_control_plane.Base.{ℕ_discrete}
use perfeng_control_plane.Base.Int.{ℤ}
use perfeng_control_plane.Text.{Text}
use perfeng_control_plane.Text.Regex.{
  Regex, seq, alt, star, one_of, matches, digit, hex, alnum, lower_digit, byte, among, literal,
  times, up_to,
}
use perfeng_control_plane.Contract.{resource_id_pattern, sha256_pattern}
use perfeng_control_plane.Time.{second, minute, year_10000, whole_seconds}

unfoldable pub valid_resource_id : Text → Bool
unfolding matches
valid_resource_id id = matches resource_id_pattern id

-- `0|[1-9][0-9]*`
abbrev number_pattern : Regex
number_pattern =
    alt (byte b'0') (seq (one_of (λ c. leb b'1' c && leb c b'9')) (star (one_of digit)))

unfoldable pub valid_contracts_version : Text → Bool
unfolding matches
valid_contracts_version version =
    matches
      (seq number_pattern (seq (byte b'.') (seq number_pattern (seq (byte b'.') number_pattern))))
      version

unfoldable pub valid_hash : Text → Bool
unfolding matches
valid_hash hash = matches sha256_pattern hash

-- `^[a-z0-9][a-z0-9._:/-]*@sha256:[a-f0-9]{64}$`
unfoldable pub valid_image : Text → Bool
unfolding matches
valid_image image =
    matches
      (seq (one_of lower_digit) (
        seq (star (one_of (λ c. lower_digit c || among "._:/-" c)))
          (seq (literal "@sha256:") sha256_pattern)))
      image

-- `^[A-Fa-f0-9]{40}$`
unfoldable pub valid_git_sha : Text → Bool
unfolding matches
valid_git_sha sha = matches (times 40 (one_of (λ c. hex c || (leb b'A' c && leb c b'F')))) sha

pub record Identity : Type 0 where
  pub id : Text
  pub version : Text
  pub sha256 : Text

unfoldable pub Identity-discrete : Discrete Identity
unfolding ℕ_discrete
Identity-discrete = hlevel ℕ_discrete

unfoldable pub valid_identity : Identity → Bool
unfolding valid_resource_id valid_contracts_version valid_hash
valid_identity i =
    valid_resource_id i.id && valid_contracts_version i.version && valid_hash i.sha256

-- `ValidTimestamp(value.Format(time.RFC3339Nano))` of a UTC instant: the layout writes no trailing
-- zeros of the fraction, and the pattern takes six digits of it and four of the year.
unfoldable pub valid_timestamp : ℕ → Bool
valid_timestamp t = t % 1000 == 0 && ltb t year_10000

-- `^[a-zA-Z0-9][a-zA-Z0-9._:-]{0,127}$`
unfoldable pub valid_worker_id : Text → Bool
unfolding matches
valid_worker_id id =
    matches (seq (one_of alnum) (up_to 127 (one_of (λ c. alnum c || among "._:-" c)))) id

-- `^[a-f0-9]{32}$`
unfoldable pub valid_token : Text → Bool
unfolding matches
valid_token token = matches (times 32 (one_of hex)) token

unfoldable pub valid_lease_ttl : ℤ → Bool
unfolding whole_seconds
valid_lease_ttl ttl = whole_seconds (5 * second) (5 * minute) ttl

unfoldable pub valid_retry_delay : ℤ → Bool
unfolding whole_seconds
valid_retry_delay delay = whole_seconds 0 (5 * minute) delay
