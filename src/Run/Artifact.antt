-- ===== src/Run/Artifact.antt =====
-- internal/run/artifact.go: the reference to one verified object.
use perfeng_control_plane.Base.{
  ℕ, Bool, true, false, [], ◌∷◌, Option, none, some, ◌&&◌, ◌||◌, not, ◌==◌,
}
unfoldable use perfeng_control_plane.Base.{ℕ_discrete}
use perfeng_control_plane.Base.Int.{ℤ, pos, negsuc}
use perfeng_control_plane.Text.{Text, text, text_eq}
use perfeng_control_plane.Text.Regex.{
  Regex, seq, alt, star, one_of, matches, hex, lower_digit, byte, among, literal, times, plus,
}
use perfeng_control_plane.Contract.{valid_id, sha256_pattern}

pub record Artifact : Type 0 where
  pub id : Text
  pub run_id : Text
  pub kind : Text
  pub uri : Text
  pub sha256 : Text
  pub size_bytes : ℤ
  pub media_type : Text
  pub format : Text

-- `==` on the comparable struct.
unfoldable pub Artifact-discrete : Discrete Artifact
unfolding ℕ_discrete
Artifact-discrete = hlevel ℕ_discrete

-- What the program reads of a URL that `url.Parse` accepts.
pub record Url : Type 0 where
  pub hostname : Text
  pub has_user : Bool
  pub raw_query : Text
  pub fragment : Text

-- `^[a-f0-9]{8}-[a-f0-9]{4}-[a-f0-9]{4}-[a-f0-9]{4}-[a-f0-9]{12}$`
abbrev pub uuid_pattern : Regex
uuid_pattern = seq (times 8 (one_of hex)) (
    seq (times 3 (seq (byte b'-') (times 4 (one_of hex))))
      (seq (byte b'-') (times 12 (one_of hex))))

-- `\s` of the regular expressions: tab, line feed, form feed, carriage return and space.
abbrev white : ℕ → Bool
white c = c == 0x09 || c == 0x0a || c == 0x0c || c == 0x0d || c == 0x20

-- `^(s3|https)://[^\s?#]+$`
abbrev uri_pattern : Regex
uri_pattern =
    seq (alt (literal "s3") (literal "https"))
      (seq (literal "://") (plus (one_of (λ c. not (white c || among "?#" c)))))

-- `[a-z0-9][a-z0-9!#$&^_.+-]*`
abbrev media_part : Regex
media_part = seq (one_of lower_digit) (star (one_of (λ c. lower_digit c || among "!#$&^_.+-" c)))

-- `^[a-z0-9][a-z0-9./_-]*$`
abbrev format_pattern : Regex
format_pattern = seq (one_of lower_digit) (star (one_of (λ c. lower_digit c || among "./_-" c)))

abbrev non_negative : ℤ → Bool
non_negative (pos n) = true
non_negative (negsuc n) = false

-- `strings.ContainsAny(uri, "\r\n\t")`.
contains_break : Text → Bool
contains_break [] = false
contains_break (c ∷ s) = c == 0x0d || c == 0x0a || c == 0x09 || contains_break s

-- The storage policy on the parsed address.
unfoldable pub plain_url : Option Url → Text → Bool
unfolding contains_break
plain_url none uri = false
plain_url (some u) uri =
    not (text_eq u.hostname [])
    && not u.has_user
    && text_eq u.raw_query []
    && text_eq u.fragment []
    && not (contains_break uri)

unfoldable pub valid_shape : Artifact → Bool
unfolding matches valid_id
valid_shape a =
    matches uuid_pattern a.id
    && valid_id a.run_id
    && (text_eq a.kind (text "raw") || text_eq a.kind (text "normalized"))
    && matches sha256_pattern a.sha256
    && non_negative a.size_bytes
    && matches (seq media_part (seq (byte b'/') media_part)) a.media_type
    && matches format_pattern a.format
    && matches uri_pattern a.uri

-- `Validate` over the address parser of package net/url.
unfoldable pub valid_artifact : (Text → Option Url) → Artifact → Bool
unfolding valid_shape plain_url
valid_artifact parse_url a = valid_shape a && plain_url (parse_url a.uri) a.uri
