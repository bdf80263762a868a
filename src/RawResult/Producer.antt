-- ===== src/RawResult/Producer.antt =====
-- The producer of raw evidence and its execution artifact. `parse_request_uri` stands for
-- `url.ParseRequestURI`.
use perfeng_control_plane.Base.{
  ℕ, Bool, true, false, [], ◌∷◌, Option, none, some, ◌&&◌, ◌||◌, not, ◌==◌, is_none, holds,
  if◌then◌else◌,
}
unfoldable use perfeng_control_plane.Base.{ℕ_discrete}
use perfeng_control_plane.Text.{Text, text, text_eq}
use perfeng_control_plane.Text.Regex.{
  Regex, seq, one_of, matches, alnum, hex, among, literal, times, plus,
}
use perfeng_control_plane.Identity.{
  valid_resource_id, valid_contracts_version, valid_hash, valid_image,
}

pub record DependencyLock : Type 0 where
  pub path : Text
  pub sha256 : Text

unfoldable pub DependencyLock-discrete : Discrete DependencyLock
unfolding ℕ_discrete
DependencyLock-discrete = hlevel ℕ_discrete

pub record ExecutionArtifact : Type 0 where
  pub kind : Text
  pub image : Text
  pub repository : Text
  pub git_sha : Text
  pub dependency_lock : Option DependencyLock
  pub url : Text
  pub archive_sha256 : Text
  pub executable_sha256 : Text

pub record Producer : Type 0 where
  pub name : Text
  pub version : Text
  pub image : Text
  pub artifact : Option ExecutionArtifact

abbrev lock_equal : Option DependencyLock → Option DependencyLock → Bool
lock_equal (some a) (some b) = holds (DependencyLock-discrete a b)
lock_equal a b = is_none a && is_none b

unfoldable pub artifact_equal : ExecutionArtifact → ExecutionArtifact → Bool
artifact_equal a b =
    text_eq a.kind b.kind
    && text_eq a.image b.image
    && text_eq a.repository b.repository
    && text_eq a.git_sha b.git_sha
    && text_eq a.url b.url
    && text_eq a.archive_sha256 b.archive_sha256
    && text_eq a.executable_sha256 b.executable_sha256
    && lock_equal a.dependency_lock b.dependency_lock

abbrev artifacts_equal : Option ExecutionArtifact → Option ExecutionArtifact → Bool
artifacts_equal (some a) (some b) = artifact_equal a b
artifacts_equal a b = is_none a && is_none b

unfoldable pub producer_equal : Producer → Producer → Bool
unfolding artifact_equal
producer_equal p q =
    text_eq p.name q.name
    && text_eq p.version q.version
    && text_eq p.image q.image
    && artifacts_equal p.artifact q.artifact

-- What the program reads of an address that `url.ParseRequestURI` accepts.
pub record RequestUri : Type 0 where
  pub scheme : Text
  pub host : Text
  pub has_user : Bool
  pub raw_query : Text
  pub fragment : Text

-- `^[a-f0-9]{40}$`
abbrev git_sha_pattern : Regex
git_sha_pattern = times 40 (one_of hex)

-- `^[A-Za-z0-9_./-]+$`
abbrev relative_path_pattern : Regex
relative_path_pattern = plus (one_of (λ c. alnum c || among "_./-" c))

-- `\s` of the regular expressions.
abbrev white : ℕ → Bool
white c = c == 0x09 || c == 0x0a || c == 0x0c || c == 0x0d || c == 0x20

-- `^https://[^\s@?#]+$`
abbrev release_url_pattern : Regex
release_url_pattern = seq (literal "https://") (plus (one_of (λ c. not (white c || among "@?#" c))))

-- Whether a part of a path, read up to here, is "." or "..": the dots of a part with only dots.
pub data Part : Type 0 where
  nothing one_dot two_dots name : Part

abbrev longer : Part → ℕ → Part
longer nothing c = if c == b'.' then one_dot else name
longer one_dot c = if c == b'.' then two_dots else name
longer two_dots c = name
longer name c = name

abbrev dotted : Part → Bool
dotted one_dot = true
dotted two_dots = true
dotted _ = false

-- A part of `strings.Split(value, "/")` is "." or "..".
unfoldable pub has_dots : Part → Text → Bool
has_dots part [] = dotted part
has_dots part (c ∷ s) =
    let next = has_dots nothing s in
    let rest = has_dots (longer part c) s in if c == b'/' then dotted part || next else rest

abbrev absolute : Text → Bool
absolute [] = false
absolute (c ∷ s) = c == b'/'

unfoldable pub valid_relative_path : Text → Bool
unfolding matches has_dots
valid_relative_path value =
    not (absolute value || not (matches relative_path_pattern value))
    && not (has_dots nothing value)

unfoldable pub valid_dependency_lock : DependencyLock → Bool
valid_dependency_lock lock = valid_relative_path lock.path && valid_hash lock.sha256

unfoldable pub has_release_archive_fields : ExecutionArtifact → Bool
has_release_archive_fields a =
    not (text_eq a.url [])
    || not (text_eq a.archive_sha256 [])
    || not (text_eq a.executable_sha256 [])

abbrev valid_lock : Option DependencyLock → Bool
valid_lock none = false
valid_lock (some lock) = valid_dependency_lock lock

abbrev secure : Option RequestUri → Bool
secure none = false
secure (some u) = text_eq u.scheme (text "https") && not (text_eq u.host [])

abbrev plain : Option RequestUri → Bool
plain none = false
plain (some u) =
    secure (some u) && not u.has_user && text_eq u.raw_query [] && text_eq u.fragment []

unfoldable pub valid_producer : Producer → Bool
valid_producer p =
    valid_resource_id p.name
    && valid_contracts_version p.version
    && valid_image p.image
    && is_none p.artifact

module _ (parse_request_uri : Text → Option RequestUri) where
  unfoldable pub valid_repository : Text → Bool
  valid_repository value = secure (parse_request_uri value)

  unfoldable pub valid_release_url : Text → Bool
  unfolding matches
  valid_release_url value = matches release_url_pattern value && plain (parse_request_uri value)

  -- The `switch` on the kind.
  unfoldable pub valid_execution_artifact : ExecutionArtifact → Bool
  unfolding matches has_release_archive_fields valid_repository valid_release_url
  valid_execution_artifact a =
      if text_eq a.kind (text "oci-image")
      then valid_image a.image
        && text_eq a.repository []
        && text_eq a.git_sha []
        && is_none a.dependency_lock
        && not (has_release_archive_fields a)
      else if text_eq a.kind (text "source-checkout")
      then text_eq a.image []
        && valid_repository a.repository
        && matches git_sha_pattern a.git_sha
        && valid_lock a.dependency_lock
        && not (has_release_archive_fields a)
      else if text_eq a.kind (text "release-archive")
      then text_eq a.image []
        && text_eq a.repository []
        && text_eq a.git_sha []
        && is_none a.dependency_lock
        && valid_release_url a.url
        && valid_hash a.archive_sha256
        && valid_hash a.executable_sha256
      else false

  abbrev pub valid_execution : Option ExecutionArtifact → Bool
  valid_execution none = false
  valid_execution (some a) = valid_execution_artifact a

  unfoldable pub valid_producer_execution : Producer → Bool
  unfolding valid_execution_artifact
  valid_producer_execution p =
      valid_resource_id p.name
      && valid_contracts_version p.version
      && text_eq p.image []
      && valid_execution p.artifact
