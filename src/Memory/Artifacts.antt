-- ===== src/Memory/Artifacts.antt =====
-- internal/memory/artifacts.go: RegisterArtifact, GetArtifact and ListArtifacts. `parse_url` is the
-- address parser of net/url.
use perfeng_control_plane.Base.{
  ◌+◌, Bool, true, false, not, ◌&&◌, ◌||◌, List, [], ◌∷◌, Option, none, some, holds, ltb, ◌==◌,
  if◌then◌else◌,
}
use perfeng_control_plane.Base.Maps.{lookup, insert}
use perfeng_control_plane.Text.{Text, Text-discrete, text_eq}
use perfeng_control_plane.Text.Regex.{upper}
use perfeng_control_plane.Errors.{
  Error, Result, ok, err, ◌>>=◌, validation, not_found, artifact_conflict,
}
use perfeng_control_plane.Run.Artifact.{Artifact, Artifact-discrete, Url, valid_artifact}
use perfeng_control_plane.Memory.Store.{OwnedRun, Repository, visible}
use perfeng_control_plane.Memory.Runs.{under}

-- `strings.ToLower` on ASCII. No other letter becomes one of a valid identifier.
unfoldable pub to_lower : Text → Text
to_lower [] = []
to_lower (c ∷ s) = (if upper c then c + 32 else c) ∷ to_lower s

abbrev pub find_artifact : Repository → Text → Option Artifact
find_artifact m id = lookup Text-discrete id m.artifacts

-- The write behind the checks: the first reference under an identifier stays.
abbrev pub bind_artifact : Repository → Artifact → Option Artifact → Repository × Result (Unit {0})
bind_artifact m a none = (record m { artifacts = insert Text-discrete a.id a m.artifacts }, ok tt)
bind_artifact m a (some previous) =
    if holds (Artifact-discrete previous a) then (m, ok tt) else (m, err artifact_conflict)

abbrev pub bind_visible : Repository → Artifact → Result OwnedRun → Repository × Result (Unit {0})
bind_visible m a (err e) = (m, err e)
bind_visible m a (ok o) = bind_artifact m a (find_artifact m a.id)

abbrev pub lowered : Artifact → Artifact
lowered a = record a { id = to_lower a.id }

unfoldable pub register_artifact :
    (Text → Option Url)
    → Repository
    → Option Error
    → Text
    → Artifact
    → Repository × Result (Unit {0})
register_artifact parse_url m ctx principal a =
    if not (valid_artifact parse_url (lowered a))
    then (m, err validation)
    else bind_visible m (lowered a) (under ctx (visible m principal a.run_id))

abbrev pub of_run : Text → Option Artifact → Result Artifact
of_run run_id none = err not_found
of_run run_id (some a) = if text_eq a.run_id run_id then ok a else err not_found

unfoldable pub get_artifact : Repository → Option Error → Text → Text → Text → Result Artifact
get_artifact m ctx principal run_id id =
    under ctx (visible m principal run_id >>= λ o. of_run run_id (find_artifact m (to_lower id)))

-- The loop over the map, in the order of its iteration.
unfoldable pub collect : Text → List (Text × Artifact) → List Artifact
collect run_id [] = []
collect run_id ((k, a) ∷ m) =
    let rest = collect run_id m in if text_eq a.run_id run_id then a ∷ rest else rest

-- `<` on strings: by bytes.
unfoldable pub text_lt : Text → Text → Bool
text_lt [] [] = false
text_lt [] (d ∷ t) = true
text_lt (c ∷ s) [] = false
text_lt (c ∷ s) (d ∷ t) = ltb c d || (c == d && text_lt s t)

-- `sort.Slice` by identifier. Identifiers are distinct, so every sort gives this order.
unfoldable pub place : Artifact → List Artifact → List Artifact
place a [] = a ∷ []
place a (b ∷ bs) = if text_lt b.id a.id then b ∷ place a bs else a ∷ b ∷ bs

unfoldable pub sort : List Artifact → List Artifact
sort [] = []
sort (a ∷ bs) = place a (sort bs)

unfoldable pub list_artifacts : Repository → Option Error → Text → Text → Result (List Artifact)
list_artifacts m ctx principal run_id =
    under ctx (visible m principal run_id >>= λ o. ok (sort (collect run_id m.artifacts)))
