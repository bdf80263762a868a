-- ===== src/Baseline/Evidence.antt =====
-- internal/baseline/domain.go: the checks of texts, qualification evidence, datasets, software and
-- environments.
use perfeng_control_plane.Base.{
  ℕ, Bool, true, false, not, ◌&&◌, ◌||◌, List, [], ◌∷◌, Option, none, some, leb, ltb, ◌==◌,
  if◌then◌else◌, is_none,
}
use perfeng_control_plane.Base.Int.{ℤ, pos, negsuc}
use perfeng_control_plane.Float64.{Float64, negative, is_nan, is_inf}
use perfeng_control_plane.Text.{Text, text, text_eq}
use perfeng_control_plane.Text.Utf8.{valid_string, rune_count, has_text}
use perfeng_control_plane.Identity.{valid_hash, valid_image, valid_git_sha, valid_identity}
use perfeng_control_plane.Baseline.Data.{
  QualificationStatus, pending, passed, failed, Software, Environment, Dataset, Qualification,
}

unfoldable pub valid_text : Text → Bool
unfolding valid_string has_text
valid_text value = valid_string value && has_text value

unfoldable pub valid_audit_text : Text → ℕ → Bool
unfolding valid_text rune_count
valid_audit_text value maximum = valid_text value && leb (rune_count value) maximum

-- `*count < 1`.
abbrev pub below_one : ℤ → Bool
below_one (pos n) = ltb n 1
below_one (negsuc n) = true

-- `*cv < 0 || math.IsNaN(*cv) || math.IsInf(*cv, 0)`.
unfoldable pub bad_cv : Float64 → Bool
unfolding negative is_nan is_inf
bad_cv cv = negative cv || is_nan cv || is_inf cv

-- A pointer that must be there, and one that may be nil, under a test of what it points to.
abbrev pub missing_or {ℓ} : {A : Type ℓ} → (A → Bool) → Option A → Bool
missing_or bad none = true
missing_or bad (some a) = bad a

abbrev pub present_and {ℓ} : {A : Type ℓ} → (A → Bool) → Option A → Bool
present_and bad none = false
present_and bad (some a) = bad a

abbrev pub no_reasons : List Text → Bool
no_reasons [] = true
no_reasons (r ∷ rs) = false

-- The `switch` on the status.
unfoldable pub valid_evidence : QualificationStatus → Qualification → Bool
unfolding bad_cv
valid_evidence pending q = is_none q.sample_count && is_none q.maximum_cv
valid_evidence passed q =
    not (missing_or below_one q.sample_count || missing_or bad_cv q.maximum_cv)
valid_evidence failed q = not (
    no_reasons q.reasons || present_and below_one q.sample_count || present_and bad_cv q.maximum_cv)
valid_evidence (QualificationStatus.other status) q = false

unfoldable pub seen_before : Text → List Text → Bool
seen_before reason [] = false
seen_before reason (r ∷ rs) = text_eq r reason || seen_before reason rs

-- The loop over the reasons, with the reasons already seen.
unfoldable pub valid_reasons : List Text → List Text → Bool
unfolding valid_text seen_before
valid_reasons seen [] = true
valid_reasons seen (r ∷ rs) =
    valid_text r && not (seen_before r seen) && valid_reasons (r ∷ seen) rs

unfoldable pub valid_qualification : Qualification → Bool
unfolding valid_evidence valid_reasons
valid_qualification q = valid_evidence q.status q && valid_reasons [] q.reasons

abbrev is_none_dataset : Dataset → Bool
is_none_dataset d = text_eq d.id [] && text_eq d.version [] && text_eq d.sha256 [] && is_none d.seed

abbrev negative_seed : ℤ → Bool
negative_seed (pos n) = false
negative_seed (negsuc n) = true

-- The kinds "none" and "versioned"; any other is refused.
unfoldable pub valid_dataset : Dataset → Bool
unfolding valid_identity
valid_dataset d =
    if text_eq d.kind (text "none")
    then is_none_dataset d
    else if text_eq d.kind (text "versioned")
    then valid_identity (record { id = d.id; version = d.version; sha256 = d.sha256 })
      && not (missing_or negative_seed d.seed)
    else false

abbrev int_eq : ℤ → ℤ → Bool
int_eq (pos m) (pos n) = m == n
int_eq (negsuc m) (negsuc n) = m == n
int_eq _ _ = false

abbrev pub seed_eq : Option ℤ → Option ℤ → Bool
seed_eq none none = true
seed_eq (some m) (some n) = int_eq m n
seed_eq _ _ = false

unfoldable pub dataset_equal : Dataset → Dataset → Bool
dataset_equal d e =
    text_eq d.kind e.kind
    && text_eq d.id e.id
    && text_eq d.version e.version
    && text_eq d.sha256 e.sha256
    && seed_eq d.seed e.seed

unfoldable pub valid_software : Software → Bool
unfolding valid_git_sha valid_image valid_text
valid_software s =
    valid_git_sha s.git_sha && valid_image s.image && (text_eq s.version [] || valid_text s.version)

unfoldable pub valid_environment : Environment → Bool
unfolding valid_identity valid_hash
valid_environment e = valid_identity e.identity && valid_hash e.fingerprint
