-- ===== src/Postgres/Failures.antt =====
-- internal/postgres/database.go: what leaves the store about a failed statement.
use perfeng_control_plane.Base.{
  ℕ, Bool, true, false, [], ◌∷◌, ◌++◌, Option, none, some, ◌&&◌, ◌||◌, not, ◌==◌, length,
  if◌then◌else◌,
}
use perfeng_control_plane.Text.{Text, text, text_eq}
use perfeng_control_plane.Errors.{Error, not_found, unavailable}
use perfeng_control_plane.Text.Regex.{upper, digit}

-- What `errors.Is` and `errors.As` find in the chain of an error of the driver.
pub record Failure : Type 0 where
  pub no_rows : Bool
  pub canceled : Bool
  pub deadline_exceeded : Bool
  pub pg_code : Option Text

all_code : Text → Bool
all_code [] = true
all_code (c ∷ cs) = (digit c || upper c) && all_code cs

unfoldable pub valid_sql_state : Text → Bool
unfolding all_code
valid_sql_state code = length code == 5 && all_code code

-- `strings.HasPrefix(code, "..")` for a prefix of two characters.
abbrev pub has_class : ℕ → ℕ → Text → Bool
has_class a b (c ∷ d ∷ rest) = c == a && d == b
has_class a b _ = false

unfoldable pub retryable_code : Text → Bool
retryable_code code =
    has_class b'0' b'8' code
    || has_class b'5' b'3' code
    || has_class b'5' b'7' code
    || text_eq code (text "55P03")
    || text_eq code (text "40001")
    || text_eq code (text "40P01")
    || text_eq code (text "23505")

abbrev pub postgres_error : Text → Error
postgres_error code =
    Error.other (text "postgres operation failed (SQLSTATE " ++ (code ++ text ")"))

unfoldable pub pg_error : Text → Error
unfolding valid_sql_state retryable_code
pg_error code =
    if not (valid_sql_state code)
    then Error.other (text "postgres operation failed")
    else if retryable_code code
    then unavailable
    else postgres_error code

abbrev pub unclassified : Option Text → Error
unclassified none = unavailable
unclassified (some code) = pg_error code

unfoldable pub storage_error : Option Failure → Option Error
storage_error none = none
storage_error (some f) = some (
    if f.no_rows
    then not_found
    else if f.canceled
    then Error.other (text "context canceled")
    else if f.deadline_exceeded
    then Error.other (text "context deadline exceeded")
    else unclassified f.pg_code)
