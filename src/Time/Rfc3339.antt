-- ===== src/Time/Rfc3339.antt =====
-- The timestamps of the contracts (validTimestamp of internal/rawresult/manifest.go): the pattern, then
-- `time.Parse(time.RFC3339Nano, value)`. The instant counts nanoseconds from two days before
-- 0000-03-01 minus 400 years, so that every date and offset is a natural number.
use perfeng_control_plane.Base.{
  ℕ, zero, suc, ◌+◌, ◌-◌, ◌*◌, ◌/◌, ◌%◌, Bool, List, [], ◌∷◌, Option, none, some, ◌&&◌, ◌||◌, not,
  ltb, leb, ◌==◌, if◌then◌else◌,
}
use perfeng_control_plane.Text.Regex.{
  Regex, empty, seq, alt, one_of, matches, digit, among, byte, times, up_to, optional,
}

abbrev two : Regex
two = times 2 (one_of digit)

-- One pattern after the other.
abbrev in_order : List Regex → Regex
in_order [] = empty
in_order (r ∷ rs) = seq r (in_order rs)

abbrev offset_pattern : Regex
offset_pattern = alt (byte b'Z') (in_order (one_of (among "+-") ∷ two ∷ byte b':' ∷ two ∷ []))

-- `^\d{4}-\d{2}-\d{2}T\d{2}:\d{2}:[0-5]\d(?:\.\d{1,6})?(?:Z|[+-]\d{2}:\d{2})$`
abbrev timestamp_pattern : Regex
timestamp_pattern = in_order (
    times 4 (one_of digit)
    ∷ byte b'-'
    ∷ two
    ∷ byte b'-'
    ∷ two
    ∷ byte b'T'
    ∷ two
    ∷ byte b':'
    ∷ two
    ∷ byte b':'
    ∷ one_of (λ c. leb b'0' c && leb c b'5')
    ∷ one_of digit
    ∷ optional (seq (byte b'.') (seq (one_of digit) (up_to 5 (one_of digit))))
    ∷ offset_pattern
    ∷ [])

unfoldable pub skip : ℕ → List ℕ → List ℕ
skip zero s = s
skip (suc n) [] = []
skip (suc n) (c ∷ s) = skip n s

abbrev first_digit : List ℕ → ℕ
first_digit [] = 0
first_digit (c ∷ s) = c - b'0'

-- The number of two digits at a place.
unfoldable pub pair_at : ℕ → List ℕ → ℕ
unfolding skip
pair_at n s = first_digit (skip n s) * 10 + first_digit (skip (n + 1) s)

-- The fraction in nanoseconds, a digit at a time, and what follows it.
unfoldable pub fraction : ℕ → List ℕ → ℕ × List ℕ
fraction unit [] = (0, [])
fraction unit (c ∷ s) =
    let (n, rest) = fraction (unit / 10) s in
    if digit c then ((c - b'0') * unit + n, rest) else (0, c ∷ s)

abbrev after_seconds : List ℕ → ℕ × List ℕ
after_seconds [] = (0, [])
after_seconds (c ∷ s) = let f = fraction 100000000 s in if c == b'.' then f else (0, c ∷ s)

abbrev leap : ℕ → Bool
leap y = y % 4 == 0 && (not (y % 100 == 0) || y % 400 == 0)

abbrev days_in : ℕ → ℕ → ℕ
days_in y m =
    if m == 2
    then if leap y then 29 else 28
    else if m == 4 || m == 6 || m == 9 || m == 11
    then 30
    else 31

-- The days of a date from 400 years before 0000-03-01.
abbrev day_number : ℕ → ℕ → ℕ → ℕ
day_number y m d =
    let year = y + 400 - (if leb m 2 then 1 else 0) in
    let of_era = year % 400 in
    year / 400 * 146097
    + (of_era * 365 + of_era / 4 - of_era / 100)
    + ((153 * ((m + 9) % 12) + 2) / 5 + d - 1)

-- Seconds west of UTC, from two days: `Z`, or a sign with an offset of at most 24 hours and 60 minutes.
abbrev zone : List ℕ → Option ℕ
zone [] = none
zone (c ∷ s) =
    let offset = pair_at 0 s * 3600 + pair_at 3 s * 60 in
    if c == b'Z'
    then some 172800
    else if leb (pair_at 0 s) 24 && leb (pair_at 3 s) 60
    then some (if c == b'+' then 172800 - offset else 172800 + offset)
    else none

abbrev in_zone : ℕ → ℕ → Option ℕ → Option ℕ
in_zone seconds nanos none = none
in_zone seconds nanos (some west) = some ((seconds + west) * 1000000000 + nanos)

abbrev instant : List ℕ → ℕ → ℕ × List ℕ → Option ℕ
instant s y (nanos, rest) =
    let m = pair_at 5 s in
    let d = pair_at 8 s in
    let seconds = pair_at 11 s * 3600 + pair_at 14 s * 60 + pair_at 17 s in
    if leb 1 m
      && leb m 12
      && leb 1 d
      && leb d (days_in y m)
      && ltb (pair_at 11 s) 24
      && ltb (pair_at 14 s) 60
    then in_zone (day_number y m d * 86400 + seconds) nanos (zone rest)
    else none

unfoldable pub parse_timestamp : List ℕ → Option ℕ
unfolding matches pair_at skip fraction
parse_timestamp s =
    if matches timestamp_pattern s
    then instant s (pair_at 0 s * 100 + pair_at 2 s) (after_seconds (skip 19 s))
    else none
