-- ===== src/Time.antt =====
-- What the program uses of package time. An instant is its nanoseconds since Go's zero time
-- (0001-01-01T00:00:00Z), so 0 is the zero time; a `time.Duration` is a signed count of nanoseconds.
use perfeng_control_plane.Base.{
  ℕ, zero, suc, ◌+◌, ◌-◌, ◌*◌, ◌/◌, ◌%◌, Bool, false, List, [], ◌∷◌, ◌++◌, ◌&&◌, leb, ltb, ◌==◌,
  if◌then◌else◌,
}
use perfeng_control_plane.Base.Int.{ℤ, pos, negsuc}
pub mod Rfc3339

abbrev pub second : ℕ
second = 1000000000

abbrev pub minute : ℕ
minute = 60000000000

abbrev pub hour : ℕ
hour = 3600000000000

abbrev pub day : ℕ
day = 86400000000000

-- A whole-second duration from `lo` to `hi`, the test of every bounded timing option.
unfoldable pub whole_seconds : ℕ → ℕ → ℤ → Bool
whole_seconds lo hi (pos d) = leb lo d && leb d hi && d % second == 0
whole_seconds lo hi (negsuc d) = false

-- `0 < d` and `d <= hi`.
unfoldable pub positive_to : ℕ → ℤ → Bool
positive_to hi (pos d) = ltb 0 d && leb d hi
positive_to hi (negsuc d) = false

-- `later.Sub(earlier)`, for instants no further apart than a Duration reaches.
unfoldable pub sub_time : ℕ → ℕ → ℤ
sub_time later earlier =
    if leb earlier later then pos (later - earlier) else negsuc (earlier - later - 1)

-- The civil date of a day counted from 0001-01-01: year, month and day.
unfoldable pub civil : ℕ → ℕ × ℕ × ℕ
civil days =
    let z = days + 306 in
    let era = z / 146097 in
    let doe = z % 146097 in
    let yoe = (doe - doe / 1460 + doe / 36524 - doe / 146096) / 365 in
    let doy = doe - (365 * yoe + yoe / 4 - yoe / 100) in
    let mp = (5 * doy + 2) / 153 in
    let m = if ltb mp 10 then mp + 3 else mp - 9 in
    let y = yoe + era * 400 in (if leb m 2 then y + 1 else y, m, doy - (153 * mp + 2) / 5 + 1)

-- The last `width` decimal digits of a number, with leading zeros.
unfoldable pub digits : ℕ → ℕ → List ℕ
digits zero n = []
digits (suc width) n = digits width (n / 10) ++ (b'0' + n % 10) ∷ []

-- `t.Format("20060102-150405")`, for a year of four digits.
unfoldable pub format_stamp : ℕ → List ℕ
unfolding civil digits
format_stamp t =
    let (y, m, d) = civil (t / day) in
    let s = t / second in
    digits 4 y
    ++ (digits 2 m
        ++ (digits 2 d
            ++ (b'-'
                ∷ (digits 2 (s / 3600 % 24) ++ (digits 2 (s / 60 % 60) ++ digits 2 (s % 60))))))

-- The first instant of year 10000.
abbrev pub year_10000 : ℕ
year_10000 = 3652059 * day
