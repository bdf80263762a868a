-- ===== src/Text/Regex.antt =====
-- Regular expressions as the program compiles them (package regexp): every pattern is anchored at
-- both ends, so a match is a match of the whole text. Matching is by derivatives.
use Prim.Native.String.{String}
use Prim.Native.Char.{code}
use perfeng_control_plane.Base.{
  ℕ, zero, suc, Bool, true, false, List, [], ◌∷◌, ◌&&◌, ◌||◌, leb, ◌==◌, if◌then◌else◌,
}

pub data Regex : Type 0 where
  never empty : Regex
  one_of : (ℕ → Bool) → Regex
  seq alt : Regex → Regex → Regex
  star : Regex → Regex

-- Byte classes.
abbrev pub lower : ℕ → Bool
lower c = leb b'a' c && leb c b'z'

abbrev pub digit : ℕ → Bool
digit c = leb b'0' c && leb c b'9'

abbrev pub upper : ℕ → Bool
upper c = leb b'A' c && leb c b'Z'

abbrev pub hex : ℕ → Bool
hex c = digit c || (leb b'a' c && leb c b'f')

abbrev pub lower_digit : ℕ → Bool
lower_digit c = lower c || digit c

abbrev pub alnum : ℕ → Bool
alnum c = lower c || upper c || digit c

abbrev pub byte : ℕ → Regex
byte b = one_of (λ c. c == b)

-- One of the bytes of an ASCII literal.
abbrev pub among : String → ℕ → Bool
among String.[] c = false
among (String.◌∷◌ d s) c = c == code d || among s c

-- A literal.
abbrev pub literal : String → Regex
literal String.[] = empty
literal (String.◌∷◌ d s) = seq (byte (code d)) (literal s)

-- `r{n}`, `r{0,n}`, `r+` and `r?`.
abbrev pub times : ℕ → Regex → Regex
times zero r = empty
times (suc n) r = seq r (times n r)

abbrev pub up_to : ℕ → Regex → Regex
up_to zero r = empty
up_to (suc n) r = alt empty (seq r (up_to n r))

abbrev pub plus : Regex → Regex
plus r = seq r (star r)

abbrev pub optional : Regex → Regex
optional r = alt empty r

nullable : Regex → Bool
nullable never = false
nullable empty = true
nullable (one_of p) = false
nullable (seq r s) = nullable r && nullable s
nullable (alt r s) = nullable r || nullable s
nullable (star r) = true

abbrev join : Regex → Regex → Regex
join never s = never
join empty s = s
join r s = seq r s

abbrev either : Regex → Regex → Regex
either never s = s
either r never = r
either r s = alt r s

derive : ℕ → Regex → Regex
unfolding nullable
derive c never = never
derive c empty = never
derive c (one_of p) = if p c then empty else never
derive c (seq r s) =
    either (join (derive c r) s) (let later = derive c s in if nullable r then later else never)
derive c (alt r s) = either (derive c r) (derive c s)
derive c (star r) = join (derive c r) (star r)

-- `MatchString` of an anchored pattern.
unfoldable pub matches : Regex → List ℕ → Bool
unfolding nullable derive
matches r [] = nullable r
matches r (c ∷ s) = matches (derive c r) s
