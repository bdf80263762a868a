-- ===== src/Text/Utf8.antt =====
-- `utf8.ValidString`, `utf8.RuneCountInString` and the test `strings.TrimSpace(s) != ""`.
use perfeng_control_plane.Base.{
  ℕ, suc, Bool, true, false, List, [], ◌∷◌, ◌&&◌, ◌||◌, leb, not, if◌then◌else◌,
}

-- What the bytes read so far ask of the next byte.
pub data Expect : Type 0 where
  start one two three after_e0 after_ed after_f0 after_f4 bad : Expect

abbrev between : ℕ → ℕ → ℕ → Bool
between lo hi c = leb lo c && leb c hi

abbrev lead : ℕ → Expect
lead c =
    if leb c 0x7f
    then start
    else if between 0xc2 0xdf c
    then one
    else if between 0xe0 0xe0 c
    then after_e0
    else if between 0xed 0xed c
    then after_ed
    else if between 0xe1 0xef c
    then two
    else if between 0xf0 0xf0 c
    then after_f0
    else if between 0xf1 0xf3 c
    then three
    else if between 0xf4 0xf4 c
    then after_f4
    else bad

abbrev expect : Expect → ℕ → Expect
expect start c = lead c
expect one c = if between 0x80 0xbf c then start else bad
expect two c = if between 0x80 0xbf c then one else bad
expect three c = if between 0x80 0xbf c then two else bad
expect after_e0 c = if between 0xa0 0xbf c then one else bad
expect after_ed c = if between 0x80 0x9f c then one else bad
expect after_f0 c = if between 0x90 0xbf c then two else bad
expect after_f4 c = if between 0x80 0x8f c then two else bad
expect bad c = bad

abbrev is_start : Expect → Bool
is_start start = true
is_start _ = false

scan : Expect → List ℕ → Bool
scan e [] = is_start e
scan e (c ∷ s) = scan (expect e c) s

unfoldable pub valid_string : List ℕ → Bool
unfolding scan
valid_string s = scan start s

-- The runes of a valid string: the bytes that do not continue a sequence. The program counts runes
-- only behind a passed `utf8.ValidString`.
unfoldable pub rune_count : List ℕ → ℕ
rune_count [] = 0
rune_count (c ∷ s) = let n = rune_count s in if between 0x80 0xbf c then n else suc n

-- The white space of `unicode.IsSpace` in UTF-8: ASCII, U+0085, U+00A0, U+1680, U+2000 to U+200A,
-- U+2028, U+2029, U+202F, U+205F and U+3000.
pub data Blank : Type 0 where
  blank c2 e1 e1_9a e2 e2_80 e2_81 e3 e3_80 other : Blank

abbrev space : Blank → ℕ → Blank
space blank c =
    if between 0x09 0x0d c || between 0x20 0x20 c
    then blank
    else if between 0xc2 0xc2 c
    then c2
    else if between 0xe1 0xe1 c
    then e1
    else if between 0xe2 0xe2 c
    then e2
    else if between 0xe3 0xe3 c
    then e3
    else other
space c2 c = if between 0x85 0x85 c || between 0xa0 0xa0 c then blank else other
space e1 c = if between 0x9a 0x9a c then e1_9a else other
space e1_9a c = if between 0x80 0x80 c then blank else other
space e2 c = if between 0x80 0x80 c then e2_80 else if between 0x81 0x81 c then e2_81 else other
space e2_80 c =
    if between 0x80 0x8a c || between 0xa8 0xa9 c || between 0xaf 0xaf c then blank else other
space e2_81 c = if between 0x9f 0x9f c then blank else other
space e3 c = if between 0x80 0x80 c then e3_80 else other
space e3_80 c = if between 0x80 0x80 c then blank else other
space other c = other

all_blank : Blank → List ℕ → Bool
all_blank blank [] = true
all_blank _ [] = false
all_blank b (c ∷ s) = all_blank (space b c) s

-- `strings.TrimSpace(s) != ""`.
unfoldable pub has_text : List ℕ → Bool
unfolding all_blank
has_text s = not (all_blank blank s)
