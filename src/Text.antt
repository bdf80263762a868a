-- ===== src/Text.antt =====
-- Go strings as lists of bytes, with what the program uses of the packages utf8, strings and regexp.
pub mod Regex
pub mod Utf8
use Prim.Native.String.{String}
use perfeng_control_plane.Base.{ℕ, Bool, List, [], ◌∷◌, ◌&&◌, ◌||◌, leb, ◌==◌, not, holds}
use Prim.Native.Char.{code}
unfoldable use perfeng_control_plane.Base.{ℕ_discrete}

abbrev pub Text : Type 0
Text = List ℕ

unfoldable pub Text-discrete : Discrete Text
unfolding ℕ_discrete
Text-discrete = hlevel ℕ_discrete

abbrev pub text_eq : Text → Text → Bool
text_eq a b = holds (Text-discrete a b)

-- The bytes of an ASCII literal.
abbrev pub text : String → Text
text (String.◌∷◌ letter rest) = code letter ∷ text rest
text String.[] = []
