-- ===== src/Float64/Order.antt =====
-- The comparisons of two floats. `<=` is false whenever an operand is not a number.
use perfeng_control_plane.Base.{ℕ, ◌*◌, ◌^◌, Bool, true, false, not, ◌&&◌, leb, ◌==◌}
use perfeng_control_plane.Base.Int.{ℤ, pos, monus_ℤ}
use perfeng_control_plane.Float64.{Float64, finite, infinite, not_a_number}

-- The mantissa at the smaller of two exponents.
abbrev pub raised : ℕ → ℤ → ℤ → ℕ
raised m e f = m * 2 ^ monus_ℤ e f

-- `(-1)^s * m <= (-1)^t * n`
abbrev pub signed_le : Bool → ℕ → Bool → ℕ → Bool
signed_le false m false n = leb m n
signed_le false m true n = m == 0 && n == 0
signed_le true m false n = true
signed_le true m true n = leb n m

-- `x <= y`
unfoldable pub float_le : Float64 → Float64 → Bool
float_le not_a_number y = false
float_le x not_a_number = false
float_le (infinite true) y = true
float_le x (infinite false) = true
float_le (infinite false) y = false
float_le x (infinite true) = false
float_le (finite s m e) (finite t n f) = signed_le s (raised m e f) t (raised n f e)

-- `x > y`
unfoldable pub float_gt : Float64 → Float64 → Bool
float_gt x y = float_le y x && not (float_le x y)

-- The zero of a literal, and `x == 0`.
abbrev pub zero_float : Float64
zero_float = finite false 0 (pos 0)

unfoldable pub is_zero : Float64 → Bool
is_zero (finite s m e) = m == 0
is_zero _ = false
