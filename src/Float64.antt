-- ===== src/Float64.antt =====
-- Go's `float64` as a value: a sign with a mantissa and a power of two, an infinity, or not a number.
-- The tests that the evidence rules make on one; the comparisons and the arithmetic are in two children.
use perfeng_control_plane.Base.{ℕ, Bool, true, false, ◌&&◌, ◌||◌, not, ltb}
use perfeng_control_plane.Base.Int.{ℤ}
pub mod Order
pub mod Arithmetic

pub data Float64 : Type 0 where
  -- (-1)^negative * mantissa * 2^exponent
  finite : Bool → ℕ → ℤ → Float64
  infinite : Bool → Float64
  not_a_number : Float64

-- `x < 0`, which is false at -0 and at NaN.
unfoldable pub negative : Float64 → Bool
negative (finite minus mantissa exponent) = minus && ltb 0 mantissa
negative (infinite minus) = minus
negative not_a_number = false

-- `math.IsNaN`.
unfoldable pub is_nan : Float64 → Bool
is_nan not_a_number = true
is_nan _ = false

-- `math.IsInf(x, 0)`.
unfoldable pub is_inf : Float64 → Bool
is_inf (infinite minus) = true
is_inf _ = false

unfoldable pub is_finite : Float64 → Bool
is_finite value = not (is_nan value) && not (is_inf value)
