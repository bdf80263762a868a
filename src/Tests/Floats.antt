-- ===== src/Tests/Floats.antt =====
-- Float arithmetic against the values that a double has.
use perfeng_control_plane.Base.{◌≡◌, refl, false}
use perfeng_control_plane.Base.Int.{pos, negsuc}
use perfeng_control_plane.Float64.{Float64, finite}
use perfeng_control_plane.Float64.Arithmetic.{float_sub, float_mul, float_div, round, bits}

abbrev tenth : Float64
tenth = finite false 7205759403792794 (negsuc 55)

abbrev three : Float64
three = finite false 3 (pos 0)

abbrev one : Float64
one = finite false 1 (pos 0)

-- 1 / 3, 1 - 0.1 and 0.1 * 3.
one-third : float_div one three ≡ finite false 6004799503160661 (negsuc 53)
unfolding float_div round bits
one-third = refl

one-minus_tenth : float_sub one tenth ≡ finite false 8106479329266893 (negsuc 52)
unfolding float_sub round bits
one-minus_tenth = refl

tenth-three_times : float_mul tenth three ≡ finite false 5404319552844596 (negsuc 53)
unfolding float_mul round bits
tenth-three_times = refl
