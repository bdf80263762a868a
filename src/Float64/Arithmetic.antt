-- ===== src/Float64/Arithmetic.antt =====
-- The arithmetic of IEEE 754 doubles, rounded to the nearest with ties to even, as Go's `-`, `*` and `/`
-- on float64 and math.Abs and math.Max compute it.
use perfeng_control_plane.Base.{
  ℕ, zero, suc, ◌+◌, ◌-◌, ◌*◌, ◌/◌, ◌%◌, ◌^◌, Bool, true, false, not, ◌&&◌, ◌||◌, ltb, ◌==◌,
  if◌then◌else◌,
}
use perfeng_control_plane.Base.Int.{ℤ, pos, negsuc, add_ℤ, sub_ℤ, monus_ℤ, leb_ℤ}
use perfeng_control_plane.Float64.{Float64, finite, infinite, not_a_number}
use perfeng_control_plane.Float64.Order.{raised, float_le}

-- The bits of a number below `2 ^ fuel`.
unfoldable pub bits : ℕ → ℕ → ℕ
bits zero n = 0
bits (suc fuel) n = elim (ltb 0 n) [ true ↦ suc (bits fuel (n / 2)) | false ↦ 0 ]

-- Every exact result has fewer bits than this: a mantissa has at most 53 and an exponent lies between
-- -1074 and 971, so a difference has at most 2099 and a quotient fewer.
abbrev most_bits : ℕ
most_bits = 4096

abbrev bit_length : ℕ → ℕ
bit_length n = bits most_bits n

-- `m / 2 ^ d` to the nearest, ties to even.
abbrev nearest : ℕ → ℕ → ℕ
nearest m d =
    let q = m / 2 ^ d in
    let r = m % 2 ^ d in
    let half = 2 ^ d / 2 in
    if ltb 0 d && (ltb half r || (r == half && q % 2 == 1)) then q + 1 else q

abbrev at_most_max : Bool → ℕ → ℤ → Float64
at_most_max s m e =
    if leb_ℤ (add_ℤ (pos (bit_length m)) e) (pos 1024) then finite s m e else infinite s

-- The double nearest to `(-1)^s * m * 2^e`: 53 bits, and no exponent below -1074.
unfoldable pub round : Bool → ℕ → ℤ → Float64
unfolding bits
round s m e =
    let long = bit_length m - 53 in
    let low = monus_ℤ (negsuc 1073) e in
    let d = if ltb long low then low else long in at_most_max s (nearest m d) (add_ℤ e (pos d))

abbrev xor : Bool → Bool → Bool
xor true b = not b
xor false b = b

-- `(-1)^s * m - (-1)^t * n` at one exponent. Equal operands of one sign give +0.
abbrev difference : Bool → ℕ → Bool → ℕ → ℤ → Float64
difference s m t n e =
    if xor s t
    then round s (m + n) e
    else if ltb n m
    then round s (m - n) e
    else if ltb m n
    then round (not s) (n - m) e
    else finite false 0 e

-- `x - y`
unfoldable pub float_sub : Float64 → Float64 → Float64
unfolding round
float_sub not_a_number y = not_a_number
float_sub x not_a_number = not_a_number
float_sub (infinite s) (infinite t) = if xor s t then infinite s else not_a_number
float_sub (infinite s) (finite t n f) = infinite s
float_sub (finite s m e) (infinite t) = infinite (not t)
float_sub (finite s m e) (finite t n f) =
    difference s (raised m e f) t (raised n f e) (if leb_ℤ e f then e else f)

-- `x * y`
unfoldable pub float_mul : Float64 → Float64 → Float64
unfolding round
float_mul not_a_number y = not_a_number
float_mul x not_a_number = not_a_number
float_mul (infinite s) (infinite t) = infinite (xor s t)
float_mul (infinite s) (finite t n f) = if n == 0 then not_a_number else infinite (xor s t)
float_mul (finite s m e) (infinite t) = if m == 0 then not_a_number else infinite (xor s t)
float_mul (finite s m e) (finite t n f) = round (xor s t) (m * n) (add_ℤ e f)

-- The quotient of two mantissas to more than 54 bits, with a last bit for the remainder.
abbrev quotient : Bool → ℕ → ℤ → ℕ → ℤ → Float64
quotient s m e n f =
    let k = bit_length n + 55 in
    let q = m * 2 ^ k / n in
    let sticky = if m * 2 ^ k % n == 0 then 0 else 1 in
    round s (2 * q + sticky) (sub_ℤ (sub_ℤ e f) (pos (k + 1)))

-- `x / y`
unfoldable pub float_div : Float64 → Float64 → Float64
unfolding round bits
float_div not_a_number y = not_a_number
float_div x not_a_number = not_a_number
float_div (infinite s) (infinite t) = not_a_number
float_div (infinite s) (finite t n f) = infinite (xor s t)
float_div (finite s m e) (infinite t) = finite (xor s t) 0 e
float_div (finite s m e) (finite t n f) =
    if n == 0
    then if m == 0 then not_a_number else infinite (xor s t)
    else quotient (xor s t) m e n f

-- `-x`
abbrev pub float_neg : Float64 → Float64
float_neg not_a_number = not_a_number
float_neg (infinite s) = infinite (not s)
float_neg (finite s m e) = finite (not s) m e

-- `math.Abs`
abbrev pub float_abs : Float64 → Float64
float_abs not_a_number = not_a_number
float_abs (infinite s) = infinite false
float_abs (finite s m e) = finite false m e

-- `math.Max` of two values that are not negative.
unfoldable pub float_max : Float64 → Float64 → Float64
unfolding float_le
float_max (infinite false) y = infinite false
float_max x (infinite false) = infinite false
float_max not_a_number y = not_a_number
float_max x not_a_number = not_a_number
float_max x y = if float_le x y then y else x
