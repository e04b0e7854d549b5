-- ===== src/Storage/Schema/Float.antt =====
-- float64 as its IEEE 754 bit pattern: the comparisons that the code makes.
use fun_project.Common.{ℕ, ◌≡◌, refl, true, ◌*◌, ◌%◌, ◌^◌, Bool, not, ◌&&◌, ◌||◌, ltb, leb, nat_eq}

abbrev pub Float64 : Type 0
Float64 = ℕ

abbrev sign_bit : ℕ
sign_bit = 2 ^ 63

-- the exponent and the fraction
magnitude : Float64 → ℕ
magnitude x = x % sign_bit

is_nan : Float64 → Bool
unfolding magnitude
is_nan x = ltb (2047 * 2 ^ 52) (magnitude x)

is_negative : Float64 → Bool
is_negative x = leb sign_bit x

-- a == b: NaN equals nothing, and -0 equals +0.
unfoldable pub float_eq : Float64 → Float64 → Bool
unfolding magnitude is_nan
float_eq a b =
    not (is_nan a)
    && not (is_nan b)
    && (nat_eq a b || nat_eq (magnitude a) 0 && nat_eq (magnitude b) 0)

less : Bool → Bool → ℕ → ℕ → Bool
less Bool.false Bool.false m n = ltb m n
less Bool.true Bool.true m n = ltb n m
less Bool.true Bool.false m n = ltb 0 m || ltb 0 n
less Bool.false Bool.true m n = Bool.false

-- a < b
unfoldable pub float_lt : Float64 → Float64 → Bool
unfolding magnitude is_nan is_negative less
float_lt a b =
    not (is_nan a)
    && not (is_nan b)
    && less (is_negative a) (is_negative b) (magnitude a) (magnitude b)

abbrev pub float_zero : Float64
float_zero = 0

abbrev pub float_one : Float64
float_one = 1023 * 2 ^ 52

-- 0 < 0.15
pub zero_is_less : float_lt float_zero 0x3fc3333333333333 ≡ true
unfolding float_lt magnitude is_nan is_negative less
zero_is_less = refl
