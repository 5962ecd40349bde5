-- ===== src/Value/Float.antt =====
-- Go's `==` on two values of type float64, from their bits (IEEE 754 binary64).
use gatus_sidecar.Prelude.{ℕ, ◌%◌, ◌^◌, Bool, not, ◌&&◌, ◌||◌, ltb, num_eq}

-- The bits without the sign.
magnitude : ℕ → ℕ
magnitude x = x % 2 ^ 63

-- All exponent bits set, and some bit of the fraction.
unfoldable pub is_nan : ℕ → Bool
unfolding magnitude
is_nan x = ltb 0x7ff0_0000_0000_0000 (magnitude x)

-- A NaN equals nothing; the two zeros are equal.
unfoldable pub float_eq : ℕ → ℕ → Bool
unfolding is_nan magnitude
float_eq x y =
    not (is_nan x)
    && not (is_nan y)
    && (num_eq x y || (num_eq (magnitude x) 0 && num_eq (magnitude y) 0))
