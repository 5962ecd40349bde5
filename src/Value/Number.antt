-- ===== src/Value/Number.antt =====
-- Go's 64-bit integers: `strconv.Atoi`, `%d`, and the conversion of a float64 to an int64 (as on
-- amd64, where a number out of range gives the least int64).
use Prim.Native.String.{[], ◌∷◌, ◌++◌}
use Prim.Native.Char.{code}
use gatus_sidecar.Prelude.{
  ℕ, zero, suc, ◌+◌, ◌-◌, ◌*◌, ◌/◌, ◌%◌, ◌^◌, String, Bool, Option, none, some, ltb, leb, num_eq,
  if◌then◌else◌,
}
use gatus_sidecar.Prelude.Text.{decimal, parse_digits}
use gatus_sidecar.Value.{ℤ, pos, negsuc}

unfoldable pub in_int64 : ℤ → Bool
in_int64 (pos n) = ltb n (2 ^ 63)
in_int64 (negsuc n) = ltb n (2 ^ 63)

-- `-n`
unfoldable pub negated : ℕ → ℤ
negated zero = pos zero
negated (suc n) = negsuc n

-- `fmt.Sprintf("%d", n)`
unfoldable pub decimal_int : ℤ → String
decimal_int (pos n) = decimal n
decimal_int (negsuc n) = "-" ++ decimal (suc n)

checked : (ℕ → ℤ) → Option ℕ → Option ℤ
unfolding in_int64
checked sign none = none
checked sign (some n) = if in_int64 (sign n) then some (sign n) else none

-- `strconv.Atoi`; an error is `none`.
unfoldable pub atoi : String → Option ℤ
unfolding checked negated
atoi [] = none
atoi (c ∷ s) =
    if num_eq (code c) 43
    then checked pos (parse_digits s)
    else if num_eq (code c) 45
    then checked negated (parse_digits s)
    else checked pos (parse_digits (c ∷ s))

exponent : ℕ → ℕ
exponent x = let e = x / 2 ^ 52 % 2 ^ 11 in if num_eq e 0 then 1 else e

significand : ℕ → ℕ
significand x = x % 2 ^ 52 + (if num_eq (x / 2 ^ 52 % 2 ^ 11) 0 then 0 else 2 ^ 52)

-- The absolute value, where it is a whole number.
whole_magnitude : ℕ → Option ℕ
unfolding exponent significand
whole_magnitude x =
    if leb 1075 (exponent x)
    then some (significand x * 2 ^ (exponent x - 1075))
    else if num_eq (significand x % 2 ^ (1075 - exponent x)) 0
    then some (significand x / 2 ^ (1075 - exponent x))
    else none

-- `int64(t)` where `t == float64(int64(t))`.
unfoldable pub whole_number : ℕ → Option ℤ
unfolding whole_magnitude checked negated
whole_number x = checked (if num_eq (x / 2 ^ 63 % 2) 1 then negated else pos) (whole_magnitude x)
