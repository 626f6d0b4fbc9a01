-- ===== src/Runtime/Float.antt =====
-- `f64` as its bits: what the runtime reads of a float is exact, and is defined here from IEEE 754.
-- A finite float is an integer number of units of 2 ^ -1074, the smallest positive float.
-- Operations that round (`+`, `*`, `powf`, a cast from `i64`, …) are the record `Rounding`.
pub mod Units
use Prim.Native.Nat.{compare, Ordering}
use ruta.Prelude.{
  ℕ, zero, suc, ◌+◌, ◌-◌, ◌*◌, ◌/◌, ◌%◌, ◌^◌, ◌<◌, ◌≤◌, ◌≡◌, arith, Bool, true, false, ◌&&◌, ◌||◌,
  not, ltb, leb, ◌==◌, if◌then◌else◌, Option, none, some,
}
use ruta.Prelude.Int.{ℤ, pos, negsuc, pos_part, neg_part, sub_ℕ, ltb_ℤ, leb_ℤ, eqb_ℤ, compare_ℤ}

unfoldable pub exponent : ℕ → ℕ
exponent bits = bits / 2 ^ 52 % 2 ^ 11

unfoldable pub mantissa : ℕ → ℕ
mantissa bits = bits % 2 ^ 52

unfoldable pub is_nan : ℕ → Bool
unfolding exponent mantissa
is_nan bits = exponent bits == 2047 && ltb 0 (mantissa bits)

-- The absolute value in units. An infinity comes out above every finite float.
unfoldable pub magnitude : ℕ → ℕ
unfolding exponent mantissa
magnitude bits =
    if exponent bits == 0 then mantissa bits else (2 ^ 52 + mantissa bits) * 2 ^ (exponent bits - 1)

-- The value in units; both zeros are 0.
unfoldable pub units : ℕ → ℤ
unfolding magnitude
units bits = if leb (2 ^ 63) bits then sub_ℕ 0 (magnitude bits) else pos (magnitude bits)

-- An integer in units.
abbrev pub unit : ℕ
unit = 2 ^ 1074

unfoldable pub in_units : ℤ → ℤ
in_units (pos n) = pos (n * unit)
in_units (negsuc n) = sub_ℕ 0 ((n + 1) * unit)

-- `floor` and `ceil`, as the integer that the result is.
unfoldable pub floor_units : ℤ → ℤ
floor_units (pos n) = pos (n / unit)
floor_units (negsuc n) = negsuc (n / unit)

unfoldable pub ceil_units : ℤ → ℤ
ceil_units (pos n) = pos ((n + (unit - 1)) / unit)
ceil_units (negsuc n) = sub_ℕ 0 ((n + 1) / unit)

unfoldable pub floor : ℕ → ℤ
floor bits = floor_units (units bits)

unfoldable pub ceil : ℕ → ℤ
ceil bits = ceil_units (units bits)

-- `partial_cmp`, and `==`, `<` and `<=`, which are false of a NaN.
unfoldable pub partial_cmp : ℕ → ℕ → Option Ordering
partial_cmp a b = if is_nan a || is_nan b then none else some (compare_ℤ (units a) (units b))

-- The float of an integer that is a float exactly, such as a power of two, compared with a float.
unfoldable pub le_float : ℤ → ℕ → Bool
le_float a b = not (is_nan b) && leb_ℤ (in_units a) (units b)

unfoldable pub lt_float : ℕ → ℤ → Bool
lt_float a b = not (is_nan a) && ltb_ℤ (units a) (in_units b)

-- `number.floor() == number`, which is false of a NaN.
unfoldable pub is_whole : ℕ → Bool
is_whole bits = not (is_nan bits) && eqb_ℤ (in_units (floor bits)) (units bits)

-- What rounds: the hardware's arithmetic and libm. Nothing is assumed of it.
pub record Rounding : Type 0 where
  pub of_i64 : ℤ → ℕ
  pub add : ℕ → ℕ → ℕ
  pub sub : ℕ → ℕ → ℕ
  pub mul : ℕ → ℕ → ℕ
  pub div : ℕ → ℕ → ℕ
  pub rem : ℕ → ℕ → ℕ
  pub powf : ℕ → ℕ → ℕ
  pub round_down : ℕ → ℕ

-- `-number` flips the sign bit.
unfoldable pub neg : ℕ → ℕ
neg bits = if leb (2 ^ 63) bits then bits - 2 ^ 63 else bits + 2 ^ 63
