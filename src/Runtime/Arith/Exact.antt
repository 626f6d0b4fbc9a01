-- ===== src/Runtime/Arith/Exact.antt =====
-- Comparing an integer with a float is exact.
use Prim.Native.Nat.{Ordering}
use ruta.Prelude.{ℕ, ◌-◌, ◌^◌, ◌≤◌, ◌≡◌, refl, ap, ◌∙◌, arith, if◌then◌else◌, Option, none, some}
use ruta.Prelude.Int.{ℤ, pos, negsuc, IsI64, compare_ℤ}
use ruta.Runtime.Float.{
  is_nan, le_float, lt_float, units, floor_units, floor, in_units, partial_cmp,
}
use ruta.Runtime.Float.Units.{floor_units-le, floor_units-lt, in_units-lt, in_units-mono}
use ruta.Runtime.Value.{Value, int, float}
use ruta.Runtime.Arith.{Num, int_num, float_num, against, order, reverse}

-- A number as a value.
unfoldable pub value_of : Num → Value
value_of (int_num n) = int n
value_of (float_num n) = float n

-- A number as an exact count of units, if it is no NaN.
unfoldable pub exact : Num → Option ℤ
exact (int_num n) = some (in_units n)
exact (float_num n) = if is_nan n then none else some (units n)

-- The order of two exact values.
unfoldable pub exact_order : Option ℤ → Option ℤ → Option Ordering
exact_order none b = none
exact_order (some a) none = none
exact_order (some a) (some b) = some (compare_ℤ a b)

against-exact :
    (a : ℤ) (b : ℕ) → IsI64 a → against a b ≡ exact_order (some (in_units a)) (exact (float_num b))
unfolding against exact exact_order le_float lt_float floor
against-exact a b h =
    let u = units b in
    ground (
      arith,
      in_units-lt a (pos (2 ^ 63)),
      in_units-mono (negsuc (2 ^ 63 - 1)) a,
      floor_units-le u,
      floor_units-lt a u,
      in_units-mono a (floor_units u),
      in_units-lt a (floor_units u),
      in_units-mono (floor_units u) a,
    )

-- Turning an order around.
reverse-exact_order : (a b : Option ℤ) → reverse (exact_order a b) ≡ exact_order b a
unfolding reverse exact_order
reverse-exact_order none none = refl
reverse-exact_order none (some b) = refl
reverse-exact_order (some a) none = refl
reverse-exact_order (some a) (some b) = ground arith

-- Integers in the range of an `i64`; any bits of a float.
abbrev pub IsNum : Num → Type 0
IsNum (int_num n) = IsI64 n
IsNum (float_num n) = 0 ≤ n

compare-in_units : (a b : ℤ) → compare_ℤ a b ≡ compare_ℤ (in_units a) (in_units b)
compare-in_units a b =
    ground (arith, in_units-lt a b, in_units-lt b a, in_units-mono a b, in_units-mono b a)

-- For integers that are `i64`s and any floats, `order` answers as the exact values compare, and
-- nothing where one of them is a NaN: no comparison of an integer with a float is rounded.
pub order-exact : (a b : Num) → IsNum a → IsNum b → order a b ≡ exact_order (exact a) (exact b)
unfolding order exact exact_order partial_cmp
order-exact (int_num a) (int_num b) ha hb = ap (λ o. some o) (compare-in_units a b)
order-exact (int_num a) (float_num b) ha hb = against-exact a b ha
order-exact (float_num a) (int_num b) ha hb =
    ap reverse (against-exact b a hb)
    ∙ reverse-exact_order (some (in_units b)) (exact (float_num a))
order-exact (float_num a) (float_num b) ha hb = ground arith
