-- ===== src/Runtime/Arith.antt =====
-- The operators on values: crates/ruta-runtime/src/vm/arith.rs.
-- An `i64` is a ℤ in range. What an error message is spelled like is left to `vm.throw` and
-- `vm.fault`: an error here is the text that they are given and the operand that takes the blame.
pub mod Division
pub mod Shift
pub mod Range
pub mod Comparison
pub mod Exact
use Prim.Native.Nat.{Ordering, bit_and, bit_or, bit_xor}
use Prim.Native.String.{String}
use ruta.Prelude.{
  panic, ℕ, zero, suc, ◌+◌, ◌-◌, ◌*◌, ◌/◌, ◌%◌, ◌^◌, ◌<◌, ◌≤◌, Bool, true, false, ◌&&◌, ◌||◌, not,
  ltb, leb, ◌==◌, if◌then◌else◌, Option, none, some, List, Outcome, ok, err, ◌>>=◌,
}
use ruta.Prelude.Int.{
  ℤ, pos, negsuc, pos_part, neg_part, sub_ℕ, of_word, ltb_ℤ, leb_ℤ, eqb_ℤ, compare_ℤ, word_64, wrap,
  ◌+ℤ◌, ◌-ℤ◌, ◌*ℤ◌,
}
use ruta.Runtime.Float
use ruta.Runtime.Float.{
  Rounding, is_nan, floor, is_whole, le_float, lt_float, units, in_units, partial_cmp,
}
use ruta.Runtime.Value.{
  Value, nil, bool, int, float, str, table, func, user_data, thread, type_name,
}

pub data ArithKind : Type 0 where
  add sub mul div i_div modulo pow : ArithKind

pub data Bitwise : Type 0 where
  and or xor shl shr : Bitwise

pub data Compare : Type 0 where
  lt le gt ge : Compare

pub record Operand : Type 0 where
  pub value : Value
  pub reg : ℕ

pub data Num : Type 0 where
  int_num : ℤ → Num
  float_num : ℕ → Num

pub data Error : Type 0 where
  throw : String → Error
  fault : String → Operand → Error
  no_integer : Operand → Error

-- `whole`, -2^63 ≤ number < 2^63
unfoldable pub whole : ℕ → Bool
whole number = le_float (negsuc (2 ^ 63 - 1)) number && lt_float number (pos (2 ^ 63))

-- `integer`; in range, the cast of a whole float is the integer that `floor` gives.
unfoldable pub integer : Value → Option ℤ
integer (int number) = some number
integer (float number) = if is_whole number && whole number then some (floor number) else none
integer _ = none

unfoldable pub number : Value → Option Num
number (int n) = some (int_num n)
number (float n) = some (float_num n)
number _ = none

-- `wrapping_div` and `wrapping_rem` by a divisor other than 0, which truncate; a quotient out of
-- range wraps.
unfoldable pub quotient : ℤ → ℤ → ℤ
quotient (pos a) (pos b) = pos (a / b)
quotient (pos a) (negsuc b) = sub_ℕ 0 (a / (b + 1))
quotient (negsuc a) (pos b) = sub_ℕ 0 ((a + 1) / b)
quotient (negsuc a) (negsuc b) = pos ((a + 1) / (b + 1))

unfoldable pub wrapping_div : ℤ → ℤ → ℤ
wrapping_div a b = wrap (quotient a b)

unfoldable pub wrapping_rem : ℤ → ℤ → ℤ
wrapping_rem (pos a) (pos b) = pos (a % b)
wrapping_rem (pos a) (negsuc b) = pos (a % (b + 1))
wrapping_rem (negsuc a) (pos b) = sub_ℕ 0 ((a + 1) % b)
wrapping_rem (negsuc a) (negsuc b) = sub_ℕ 0 ((a + 1) % (b + 1))

abbrev pub is_neg : ℤ → Bool
is_neg (pos n) = false
is_neg (negsuc n) = true

abbrev pub is_zero : ℤ → Bool
is_zero (pos zero) = true
is_zero (pos (suc n)) = false
is_zero (negsuc n) = false

abbrev pub differ : Bool → Bool → Bool
differ true b = not b
differ false b = b

-- `floor_div` and `floor_mod` by a divisor other than 0.
unfoldable pub div_down : ℤ → ℤ → ℤ
div_down left right =
    if not (is_zero (wrapping_rem left right)) && differ (is_neg left) (is_neg right)
    then wrap (wrapping_div left right -ℤ pos 1)
    else wrapping_div left right

unfoldable pub mod_down : ℤ → ℤ → ℤ
unfolding wrapping_rem ◌+ℤ◌ wrap
mod_down left right =
    let rest = wrapping_rem left right in
    if not (is_zero rest) && differ (is_neg rest) (is_neg right) then wrap (rest +ℤ right) else rest

-- `floor_div`: `wrapping_div`, which it calls first, panics on a divisor of 0.
unfoldable pub floor_div : ℤ → ℤ → Outcome Error ℤ
unfolding div_down
floor_div left right = if is_zero right then panic else ok (div_down left right)

-- `floor_mod`: so does `wrapping_rem`.
unfoldable pub floor_mod : ℤ → ℤ → Outcome Error ℤ
unfolding mod_down
floor_mod left right = if is_zero right then panic else ok (mod_down left right)

-- `shift`: left by `places`, or right by `-places`; the word's other bits are zeros.
unfoldable pub shift : ℤ → ℤ → ℤ
unfolding word_64
shift value (pos places) = elim (leb 64 places) [
  | true ↦ pos 0
  | false ↦ of_word (2 ^ 63) (word_64 value * 2 ^ places % 2 ^ 64)
]
shift value (negsuc places) = elim (leb 63 places) [
  | true ↦ pos 0
  | false ↦ of_word (2 ^ 63) (word_64 value / 2 ^ (places + 1))
]

unfoldable pub wrapping_neg : ℤ → ℤ
unfolding wrap ◌-ℤ◌
wrapping_neg a = wrap (pos 0 -ℤ a)

-- `against`
unfoldable pub against : ℤ → ℕ → Option Ordering
against left right =
    if is_nan right
    then none
    else if le_float (pos (2 ^ 63)) right
    then some Ordering.lt
    else if lt_float right (negsuc (2 ^ 63 - 1))
    then some Ordering.gt
    else elim (compare_ℤ left (floor right)) [
      | Ordering.lt ↦ some Ordering.lt
      | Ordering.gt ↦ some Ordering.gt
      | Ordering.eq ↦
          if ltb_ℤ (in_units (floor right)) (units right)
          then some Ordering.lt
          else some Ordering.eq
    ]

unfoldable pub reverse : Option Ordering → Option Ordering
reverse none = none
reverse (some Ordering.lt) = some Ordering.gt
reverse (some Ordering.eq) = some Ordering.eq
reverse (some Ordering.gt) = some Ordering.lt

-- `order`
unfoldable pub order : Num → Num → Option Ordering
order (int_num left) (int_num right) = some (compare_ℤ left right)
order (float_num left) (float_num right) = partial_cmp left right
order (int_num left) (float_num right) = against left right
order (float_num left) (int_num right) = reverse (against right left)

-- `float`, a number as an `f64`.
unfoldable pub float_of : Rounding → Num → ℕ
float_of r (int_num n) = r.of_i64 n
float_of r (float_num n) = n

-- `float_mod`
unfoldable pub float_mod : Rounding → ℕ → ℕ → ℕ
unfolding partial_cmp units is_nan
float_mod r left right =
    let rest = r.rem left right in
    let is_less : ℕ → Bool =
      λ a. elim (partial_cmp a 0) [ none ↦ false | some Ordering.lt ↦ true | some _ ↦ false ] in
    let is_zero_float : Bool = not (is_nan rest) && eqb_ℤ (units rest) (pos 0) in
    if not is_zero_float && differ (is_less rest) (is_less right) then r.add rest right else rest

-- Which operand an arithmetic error names.
unfoldable pub blamed : Operand → Operand → Operand
unfolding number
blamed left right = elim (number left.value) [ some n ↦ right | none ↦ left ]

abbrev pub int_ok : ℤ → Outcome Error Value
int_ok n = ok (int n)

abbrev pub float_ok : ℕ → Outcome Error Value
float_ok n = ok (float n)

-- The match of `arith` on two numbers.
unfoldable pub on_numbers : Rounding → ArithKind → Num → Num → Outcome Error Value
unfolding float_of float_mod floor_div floor_mod wrap ◌+ℤ◌ ◌-ℤ◌ ◌*ℤ◌
on_numbers r div a b = float_ok (r.div (float_of r a) (float_of r b))
on_numbers r pow a b = float_ok (r.powf (float_of r a) (float_of r b))
on_numbers r add (int_num a) (int_num b) = int_ok (wrap (a +ℤ b))
on_numbers r sub (int_num a) (int_num b) = int_ok (wrap (a -ℤ b))
on_numbers r mul (int_num a) (int_num b) = int_ok (wrap (a *ℤ b))
on_numbers r i_div (int_num a) (int_num b) =
    if is_zero b then err (throw "attempt to divide by zero") else (floor_div a b >>= int_ok)
on_numbers r modulo (int_num a) (int_num b) =
    if is_zero b then err (throw "attempt to perform 'n%0'") else (floor_mod a b >>= int_ok)
on_numbers r add a b = float_ok (r.add (float_of r a) (float_of r b))
on_numbers r sub a b = float_ok (r.sub (float_of r a) (float_of r b))
on_numbers r mul a b = float_ok (r.mul (float_of r a) (float_of r b))
on_numbers r i_div a b = float_ok (r.round_down (r.div (float_of r a) (float_of r b)))
on_numbers r modulo a b = float_ok (float_mod r (float_of r a) (float_of r b))

-- `arith`
unfoldable pub arithmetic : Rounding → ArithKind → Operand → Operand → Outcome Error Value
unfolding on_numbers blamed number
arithmetic r kind left right = elim (number left.value) [
  | none ↦ err (fault "perform arithmetic on" (blamed left right))
  | some a ↦ elim (number right.value) [
    | none ↦ err (fault "perform arithmetic on" (blamed left right))
    | some b ↦ on_numbers r kind a b
  ]
]

-- `negate`
unfoldable pub negate : Operand → Outcome Error Value
unfolding number blamed wrapping_neg Float.neg
negate operand = elim (number operand.value) [
  | some (int_num n) ↦ int_ok (wrapping_neg n)
  | some (float_num n) ↦ float_ok (Float.neg n)
  | none ↦ err (fault "perform arithmetic on" (blamed operand operand))
]

-- `bitwise_error`: two numbers fail for want of an integer, else the first that is no number.
unfoldable pub bitwise_error : Operand → Operand → Error
unfolding number integer blamed
bitwise_error left right = elim (number left.value) [
  | none ↦ fault "perform bitwise operation on" (blamed left right)
  | some a ↦ elim (number right.value) [
    | none ↦ fault "perform bitwise operation on" (blamed left right)
    | some b ↦ elim (integer left.value) [ none ↦ no_integer left | some n ↦ no_integer right ]
  ]
]

-- The operators of `bitwise` on two integers.
unfoldable pub on_integers : Bitwise → ℤ → ℤ → ℤ
unfolding word_64 shift wrapping_neg
on_integers and a b = of_word (2 ^ 63) (bit_and (word_64 a) (word_64 b))
on_integers or a b = of_word (2 ^ 63) (bit_or (word_64 a) (word_64 b))
on_integers xor a b = of_word (2 ^ 63) (bit_xor (word_64 a) (word_64 b))
on_integers shl a b = shift a b
on_integers shr a b = shift a (wrapping_neg b)

-- `bitwise`
unfoldable pub bitwise : Bitwise → Operand → Operand → Outcome Error Value
unfolding integer bitwise_error on_integers
bitwise kind left right = elim (integer left.value) [
  | none ↦ err (bitwise_error left right)
  | some a ↦ elim (integer right.value) [
    | none ↦ err (bitwise_error left right)
    | some b ↦ int_ok (on_integers kind a b)
  ]
]

-- `complement`: `!number` is -number - 1.
unfoldable pub complement : Operand → Outcome Error Value
unfolding integer bitwise_error
complement operand = elim (integer operand.value) [
  | some (pos n) ↦ int_ok (negsuc n)
  | some (negsuc n) ↦ int_ok (pos n)
  | none ↦ err (bitwise_error operand operand)
]
