-- ===== src/Runtime/Arith/Range.antt =====
-- Every integer that an operator answers is an `i64`.
use native.Mathlib.Nat.{mod-le}
use ruta.Prelude.{
  ℕ, ◌+◌, ◌-◌, ◌*◌, ◌/◌, ◌%◌, ◌^◌, ◌≤◌, ◌≡◌, subst, arith, true, not, ◌&&◌, Bool-cases, inl, inr,
  some, Outcome, ok, err, panic, Option-cases,
}
use ruta.Prelude.Int.{ℤ, pos, negsuc, IsI64, wrap-IsI64, of_word, word_64, eq_of_parts}
use ruta.Runtime.Float.{Rounding, floor, units, le_float, lt_float, is_whole, in_units}
use ruta.Runtime.Float.Units.{in_units-lt, in_units-mono}
use ruta.Runtime.Value.{Value, int, float}
use ruta.Runtime.Arith.{
  ArithKind, add, sub, mul, div, i_div, modulo, pow, Bitwise, and, or, xor, shl, shr, Operand, Num,
  int_num, float_num, Error, integer, number, is_zero, is_neg, differ, wrapping_neg, wrapping_div,
  div_down, mod_down, wrapping_rem, shift, on_numbers, arithmetic, negate, on_integers, bitwise,
  complement, whole,
}

-- What the machine's values are in range of.
abbrev pub IsValue : Value → Type 0
IsValue (int n) = IsI64 n
IsValue v = 0 ≤ 0

abbrev pub IsResult : Outcome Error Value → Type 0
IsResult (ok v) = IsValue v
IsResult (err e) = 0 ≤ 0
IsResult panic = 1 ≤ 0

of_word-IsI64 : (w : ℕ) → IsI64 (of_word (2 ^ 63) w)
of_word-IsI64 w = ground arith

div_down-IsI64 : (a b : ℤ) → IsI64 (div_down a b)
unfolding div_down wrapping_div
div_down-IsI64 a b =
    elim (Bool-cases (not (is_zero (wrapping_rem a b)) && differ (is_neg a) (is_neg b))) [
      | inl e ↦ rw (e, div_down) (wrap-IsI64 _)
      | inr e ↦ rw (e, div_down) (wrap-IsI64 _)
    ]

wrapping_rem-IsI64 : (a b : ℤ) → IsI64 a → IsI64 (wrapping_rem a b)
unfolding wrapping_rem
wrapping_rem-IsI64 (pos a) (pos b) h = ground (arith, mod-le a b)
wrapping_rem-IsI64 (pos a) (negsuc b) h = ground (arith, mod-le a (b + 1))
wrapping_rem-IsI64 (negsuc a) (pos b) h = ground (arith, mod-le (a + 1) b)
wrapping_rem-IsI64 (negsuc a) (negsuc b) h = ground (arith, mod-le (a + 1) (b + 1))

mod_down-IsI64 : (a b : ℤ) → IsI64 a → IsI64 b → IsI64 (mod_down a b)
unfolding mod_down
mod_down-IsI64 a b ha hb =
    let rest = wrapping_rem a b in
    elim (Bool-cases (not (is_zero rest) && differ (is_neg rest) (is_neg b))) [
      | inl e ↦ rw (e, mod_down) (wrap-IsI64 _)
      | inr e ↦ rw (e, mod_down) (wrapping_rem-IsI64 a b ha)
    ]

shift-IsI64 : (a b : ℤ) → IsI64 (shift a b)
unfolding shift
shift-IsI64 a (pos n) = ground (arith, of_word-IsI64 (word_64 a * 2 ^ n % 2 ^ 64))
shift-IsI64 a (negsuc n) = ground (arith, of_word-IsI64 (word_64 a / 2 ^ (n + 1)))

on_integers-IsI64 : (kind : Bitwise) (a b : ℤ) → IsI64 (on_integers kind a b)
unfolding on_integers
on_integers-IsI64 and a b = of_word-IsI64 _
on_integers-IsI64 or a b = of_word-IsI64 _
on_integers-IsI64 xor a b = of_word-IsI64 _
on_integers-IsI64 shl a b = shift-IsI64 a b
on_integers-IsI64 shr a b = shift-IsI64 a (wrapping_neg b)

abbrev IsNumber : Num → Type 0
IsNumber (int_num n) = IsI64 n
IsNumber (float_num n) = 0 ≤ 0

on_numbers-IsResult :
    (r : Rounding) (kind : ArithKind) (a b : Num)
    → IsNumber a
    → IsNumber b
    → IsResult (on_numbers r kind a b)
unfolding on_numbers
on_numbers-IsResult r kind (int_num a) (int_num b) ha hb =
    elim kind as (λ k. IsResult (on_numbers r k (int_num a) (int_num b))) [
      | add ↦ wrap-IsI64 _
      | sub ↦ wrap-IsI64 _
      | mul ↦ wrap-IsI64 _
      | div ↦ omega arith
      | i_div ↦ elim (Bool-cases (is_zero b)) [
        | inl e ↦ rw (e, on_numbers) (omega arith)
        | inr e ↦ rw (e, on_numbers) (div_down-IsI64 a b)
      ]
      | modulo ↦ elim (Bool-cases (is_zero b)) [
        | inl e ↦ rw (e, on_numbers) (omega arith)
        | inr e ↦ rw (e, on_numbers) (mod_down-IsI64 a b ha hb)
      ]
      | pow ↦ omega arith
    ]
on_numbers-IsResult r kind (int_num a) (float_num b) ha hb =
    elim kind as (λ k. IsResult (on_numbers r k (int_num a) (float_num b))) [
      | add ↦ omega arith
      | sub ↦ omega arith
      | mul ↦ omega arith
      | div ↦ omega arith
      | i_div ↦ omega arith
      | modulo ↦ omega arith
      | pow ↦ omega arith
    ]
on_numbers-IsResult r kind (float_num a) (int_num b) ha hb =
    elim kind as (λ k. IsResult (on_numbers r k (float_num a) (int_num b))) [
      | add ↦ omega arith
      | sub ↦ omega arith
      | mul ↦ omega arith
      | div ↦ omega arith
      | i_div ↦ omega arith
      | modulo ↦ omega arith
      | pow ↦ omega arith
    ]
on_numbers-IsResult r kind (float_num a) (float_num b) ha hb =
    elim kind as (λ k. IsResult (on_numbers r k (float_num a) (float_num b))) [
      | add ↦ omega arith
      | sub ↦ omega arith
      | mul ↦ omega arith
      | div ↦ omega arith
      | i_div ↦ omega arith
      | modulo ↦ omega arith
      | pow ↦ omega arith
    ]

number-IsNumber : (v : Value) (n : Num) → IsValue v → number v ≡ some n → IsNumber n
unfolding number
number-IsNumber (int m) n h e = let same : int_num m ≡ n = cc e in subst IsNumber same h
number-IsNumber (float m) n h e =
    let same : float_num m ≡ n = cc e in subst IsNumber same (omega arith)
number-IsNumber v n h e = absurd cc

floor-IsI64 : (m : ℕ) → is_whole m && whole m ≡ true → IsI64 (floor m)
unfolding is_whole whole le_float lt_float
floor-IsI64 m h =
    let f = floor m in
    ground (
      arith,
      eq_of_parts (in_units f) (units m),
      in_units-lt f (negsuc (2 ^ 63 - 1)),
      in_units-mono (pos (2 ^ 63)) f,
    )

integer-IsI64 : (v : Value) (n : ℤ) → IsValue v → integer v ≡ some n → IsI64 n
unfolding integer
integer-IsI64 (int m) n h e = let same : m ≡ n = cc e in subst IsI64 same h
integer-IsI64 (float m) n h e = elim (Bool-cases (is_whole m && whole m)) [
  | inl t ↦ let same : floor m ≡ n = ground (arith, e, t) in subst IsI64 same (floor-IsI64 m t)
  | inr t ↦ let absurd : ⊥ = ground (arith, e, t) in elim absurd [ ]
]
integer-IsI64 v n h e = absurd cc

arithmetic-IsResult :
    (r : Rounding) (kind : ArithKind) (left right : Operand)
    → IsValue left.value
    → IsValue right.value
    → IsResult (arithmetic r kind left right)
unfolding arithmetic
arithmetic-IsResult r kind left right h w = elim (Option-cases (number left.value)) [
  | inl e ↦ rw (e, arithmetic) (omega arith)
  | inr (a, e) ↦ elim (Option-cases (number right.value)) [
    | inl f ↦ rw (e, f, arithmetic) (omega arith)
    | inr (b, f) ↦
        rw (e, f, arithmetic)
          (on_numbers-IsResult r kind a b (number-IsNumber left.value a h e)
            (number-IsNumber right.value b w f))
  ]
]

negate-IsResult : (operand : Operand) → IsValue operand.value → IsResult (negate operand)
unfolding negate wrapping_neg
negate-IsResult operand h = elim (Option-cases (number operand.value)) [
  | inl e ↦ rw (e, negate) (omega arith)
  | inr (int_num n, e) ↦ rw (e, negate) (wrap-IsI64 _)
  | inr (float_num n, e) ↦ rw (e, negate) (omega arith)
]

bitwise-IsResult : (kind : Bitwise) (left right : Operand) → IsResult (bitwise kind left right)
unfolding bitwise
bitwise-IsResult kind left right = elim (Option-cases (integer left.value)) [
  | inl e ↦ rw (e, bitwise) (omega arith)
  | inr (a, e) ↦ elim (Option-cases (integer right.value)) [
    | inl f ↦ rw (e, f, bitwise) (omega arith)
    | inr (b, f) ↦ rw (e, f, bitwise) (on_integers-IsI64 kind a b)
  ]
]

complement-IsResult : (operand : Operand) → IsValue operand.value → IsResult (complement operand)
unfolding complement
complement-IsResult operand h = elim (Option-cases (integer operand.value)) [
  | inl e ↦ rw (e, complement) (omega arith)
  | inr (pos n, e) ↦
      let range = integer-IsI64 operand.value (pos n) h e in rw (e, complement) (ground arith)
  | inr (negsuc n, e) ↦
      let range = integer-IsI64 operand.value (negsuc n) h e in rw (e, complement) (ground arith)
]

-- On values whose integers are `i64`s, every arithmetic and bitwise operator ends without a panic,
-- in an error or in a value that is such a value again.
pub operators-IsResult :
    (r : Rounding) (kind : ArithKind) (bits : Bitwise) (left right : Operand)
    → IsValue left.value
    → IsValue right.value
    → IsResult (arithmetic r kind left right)
      × IsResult (negate left)
      × IsResult (bitwise bits left right)
      × IsResult (complement left)
operators-IsResult r kind bits left right h w = (
  arithmetic-IsResult r kind left right h w,
  negate-IsResult left h,
  bitwise-IsResult bits left right,
  complement-IsResult left h,
)
