-- ===== src/Runtime/Loops.antt =====
-- The counted `for`: crates/ruta-runtime/src/vm/loops.rs, and `to_number` of vm/state.rs.
-- The four registers from `control` on are a record. What a string reads as is the argument
-- `parse`, which stands for the reader of numerals in ruta-syntax; a failure is its message.
pub mod Limit
pub mod Counted
pub mod Run
use Prim.Native.Nat.{Ordering}
use Prim.Native.String.{String}
use ruta.Prelude.{
  ℕ, zero, suc, ◌+◌, ◌-◌, ◌/◌, ◌%◌, ◌^◌, Bool, true, false, ◌&&◌, ◌||◌, not, ltb, leb, ◌==◌,
  if◌then◌else◌, Option, none, some, Outcome, ok, err, panic, ◌>>=◌, List, [], ◌∷◌,
}
use ruta.Prelude.Int.{
  ℤ, pos, negsuc, pos_part, neg_part, of_word, ltb_ℤ, leb_ℤ, eqb_ℤ, word_64, wrap, ◌+ℤ◌, ◌-ℤ◌,
}
use ruta.Runtime.Float.{Rounding, is_nan, units, floor, ceil, partial_cmp}
use ruta.Runtime.Arith.{Num, int_num, float_num, is_neg, is_zero, float_of}
use ruta.Runtime.Value.{Value, int, float, str}

-- The registers `control`, `control + 1`, `control + 2` and `control + 3`.
pub record Registers : Type 0 where
  pub control : Value
  pub limit : Value
  pub step : Value
  pub var : Value

pub data Message : Type 0 where
  step_is_zero : Message
  not_a_number : String → Value → Message

-- `to_number`
unfoldable pub to_number : (ℕ → Option Num) → Value → Option Num
to_number parse (int n) = some (int_num n)
to_number parse (float n) = some (float_num n)
to_number parse (str handle) = parse handle
to_number parse _ = none

-- `integer_limit`, the part on a float.
unfoldable pub float_limit : ℕ → ℤ → Option ℤ
float_limit number step =
    let rounded = if is_neg step then ceil number else floor number in
    if not (is_nan number) && leb_ℤ (negsuc (2 ^ 63 - 1)) rounded && ltb_ℤ rounded (pos (2 ^ 63))
    then some rounded
    else if not (is_nan number) && ltb_ℤ (pos 0) (units number)
    then (if is_neg step then none else some (pos (2 ^ 63 - 1)))
    else (if is_neg step then some (negsuc (2 ^ 63 - 1)) else none)

unfoldable pub integer_limit : (ℕ → Option Num) → Value → ℤ → Outcome Message (Option ℤ)
unfolding to_number float_limit
integer_limit parse limit step = elim (to_number parse limit) [
  | some (int_num number) ↦ ok (some number)
  | some (float_num number) ↦ ok (float_limit number step)
  | none ↦ err (not_a_number "limit" limit)
]

-- `float`
unfoldable pub as_float : (ℕ → Option Num) → Rounding → Value → String → Outcome Message ℕ
unfolding to_number float_of
as_float parse r value what = elim (to_number parse value) [
  | some number ↦ ok (float_of r number)
  | none ↦ err (not_a_number what value)
]

-- How many times the body runs after the first: differences and quotients of `u64`s.
unfoldable pub trips : ℤ → ℤ → ℤ → ℕ
unfolding word_64
trips init limit step =
    if is_neg step
    then (word_64 init + 2 ^ 64 - word_64 limit) % 2 ^ 64 / ((2 ^ 64 - word_64 step) % 2 ^ 64)
    else (word_64 limit + 2 ^ 64 - word_64 init) % 2 ^ 64 / word_64 step

-- `prepare`, where `init` and `step` are integers and the step is not 0.
unfoldable pub prepare_integer : ℤ → ℤ → Registers → Option ℤ → Outcome Message (Bool × Registers)
unfolding trips
prepare_integer init step at none = ok (false, at)
prepare_integer init step at (some limit) =
    if (if is_neg step then ltb_ℤ init limit else ltb_ℤ limit init)
    then ok (false, at)
    else ok
        (true, record at { limit = int (of_word (2 ^ 63) (trips init limit step)); var = int init })

-- `<=` of two floats.
unfoldable pub float_le : ℕ → ℕ → Bool
unfolding partial_cmp
float_le a b = elim (partial_cmp a b) [
  | some Ordering.lt ↦ true
  | some Ordering.eq ↦ true
  | _ ↦ false
]

unfoldable pub is_positive : ℕ → Bool
is_positive number = not (is_nan number) && ltb_ℤ (pos 0) (units number)

-- `prepare`, where `init` or `step` is no integer.
unfoldable pub prepare_float :
    (ℕ → Option Num) → Rounding → Registers → Outcome Message (Bool × Registers)
unfolding as_float float_le is_positive
prepare_float parse r at = as_float parse r at.limit "limit" >>= λ limit.
    as_float parse r at.step "step" >>= λ step.
    as_float parse r at.control "initial value" >>= λ init.
    if not (is_nan step) && eqb_ℤ (units step) (pos 0)
    then err step_is_zero
    else if (if is_positive step then float_le init limit else float_le limit init)
    then ok (
      true,
      record { control = float init; limit = float limit; step = float step; var = float init },
    )
    else ok (false, at)

-- `prepare`: whether the body runs at all, and the registers.
unfoldable pub prepare :
    (ℕ → Option Num) → Rounding → Registers → Outcome Message (Bool × Registers)
unfolding integer_limit prepare_integer prepare_float
prepare parse r at = elim at.control [
  | int init ↦ elim at.step [
    | int step ↦
        if is_zero step
        then err step_is_zero
        else integer_limit parse at.limit step >>= λ limit. prepare_integer init step at limit
    | _ ↦ prepare_float parse r at
  ]
  | _ ↦ prepare_float parse r at
]

-- `advance`: whether the body runs again, and the registers; registers never prepared panic.
unfoldable pub advance : Rounding → Registers → Outcome Message (Bool × Registers)
unfolding wrap ◌+ℤ◌ ◌-ℤ◌ is_positive float_le
advance r at = elim at.control [
  | int index ↦ elim at.limit [
    | int left ↦ elim at.step [
      | int step ↦
          let next = wrap (index +ℤ step) in
          if is_zero left
          then ok (false, at)
          else ok (
            true,
            record at { control = int next; limit = int (wrap (left -ℤ pos 1)); var = int next },
          )
      | _ ↦ panic
    ]
    | _ ↦ panic
  ]
  | float index ↦ elim at.limit [
    | float limit ↦ elim at.step [
      | float step ↦
          let next = r.add index step in
          if (if is_positive step then float_le next limit else float_le limit next)
          then ok (true, record at { control = float next; var = float next })
          else ok (false, at)
      | _ ↦ panic
    ]
    | _ ↦ panic
  ]
  | _ ↦ panic
]

-- A whole loop: the values that the body sees in its variable, `fuel` of them at most.
unfoldable pub rounds : ℕ → Rounding → Registers → Outcome Message (List Value)
unfolding advance
rounds zero r at = ok []
rounds (suc fuel) r at = elim (advance r at) [
  | ok (true, next) ↦ rounds fuel r next >>= λ later. ok (at.var ∷ later)
  | ok (false, next) ↦ ok (at.var ∷ [])
  | err e ↦ err e
  | panic ↦ panic
]

unfoldable pub run : ℕ → (ℕ → Option Num) → Rounding → Registers → Outcome Message (List Value)
unfolding prepare rounds
run fuel parse r at =
    prepare parse r at >>= λ (runs, ready). if runs then rounds fuel r ready else ok []
