-- ===== src/Runtime/Tests.antt =====
-- Runs of the runtime's theorems on concrete values.
use ruta.Prelude.{ok, ◌-◌, ℕ, ◌+◌, ◌^◌, ◌≡◌, refl, arith, Option, none}
use ruta.Prelude.Int.{ℤ, pos, negsuc, of_word, word_64, ◌+ℤ◌, ◌-ℤ◌, ◌*ℤ◌}
use ruta.Runtime.Float.{Rounding, is_nan, units}
use ruta.Runtime.Value.{nil, int, float}
use ruta.Runtime.Arith.Comparison.{Compares, numbers-Compares}
use ruta.Prelude.{List, []}
use ruta.Runtime.Arith.Range.{IsResult, operators-IsResult}
use ruta.Runtime.Arith.{
  modulo, Operand, arithmetic, negate, bitwise, complement, Num, int_num, float_num, floor_div,
  floor_mod, on_integers, shl, shr, order,
}
use ruta.Runtime.Arith.Shift.{shifted, on_integers-shifted}
use ruta.Runtime.Arith.Exact.{exact, exact_order, order-exact}
use ruta.Runtime.Arith.Division.{IsRest, floor_mod-IsRest, floor_div-floor_mod}
use ruta.Runtime.Loops.{to_number, float_limit, run}
use ruta.Runtime.Loops.Limit.{IsLimit, float_limit-IsLimit}
use ruta.Runtime.Loops.Run.{Sees, run-Counted}

-- The bits of 3.5 and of 2^53.
abbrev three_and_half : ℕ
three_and_half = 0x400c000000000000

abbrev two_53 : ℕ
two_53 = 0x4340000000000000

-- 2^53 + 1 is above the float 2^53, though it rounds to it.
order-exact_example :
    order (int_num (pos (2 ^ 53 + 1))) (float_num two_53)
    ≡ exact_order (exact (int_num (pos (2 ^ 53 + 1)))) (exact (float_num two_53))
order-exact_example =
    order-exact (int_num (pos (2 ^ 53 + 1))) (float_num two_53) (omega arith) (omega arith)

on_integers-shifted_example :
    (on_integers shl (negsuc 4) (pos 70) ≡ of_word (2 ^ 63) (shifted (word_64 (negsuc 4)) (pos 70)))
    × (on_integers shr (negsuc 4) (pos 70)
        ≡ of_word (2 ^ 63) (shifted (word_64 (negsuc 4)) (pos 0 -ℤ pos 70)))
on_integers-shifted_example = on_integers-shifted (negsuc 4) (pos 70) (omega arith)

floor_mod-IsRest_example :
    (rest : ℤ) × (floor_mod (negsuc 6) (pos 3) ≡ ok rest) × IsRest rest (pos 3)
floor_mod-IsRest_example =
    floor_mod-IsRest (negsuc 6) (pos 3) (omega arith) (omega arith) (ground arith)

floor_div-floor_mod_example :
    (quot : ℤ) × (rest : ℤ) × (floor_div (negsuc 6) (pos 3) ≡ ok quot)
    × (floor_mod (negsuc 6) (pos 3) ≡ ok rest)
    × (negsuc 6 ≡ pos 3 *ℤ quot +ℤ rest)
floor_div-floor_mod_example =
    floor_div-floor_mod (negsuc 6) (pos 3) (omega arith) (omega arith) (ground arith) (ground arith)

-- Some rounding; an integer loop rounds nothing.
abbrev no_rounding : Rounding
no_rounding = record {
  of_i64 = λ n. 0;
  add = λ a b. a;
  sub = λ a b. a;
  mul = λ a b. a;
  div = λ a b. a;
  rem = λ a b. a;
  powf = λ a b. a;
  round_down = λ a. a;
}

abbrev no_numerals : ℕ → Option Num
no_numerals handle = none

-- `for i = 1, 3.5`
run-Counted_example : Sees (units three_and_half) (pos 1) (pos 1) (
    run (2 ^ 64) no_numerals no_rounding (record {
      control = int (pos 1);
      limit = float three_and_half;
      step = int (pos 1);
      var = nil;
    }))
unfolding to_number exact is_nan
run-Counted_example =
    run-Counted (2 ^ 64) no_numerals no_rounding (units three_and_half) (pos 1) (pos 1)
      (float three_and_half) nil (float_num three_and_half) (omega arith) (omega arith)
      (omega arith) (ground arith) refl (omega arith) refl

float_limit-IsLimit_example :
    IsLimit (units three_and_half) (negsuc 0) (float_limit three_and_half (negsuc 0))
unfolding is_nan
float_limit-IsLimit_example = float_limit-IsLimit three_and_half (negsuc 0) refl

-- The least `i64` in register 0, and 3 in register 1.
abbrev left_operand : Operand
left_operand = record { value = int (negsuc (2 ^ 63 - 1)); reg = 0 }

abbrev right_operand : Operand
right_operand = record { value = int (pos 3); reg = 1 }

operators-IsResult_example :
    IsResult (arithmetic no_rounding modulo left_operand right_operand)
    × IsResult (negate left_operand)
    × IsResult (bitwise shr left_operand right_operand)
    × IsResult (complement left_operand)
operators-IsResult_example =
    operators-IsResult no_rounding modulo shr left_operand right_operand (omega arith) (omega arith)

abbrev no_strings : ℕ → List ℕ
no_strings handle = []

numbers-Compares_example :
    Compares no_strings
      (int_num (pos (2 ^ 53 + 1)))
      (float_num two_53)
      (exact_order (exact (int_num (pos (2 ^ 53 + 1)))) (exact (float_num two_53)))
      (exact_order (exact (float_num two_53)) (exact (int_num (pos (2 ^ 53 + 1)))))
numbers-Compares_example =
    numbers-Compares no_strings (int_num (pos (2 ^ 53 + 1))) (float_num two_53) (omega arith)
      (omega arith)
