-- ===== src/Runtime/Loops/Run.antt =====
-- A whole loop with an integer start and step, `prepare` and every `advance` after it.
use ruta.Prelude.{
  ℕ, zero, suc, ◌^◌, ◌≤◌, ◌≡◌, ◌≢◌, refl, sym, subst, arith, if◌then◌else◌, Bool, true, false,
  Option, none, some, Bool-cases, inl, inr, Outcome, ok, ◌>>=◌, List, [],
}
use ruta.Prelude.Int.{ℤ, pos, negsuc, IsI64, ltb_ℤ}
use ruta.Runtime.Float.{Rounding, is_nan, units}
use ruta.Runtime.Value.{Value, int}
use ruta.Runtime.Arith.{Num, int_num, float_num, is_neg, is_zero}
use ruta.Runtime.Arith.Exact.{exact, IsNum}
use ruta.Runtime.Loops.{
  Registers, Message, to_number, integer_limit, float_limit, prepare_integer, prepare, rounds, run,
  trips,
}
use ruta.Runtime.Loops.Counted.{
  Counted, Counted-map, Before, rounds-Counted, trips_lem, trips-lt, at,
}
use ruta.Runtime.Loops.Limit.{Within, IsLimit, integer-IsLimit, float_limit-IsLimit}

-- The values are those that the loop sees, and all of them.
abbrev pub Sees : ℤ → ℤ → ℤ → Outcome Message (List Value) → Type 0
Sees bound step init result =
    (vs : List Value) × (result ≡ ok vs) × Counted (Within bound step) step init vs

-- What `run` does after `prepare`.
abbrev start : ℕ → Rounding → Outcome Message (Bool × Registers) → Outcome Message (List Value)
start fuel r result = result >>= λ (runs, ready). if runs then rounds fuel r ready else ok []

unfoldable is_past : ℤ → ℤ → ℤ → Bool
is_past init limit step = if is_neg step then ltb_ℤ init limit else ltb_ℤ limit init

past_lem : (init l step : ℤ) → is_past init l step ≡ true → ¬ Before l step init
unfolding is_past
past_lem init l (pos s) h = ground arith
past_lem init l (negsuc s) h = ground arith

before_lem : (init l step : ℤ) → IsI64 init → is_past init l step ≡ false → Before l step init
unfolding is_past
before_lem init l (pos s) hi h = ground arith
before_lem init l (negsuc s) hi h = ground arith

is_zero_lem : (step : ℤ) → step ≢ pos 0 → is_zero step ≡ false
is_zero_lem (pos zero) z = elim (z refl) [ ]
is_zero_lem (pos (suc s)) z = refl
is_zero_lem (negsuc s) z = refl

module _ (fuel : ℕ) (r : Rounding) (bound init step : ℤ) (limit var : Value) (hf : 2 ^ 64 ≤ fuel)
    (hi : IsI64 init) (hs : IsI64 step) (z : step ≢ pos 0) where
  abbrev regs : Registers
  regs = record { control = int init; limit = limit; step = int step; var = var }

  prepare_past :
      (l : ℤ)
      → is_past init l step ≡ true
      → start fuel r (prepare_integer init step regs (some l)) ≡ ok []
  unfolding prepare_integer is_past
  prepare_past l e = rw e

  prepare_before :
      (l : ℤ) (vs : List Value)
      → is_past init l step ≡ false
      → rounds fuel r (at init step (trips init l step)) ≡ ok vs
      → start fuel r (prepare_integer init step regs (some l)) ≡ ok vs
  unfolding prepare_integer is_past
  prepare_before l vs e eq = rw (e, eq)

  start-Sees :
      (o : Option ℤ)
      → IsLimit bound step o
      → Sees bound step init (start fuel r (prepare_integer init step regs o))
  unfolding prepare_integer Counted
  start-Sees none h = ([], refl, h init)
  start-Sees (some l) (hl, f, g) = elim (Bool-cases (is_past init l step)) [
    | inl e ↦ ([], prepare_past l e, λ w. past_lem init l step e (g init w))
    | inr e ↦
        let before = before_lem init l step hi e in
        let k = trips init l step in
        let (vs, eq, c) =
          rounds-Counted fuel k r l step init (trips-lt init l step)
            (ground (arith, trips-lt init l step)) hl hi
            (trips_lem l step init hl hi hs z before) in
        (
          vs,
          prepare_before l vs e eq,
          Counted-map (Before l step) (Within bound step) step init vs f g c,
        )
  ]

  -- The limit that `prepare` works with, for a number and its exact value.
  limit-IsLimit :
      (parse : ℕ → Option Num) (number : Num)
      → IsNum number
      → exact number ≡ some bound
      → to_number parse limit ≡ some number
      → (o : Option ℤ) × (integer_limit parse limit step ≡ ok o) × IsLimit bound step o
  unfolding exact integer_limit
  limit-IsLimit parse (int_num l) hn e t = (
    some l,
    rw (integer_limit, t),
    subst (λ u. IsLimit u step (some l)) (cc e) (integer-IsLimit l step hn),
  )
  limit-IsLimit parse (float_num number) hn e t = elim (Bool-cases (is_nan number)) [
    | inl n ↦ let absurd : ⊥ = ground (arith, e, n) in elim absurd [ ]
    | inr n ↦
        let eq : units number ≡ bound = ground (arith, e, n) in
        (
          float_limit number step,
          rw (integer_limit, t),
          subst (λ u. IsLimit u step (float_limit number step)) eq
              (float_limit-IsLimit number step n),
        )
  ]

  prepare_lem :
      (parse : ℕ → Option Num) (o : Option ℤ)
      → integer_limit parse limit step ≡ ok o
      → run fuel parse r regs ≡ start fuel r (prepare_integer init step regs o)
  unfolding run prepare
  prepare_lem parse o e = rw (is_zero_lem step z, e)

-- For an integer start and a non-zero integer step in range, and a limit that reads as a number
-- other than a NaN, a loop that is given 2^64 rounds finishes, and its body sees the start, then each value
-- a step further, as long as that is an `i64` and is not past the exact limit, and no other.
pub run-Counted :
    (fuel : ℕ) (parse : ℕ → Option Num) (r : Rounding) (bound init step : ℤ) (limit var : Value)
    (number : Num)
    → 2 ^ 64 ≤ fuel
    → IsI64 init
    → IsI64 step
    → step ≢ pos 0
    → to_number parse limit ≡ some number
    → IsNum number
    → exact number ≡ some bound
    → Sees bound step init (
        run fuel parse r (record { control = int init; limit = limit; step = int step; var = var }))
run-Counted fuel parse r bound init step limit var number hf hi hs z t hn e =
    let (o, eq, h) =
      limit-IsLimit fuel r bound init step limit var hf hi hs z parse number hn e t in
    subst (Sees bound step init)
      (sym (prepare_lem fuel r bound init step limit var hf hi hs z parse o eq))
      (start-Sees fuel r bound init step limit var hf hi hs z o h)
