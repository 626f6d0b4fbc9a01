-- ===== src/Runtime/Loops/Limit.antt =====
-- The limit of an integer loop: a float limit becomes the integer that stops the same values.
use ruta.Prelude.{
  ℕ, ◌-◌, ◌^◌, ◌≡◌, sym, arith, false, ◌&&◌, Option, none, some, Bool-cases, inl, inr, subst,
}
use ruta.Prelude.Int.{ℤ, pos, negsuc, IsI64, leb_ℤ, ltb_ℤ, ◌≤ℤ◌, ◌<ℤ◌}
use ruta.Runtime.Float.{is_nan, units, floor, ceil, floor_units, ceil_units, in_units}
use ruta.Runtime.Float.Units.{
  floor_units-le, floor_units-lt, in_units-lt, in_units-mono, ceil_units-le, ceil_units-lt,
}
use ruta.Runtime.Loops.{float_limit}
use ruta.Runtime.Loops.Counted.{Before}

-- An `i64` not past an exact limit in units, seen in the direction of the step.
abbrev pub Within : ℤ → ℤ → ℤ → Type 0
Within bound (pos s) x = IsI64 x × (in_units x ≤ℤ bound)
Within bound (negsuc s) x = IsI64 x × (bound ≤ℤ in_units x)

-- What a limit must be: an `i64` that stops the same values, or none if it stops every value.
abbrev pub IsLimit : ℤ → ℤ → Option ℤ → Type 0
IsLimit bound step none = (x : ℤ) → ¬ Within bound step x
IsLimit bound step (some l) =
    IsI64 l
    × ((x : ℤ) → Before l step x → Within bound step x)
    × ((x : ℤ) → Within bound step x → Before l step x)

-- An integer limit is its own.
pub integer-IsLimit : (l step : ℤ) → IsI64 l → IsLimit (in_units l) step (some l)
integer-IsLimit l (pos s) h =
    (h, (λ x b. ground (arith, in_units-mono x l)), λ x b. ground (arith, in_units-lt l x))
integer-IsLimit l (negsuc s) h =
    (h, (λ x b. ground (arith, in_units-mono l x)), λ x b. ground (arith, in_units-lt x l))

-- The integers within a bound above are those up to its floor.
floor-IsLimit : (u : ℤ) (s : ℕ) → IsI64 (floor_units u) → IsLimit u (pos s) (some (floor_units u))
floor-IsLimit u s h =
    let f = floor_units u in
    (
      h,
      (λ x b. ground (arith, in_units-mono x f, floor_units-le u)),
      λ x b. ground (arith, floor_units-lt x u),
    )

ceil-IsLimit : (u : ℤ) (s : ℕ) → IsI64 (ceil_units u) → IsLimit u (negsuc s) (some (ceil_units u))
ceil-IsLimit u s h =
    let f = ceil_units u in
    (
      h,
      (λ x b. ground (arith, in_units-mono f x, ceil_units-le u)),
      λ x b. ground (arith, ceil_units-lt x u),
    )

-- A bound above every `i64` or below every one.
above-IsLimit :
    (u : ℤ) (s : ℕ) → pos (2 ^ 63) ≤ℤ floor_units u → IsLimit u (pos s) (some (pos (2 ^ 63 - 1)))
above-IsLimit u s h = (
  ground arith,
  (λ x b. ground (arith, in_units-mono x (floor_units u), floor_units-le u)),
  λ x b. ground arith,
)

none-IsLimit : (u : ℤ) (s : ℕ) → floor_units u <ℤ negsuc (2 ^ 63 - 1) → IsLimit u (pos s) none
none-IsLimit u s h = λ x b. ground (arith, floor_units-lt x u)

below-IsLimit :
    (u : ℤ) (s : ℕ)
    → ceil_units u <ℤ negsuc (2 ^ 63 - 1)
    → IsLimit u (negsuc s) (some (negsuc (2 ^ 63 - 1)))
below-IsLimit u s h = (
  ground arith,
  (λ x b. ground (arith, in_units-mono (ceil_units u) x, ceil_units-le u)),
  λ x b. ground arith,
)

past-IsLimit : (u : ℤ) (s : ℕ) → pos (2 ^ 63) ≤ℤ ceil_units u → IsLimit u (negsuc s) none
past-IsLimit u s h = λ x b. ground (arith, ceil_units-lt x u)

-- The sign of a bound is the sign of what lies past the range.
floor-sign : (u : ℤ) → (pos 0 <ℤ floor_units u → pos 0 <ℤ u) × (floor_units u <ℤ pos 0 → u <ℤ pos 0)
unfolding floor_units
floor-sign (pos n) = ground arith
floor-sign (negsuc n) = ground arith

ceil-sign : (u : ℤ) → (pos 0 <ℤ ceil_units u → pos 0 <ℤ u) × (ceil_units u <ℤ pos 0 → u <ℤ pos 0)
unfolding ceil_units
ceil-sign (pos n) = ground arith
ceil-sign (negsuc n) = ground arith

-- For a float that is no NaN, the integer limit that `float_limit` makes of it is an `i64`, and a
-- value of the loop is past the one just when it is past the other; without an integer limit, every
-- `i64` is past the float.
pub float_limit-IsLimit :
    (number : ℕ) (step : ℤ)
    → is_nan number ≡ false
    → IsLimit (units number) step (float_limit number step)
unfolding float_limit floor ceil
float_limit-IsLimit number (pos s) h =
    let u = units number in
    let f = floor_units u in
    elim (Bool-cases (leb_ℤ (negsuc (2 ^ 63 - 1)) f && ltb_ℤ f (pos (2 ^ 63)))) [
      | inl e ↦
          let eq : float_limit number (pos s) ≡ some f = ground arith in
          subst (IsLimit u (pos s)) (sym eq) (floor-IsLimit u s (ground arith))
      | inr e ↦ elim (Bool-cases (ltb_ℤ (pos 0) u)) [
        | inl p ↦
            let eq : float_limit number (pos s) ≡ some (pos (2 ^ 63 - 1)) = ground arith in
            subst (IsLimit u (pos s)) (sym eq) (above-IsLimit u s (ground (arith, floor-sign u)))
        | inr p ↦
            let eq : float_limit number (pos s) ≡ none = ground arith in
            subst (IsLimit u (pos s)) (sym eq) (none-IsLimit u s (ground (arith, floor-sign u)))
      ]
    ]
float_limit-IsLimit number (negsuc s) h =
    let u = units number in
    let f = ceil_units u in
    elim (Bool-cases (leb_ℤ (negsuc (2 ^ 63 - 1)) f && ltb_ℤ f (pos (2 ^ 63)))) [
      | inl e ↦
          let eq : float_limit number (negsuc s) ≡ some f = ground arith in
          subst (IsLimit u (negsuc s)) (sym eq) (ceil-IsLimit u s (ground arith))
      | inr e ↦ elim (Bool-cases (ltb_ℤ (pos 0) u)) [
        | inl p ↦
            let eq : float_limit number (negsuc s) ≡ none = ground arith in
            subst (IsLimit u (negsuc s)) (sym eq) (past-IsLimit u s (ground (arith, ceil-sign u)))
        | inr p ↦
            let eq : float_limit number (negsuc s) ≡ some (negsuc (2 ^ 63 - 1)) = ground arith in
            subst (IsLimit u (negsuc s)) (sym eq) (below-IsLimit u s (ground (arith, ceil-sign u)))
      ]
    ]
