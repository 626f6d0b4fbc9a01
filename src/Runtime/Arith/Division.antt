-- ===== src/Runtime/Arith/Division.antt =====
use mathlib.Core.Path.{ap₂}
use native.Mathlib.Decide.{ℕ_discrete}
-- Floor division and its remainder: `floor_div` and `floor_mod`.
use native.Mathlib.Nat.{div-add-mod, mod-lt, div-le_self, div-lt_self}
use ruta.Prelude.{
  Bool, false, true, not, ◌&&◌, ℕ, zero, suc, ◌+◌, ◌-◌, ◌*◌, ◌/◌, ◌%◌, ◌^◌, ◌<◌, ◌≡◌, ◌≢◌, refl, ap,
  sym, ◌∙◌, arith, if◌then◌else◌, ok,
}
use ruta.Prelude.Int.{ℤ, pos, negsuc, IsI64, wrap_id, ◌+ℤ◌, ◌-ℤ◌, ◌*ℤ◌, ◌≤ℤ◌, ◌<ℤ◌, sub_ℕ}
use ruta.Runtime.Arith.{
  is_zero, is_neg, differ, div_down, mod_down, floor_div, floor_mod, wrapping_div, wrapping_rem,
  quotient,
}

-- The remainder lies between 0 and the divisor, on the divisor's side.
abbrev pub IsRest : ℤ → ℤ → Type 0
IsRest rest (pos b) = (pos 0 ≤ℤ rest) × (rest <ℤ pos b)
IsRest rest (negsuc b) = (rest ≤ℤ pos 0) × (negsuc b <ℤ rest)

mod_down-IsRest : (a b : ℤ) → IsI64 a → IsI64 b → b ≢ pos 0 → IsRest (mod_down a b) b
unfolding mod_down wrapping_rem ◌+ℤ◌
mod_down-IsRest (pos a) (pos b) ha hb h = ground arith
mod_down-IsRest (pos a) (negsuc b) ha hb h = ground arith
mod_down-IsRest (negsuc a) (pos b) ha hb h = ground arith
mod_down-IsRest (negsuc a) (negsuc b) ha hb h = ground arith

is_zero-false : (b : ℤ) → b ≢ pos 0 → is_zero b ≡ false
is_zero-false (pos zero) h = absurd (h refl)
is_zero-false (pos (suc b)) h = refl
is_zero-false (negsuc b) h = refl

floor_div-eq : (a b : ℤ) → is_zero b ≡ false → floor_div a b ≡ ok (div_down a b)
unfolding floor_div
floor_div-eq a b e = rw e refl

floor_mod-eq : (a b : ℤ) → is_zero b ≡ false → floor_mod a b ≡ ok (mod_down a b)
unfolding floor_mod
floor_mod-eq a b e = rw e refl

-- For two `i64`s and a divisor other than 0, `floor_mod` answers without a panic, and its answer lies
-- from 0 on, below a positive divisor, or up to 0, above a negative one.
pub floor_mod-IsRest :
    (a b : ℤ)
    → IsI64 a
    → IsI64 b
    → b ≢ pos 0
    → (rest : ℤ) × (floor_mod a b ≡ ok rest) × IsRest rest b
floor_mod-IsRest a b ha hb h =
    (mod_down a b, floor_mod-eq a b (is_zero-false b h), mod_down-IsRest a b ha hb h)

-- The one quotient of two `i64`s that is no `i64`.
abbrev pub Overflows : ℤ → ℤ → Type 0
Overflows a b = (a ≡ negsuc (2 ^ 63 - 1)) × (b ≡ negsuc 0)

quotient-IsI64 : (a b : ℤ) → IsI64 a → IsI64 b → b ≢ pos 0 → ¬ Overflows a b → IsI64 (quotient a b)
unfolding quotient
quotient-IsI64 (pos a) (pos b) ha hb z o = ground (arith, div-le_self a b)
quotient-IsI64 (pos a) (negsuc b) ha hb z o = ground (arith, div-le_self a (b + 1))
quotient-IsI64 (negsuc a) (pos b) ha hb z o = ground (arith, div-le_self (a + 1) b)
quotient-IsI64 (negsuc a) (negsuc zero) ha hb z o = elim (ℕ_discrete a (2 ^ 63 - 1)) [
  | yes e ↦ elim (o (ap negsuc e, refl)) [ ]
  | no n ↦ ground arith
]
quotient-IsI64 (negsuc a) (negsuc (suc b)) ha hb z o =
    ground (arith, div-lt_self {n = a + 1} {k = b + 2})

-- A truncated quotient by an integer other than 0 and its remainder make up the dividend.
quotient_lem : (a b : ℤ) → b ≢ pos 0 → a ≡ b *ℤ quotient a b +ℤ wrapping_rem a b
unfolding quotient wrapping_rem ◌*ℤ◌ ◌+ℤ◌
quotient_lem (pos a) (pos b) z = ground (arith, div-add-mod a b)
quotient_lem (pos a) (negsuc b) z = ground (arith, div-add-mod a (b + 1))
quotient_lem (negsuc a) (pos b) z = ground (arith, div-add-mod (a + 1) b)
quotient_lem (negsuc a) (negsuc b) z = ground (arith, div-add-mod (a + 1) (b + 1))

-- `floor_div` and `floor_mod` without their wrap-around.
unfoldable floored : ℤ → ℤ → ℤ
unfolding ◌-ℤ◌
floored a b =
    if not (is_zero (wrapping_rem a b)) && differ (is_neg a) (is_neg b)
    then quotient a b -ℤ pos 1
    else quotient a b

unfoldable rest : ℤ → ℤ → ℤ
unfolding ◌+ℤ◌ wrapping_rem
rest a b =
    if not (is_zero (wrapping_rem a b)) && differ (is_neg (wrapping_rem a b)) (is_neg b)
    then wrapping_rem a b +ℤ b
    else wrapping_rem a b

pred-IsI64 :
    (a b : ℤ)
    → IsI64 a
    → IsI64 b
    → b ≢ pos 0
    → not (is_zero (wrapping_rem a b)) && differ (is_neg a) (is_neg b) ≡ true
    → IsI64 (quotient a b -ℤ pos 1)
unfolding quotient wrapping_rem ◌-ℤ◌
pred-IsI64 (pos a) (pos b) ha hb z h = ground arith
pred-IsI64 (pos a) (negsuc b) ha hb z h = ground (arith, div-le_self a (b + 1))
pred-IsI64 (negsuc a) (pos zero) ha hb z h = ground arith
pred-IsI64 (negsuc a) (pos (suc zero)) ha hb z h = ground arith
pred-IsI64 (negsuc a) (pos (suc (suc b))) ha hb z h =
    ground (arith, div-lt_self {n = a + 1} {k = b + 2})
pred-IsI64 (negsuc a) (negsuc b) ha hb z h = ground arith

div_down_lem :
    (a b : ℤ) → IsI64 a → IsI64 b → b ≢ pos 0 → ¬ Overflows a b → div_down a b ≡ floored a b
unfolding div_down floored wrapping_div
div_down_lem a b ha hb z o = ground (
  arith,
  wrap_id (quotient a b) (quotient-IsI64 a b ha hb z o),
  pred-IsI64 a b ha hb z,
  wrap_id (quotient a b -ℤ pos 1),
)

mod_down_lem : (a b : ℤ) → IsI64 a → IsI64 b → b ≢ pos 0 → mod_down a b ≡ rest a b
unfolding mod_down rest wrapping_rem ◌+ℤ◌
mod_down_lem (pos a) (pos b) ha hb z = ground arith
mod_down_lem (pos a) (negsuc b) ha hb z = ground arith
mod_down_lem (negsuc a) (pos b) ha hb z = ground arith
mod_down_lem (negsuc a) (negsuc b) ha hb z = ground arith

-- The dividend that a truncated quotient and its rest stand for, both of them adjusted.
unfoldable adjusted : Bool → ℤ → ℤ → ℤ → ℤ
unfolding ◌*ℤ◌ ◌+ℤ◌ ◌-ℤ◌
adjusted sign b q r =
    b *ℤ (if not (is_zero r) && differ sign (is_neg b) then q -ℤ pos 1 else q)
    +ℤ (if not (is_zero r) && differ (is_neg r) (is_neg b) then r +ℤ b else r)

sub_zero : (n : ℕ) → sub_ℕ 0 (suc n) ≡ negsuc n
sub_zero n = ground arith

below_pos :
    (a b q r : ℕ)
    → (b + 1) * q + r ≡ a
    → r < b + 1
    → pos a ≡ adjusted false (negsuc b) (sub_ℕ 0 q) (pos r)
unfolding adjusted
below_pos a b zero zero h l = ground arith
below_pos a b (suc q) zero h l = ground arith
below_pos a b zero (suc r) h l = ground arith
below_pos a b (suc q) (suc r) h l =
    let left : pos (suc r) +ℤ negsuc b ≡ negsuc (b - suc r) = ground arith in
    let sum : pos a ≡ negsuc b *ℤ negsuc (q + 1) +ℤ negsuc (b - suc r) = ground arith in
    let quot : negsuc q -ℤ pos 1 ≡ negsuc (q + 1) = ground arith in
    sum
    ∙ ap₂ (λ x y. negsuc b *ℤ x +ℤ y) (sym quot) (sym left)
    ∙ ap (λ x. adjusted false (negsuc b) x (pos (suc r))) (sym (sub_zero q))

below_neg :
    (a b q r : ℕ)
    → b * q + r ≡ a + 1
    → r < b
    → negsuc a ≡ adjusted true (pos b) (sub_ℕ 0 q) (sub_ℕ 0 r)
unfolding adjusted
below_neg a b zero zero h l = ground arith
below_neg a b (suc q) zero h l = ground arith
below_neg a b zero (suc r) h l = ground arith
below_neg a b (suc q) (suc r) h l =
    let left : negsuc r +ℤ pos b ≡ pos (b - suc r) = ground arith in
    let sum : negsuc a ≡ pos b *ℤ negsuc (q + 1) +ℤ pos (b - suc r) = ground arith in
    let quot : negsuc q -ℤ pos 1 ≡ negsuc (q + 1) = ground arith in
    sum
    ∙ ap₂ (λ x y. pos b *ℤ x +ℤ y) (sym quot) (sym left)
    ∙ ap₂ (λ x y. adjusted true (pos b) x y) (sym (sub_zero q)) (sym (sub_zero r))

floored_lem : (a b : ℤ) → b ≢ pos 0 → a ≡ b *ℤ floored a b +ℤ rest a b
unfolding floored rest adjusted quotient wrapping_rem ◌*ℤ◌ ◌+ℤ◌ ◌-ℤ◌
floored_lem (pos a) (pos b) z = ground (arith, div-add-mod a b)
floored_lem (pos a) (negsuc b) z =
    below_pos a b (a / (b + 1)) (a % (b + 1)) (div-add-mod a (b + 1))
      (ground (arith, mod-lt a {m = b + 1}))
floored_lem (negsuc a) (pos b) z =
    below_neg a b ((a + 1) / b) ((a + 1) % b) (div-add-mod (a + 1) b) (ground (arith, z))
floored_lem (negsuc a) (negsuc b) z = ground (arith, div-add-mod (a + 1) (b + 1))

-- For two `i64`s other than a dividend of -2^63 with the divisor -1, and a divisor other than 0,
-- `floor_div` and `floor_mod` answer without a panic, and the divisor times the first plus the second
-- is the dividend.
pub floor_div-floor_mod :
    (a b : ℤ)
    → IsI64 a
    → IsI64 b
    → b ≢ pos 0
    → ¬ Overflows a b
    → (quot : ℤ) × (rest : ℤ) × (floor_div a b ≡ ok quot)
      × (floor_mod a b ≡ ok rest)
      × (a ≡ b *ℤ quot +ℤ rest)
floor_div-floor_mod a b ha hb z o = (
  div_down a b,
  mod_down a b,
  floor_div-eq a b (is_zero-false b z),
  floor_mod-eq a b (is_zero-false b z),
  cc (div_down_lem a b ha hb z o, mod_down_lem a b ha hb z, floored_lem a b z),
)
