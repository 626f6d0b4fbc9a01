-- ===== src/Runtime/Arith/Shift.antt =====
-- Shifts: the cut-offs at 64 places do not change what a shift of the 64-bit word is.
use native.Mathlib.Nat.{pow-suc, one-le-pow, div-eq_of_lt}
use ruta.Prelude.{
  ap, ◌∙◌, ℕ, zero, suc, ◌+◌, ◌-◌, ◌*◌, ◌/◌, ◌%◌, ◌^◌, ◌<◌, ◌≤◌, ◌≡◌, refl, arith, ltb, Bool-cases,
  inl, inr,
}
use ruta.Prelude.Int.{ℤ, pos, negsuc, of_word, word_64, IsI64, wrap, wrap_id, ◌-ℤ◌}
use ruta.Runtime.Arith.{shift, wrapping_neg, on_integers, shl, shr}

-- A word shifted left by a number of places, which may be negative, with no cut-off.
unfoldable pub shifted : ℕ → ℤ → ℕ
shifted word (pos places) = word * 2 ^ places % 2 ^ 64
shifted word (negsuc places) = word / 2 ^ (places + 1)

pow_past : (j : ℕ) → 2 ^ (64 + j) ≡ 2 ^ 64 * 2 ^ j
pow_past zero = refl
pow_past (suc j) =
    let e : 64 + suc j ≡ suc (64 + j) = omega arith in
    ap (λ (n : ℕ). 2 ^ n) e ∙ omega (arith, pow-suc 2 (64 + j), pow_past j, pow-suc 2 j)

pow_above : (k : ℕ) → 64 ≤ k → 2 ^ k ≡ 2 ^ 64 * 2 ^ (k - 64)
pow_above k h =
    let e : k ≡ 64 + (k - 64) = omega arith in ap (λ (n : ℕ). 2 ^ n) e ∙ pow_past (k - 64)

shl_past : (w k : ℕ) → 64 ≤ k → w * 2 ^ k % 2 ^ 64 ≡ 0
shl_past w k h = rw (pow_above k h) (omega arith)

shr_past : (w k : ℕ) → w < 2 ^ 64 → 64 ≤ k → w / 2 ^ k ≡ 0
shr_past w k l h = div-eq_of_lt (omega (arith, pow_above k h, one-le-pow (k - 64) 2 (omega arith)))

word_64-lt : (a : ℤ) → word_64 a < 2 ^ 64
unfolding word_64
word_64-lt (pos n) = omega arith
word_64-lt (negsuc n) = omega arith

shift-shifted :
    (value places : ℤ) → shift value places ≡ of_word (2 ^ 63) (shifted (word_64 value) places)
unfolding shift shifted
shift-shifted value (pos places) = ground (arith, shl_past (word_64 value) places)
shift-shifted value (negsuc places) =
    ground (arith, shr_past (word_64 value) (places + 1), word_64-lt value)

shift_far :
    (value : ℤ) (n : ℕ)
    → 64 ≤ n
    → shift value (negsuc n) ≡ of_word (2 ^ 63) (shifted (word_64 value) (pos (suc n)))
unfolding shift shifted
shift_far value n h = ground (arith, shl_past (word_64 value) (suc n))

shift-neg :
    (a b : ℤ)
    → IsI64 b
    → shift a (wrapping_neg b) ≡ of_word (2 ^ 63) (shifted (word_64 a) (pos 0 -ℤ b))
unfolding wrapping_neg
shift-neg a (pos n) h =
    let e : wrap (pos 0 -ℤ pos n) ≡ pos 0 -ℤ pos n = wrap_id _ (unfold ◌-ℤ◌ in ground arith) in
    rw e (shift-shifted a (pos 0 -ℤ pos n))
shift-neg a (negsuc n) h =
    let e : pos 0 -ℤ negsuc n ≡ pos (suc n) = unfold ◌-ℤ◌ in ground arith in
    rw e (elim (Bool-cases (ltb (suc n) (2 ^ 63))) [
      | inl l ↦ rw (wrap_id (pos (suc n)) (ground arith)) (shift-shifted a (pos (suc n)))
      | inr l ↦
          let f : wrap (pos (suc n)) ≡ negsuc n = unfold wrap in ground arith in
          rw f (shift_far a n (ground arith))
    ])

-- The two shift operators shift the 64-bit word of the left operand with no cut-off: `<<` by the
-- right operand, and `>>` by its negation as an unbounded integer, although the negation in the
-- code wraps at the least integer. The right operand must be an `i64`.
pub on_integers-shifted :
    (a b : ℤ)
    → IsI64 b
    → (on_integers shl a b ≡ of_word (2 ^ 63) (shifted (word_64 a) b))
      × (on_integers shr a b ≡ of_word (2 ^ 63) (shifted (word_64 a) (pos 0 -ℤ b)))
unfolding on_integers
on_integers-shifted a b h = (shift-shifted a b, shift-neg a b h)
