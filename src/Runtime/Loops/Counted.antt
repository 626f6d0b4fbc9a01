-- ===== src/Runtime/Loops/Counted.antt =====
-- A loop on integers sees the values that unbounded integers would give it, up to its limit.
use native.Mathlib.Nat.{div-add-mod, mod-lt, div-le_self}
use ruta.Prelude.{
  ℕ, zero, suc, ◌+◌, ◌-◌, ◌*◌, ◌/◌, ◌%◌, ◌^◌, ◌<◌, ◌≤◌, ◌≡◌, ◌≢◌, refl, sym, subst, arith, true,
  false, ok, List, [], ◌∷◌,
}
use ruta.Prelude.Int.{
  ℤ, pos, negsuc, pos_part, neg_part, IsI64, wrap, wrap_id, ◌+ℤ◌, ◌-ℤ◌, ◌≤ℤ◌, +ℤ_parts, word_64,
  of_word,
}
use ruta.Runtime.Float.{Rounding}
use ruta.Runtime.Value.{Value, int}
use ruta.Runtime.Arith.{is_zero}
use ruta.Runtime.Loops.{Registers, advance, rounds, trips}

-- The values of a loop whose variable starts at `x`, steps by `step` and lasts while `P` holds.
unfoldable pub Counted : (ℤ → Type 0) → ℤ → ℤ → List Value → Type 0
Counted P step x [] = ¬ P x
Counted P step x (v ∷ vs) = P x × (v ≡ int x) × Counted P step (x +ℤ step) vs

pub Counted-map :
    (P Q : ℤ → Type 0) (step x : ℤ) (vs : List Value)
    → ((y : ℤ) → P y → Q y)
    → ((y : ℤ) → Q y → P y)
    → Counted P step x vs
    → Counted Q step x vs
unfolding Counted
Counted-map P Q step x [] f g c = λ q. c (g x q)
Counted-map P Q step x (v ∷ vs) f g (p, e, c) =
    (f x p, e, Counted-map P Q step (x +ℤ step) vs f g c)

-- Not past an integer limit, seen in the direction of the step.
abbrev pub Before : ℤ → ℤ → ℤ → Type 0
Before limit (pos s) x = IsI64 x × (x ≤ℤ limit)
Before limit (negsuc s) x = IsI64 x × (limit ≤ℤ x)

-- From `x` the limit is `k` whole steps away, and no more.
abbrev Reaches : ℤ → ℤ → ℕ → ℤ → Type 0
Reaches l (pos s) k x =
    (pos_part x + neg_part l + k * s ≤ pos_part l + neg_part x)
    × (pos_part l + neg_part x < pos_part x + neg_part l + k * s + s)
Reaches l (negsuc s) k x =
    (pos_part l + neg_part x + k * (s + 1) ≤ pos_part x + neg_part l)
    × (pos_part x + neg_part l < pos_part l + neg_part x + k * (s + 1) + (s + 1))

Reaches-Before : (l step x : ℤ) (k : ℕ) → IsI64 x → Reaches l step k x → Before l step x
Reaches-Before l (pos s) x k h w = ground arith
Reaches-Before l (negsuc s) x k h w = ground arith

Reaches-IsI64 :
    (l step x : ℤ) (k : ℕ) → IsI64 l → IsI64 x → Reaches l step (suc k) x → IsI64 (x +ℤ step)
Reaches-IsI64 l (pos s) x k hl hx w = ground (arith, +ℤ_parts x (pos s))
Reaches-IsI64 l (negsuc s) x k hl hx w = ground (arith, +ℤ_parts x (negsuc s))

Reaches-suc : (l step x : ℤ) (k : ℕ) → Reaches l step (suc k) x → Reaches l step k (x +ℤ step)
Reaches-suc l (pos s) x k w = ground (arith, +ℤ_parts x (pos s))
Reaches-suc l (negsuc s) x k w = ground (arith, +ℤ_parts x (negsuc s))

Reaches-zero : (l step x : ℤ) → Reaches l step 0 x → ¬ Before l step (x +ℤ step)
Reaches-zero l (pos s) x w = ground (arith, +ℤ_parts x (pos s))
Reaches-zero l (negsuc s) x w = ground (arith, +ℤ_parts x (negsuc s))

-- The registers of an integer loop with `k` rounds left.
abbrev pub at : ℤ → ℤ → ℕ → Registers
at x step k = record {
  control = int x;
  limit = int (of_word (2 ^ 63) k);
  step = int step;
  var = int x;
}

left_suc : (k : ℕ) → suc k < 2 ^ 64 → is_zero (of_word (2 ^ 63) (suc k)) ≡ false
left_suc k h = ground arith

wrap_left : (k : ℕ) → suc k < 2 ^ 64 → wrap (of_word (2 ^ 63) (suc k) -ℤ pos 1) ≡ of_word (2 ^ 63) k
unfolding wrap ◌-ℤ◌
wrap_left k h = ground arith

advance-suc :
    (r : Rounding) (x step : ℤ) (k : ℕ)
    → suc k < 2 ^ 64
    → IsI64 (x +ℤ step)
    → advance r (at x step (suc k)) ≡ ok (true, at (x +ℤ step) step k)
unfolding advance
advance-suc r x step k h w = rw (left_suc k h, wrap_id (x +ℤ step) w, wrap_left k h)

rounds-suc :
    (fuel : ℕ) (r : Rounding) (now next : Registers) (vs : List Value)
    → advance r now ≡ ok (true, next)
    → rounds fuel r next ≡ ok vs
    → rounds (suc fuel) r now ≡ ok (now.var ∷ vs)
unfolding rounds
rounds-suc fuel r now next vs h e = rw (h, e, rounds)

pub rounds-Counted :
    (fuel k : ℕ) (r : Rounding) (l step x : ℤ)
    → k < 2 ^ 64
    → k < fuel
    → IsI64 l
    → IsI64 x
    → Reaches l step k x
    → (vs : List Value) × (rounds fuel r (at x step k) ≡ ok vs) × Counted (Before l step) step x vs
unfolding rounds Counted
rounds-Counted zero k r l step x h f hl hx w = let none_left : ⊥ = omega arith in elim none_left [ ]
rounds-Counted (suc fuel) zero r l step x h f hl hx w =
    (int x ∷ [], refl, (Reaches-Before l step x 0 hx w, refl, Reaches-zero l step x w))
rounds-Counted (suc fuel) (suc k) r l step x h f hl hx w =
    let inside = Reaches-IsI64 l step x k hl hx w in
    let (vs, e, c) =
      rounds-Counted fuel k r l step (x +ℤ step) (omega arith) (omega arith) hl inside
        (Reaches-suc l step x k w) in
    (
      int x ∷ vs,
      rounds-suc fuel r (at x step (suc k)) (at (x +ℤ step) step k) vs
          (advance-suc r x step k h inside) e,
      (Reaches-Before l step x (suc k) hx w, refl, c),
    )

-- Casts to `u64` and a wrapping difference give the distance of two integers in order.
unfoldable distance : ℤ → ℤ → ℕ
distance l x = (word_64 l + 2 ^ 64 - word_64 x) % 2 ^ 64

distance_lem :
    (l x : ℤ)
    → IsI64 l
    → IsI64 x
    → x ≤ℤ l
    → pos_part x + neg_part l + distance l x ≡ pos_part l + neg_part x
unfolding distance word_64
distance_lem (pos l) (pos x) hl hx h = ground arith
distance_lem (pos l) (negsuc x) hl hx h = ground arith
distance_lem (negsuc l) (pos x) hl hx h = ground arith
distance_lem (negsuc l) (negsuc x) hl hx h = ground arith

word_pos : (s : ℕ) → IsI64 (pos s) → word_64 (pos s) ≡ s
unfolding word_64
word_pos s h = ground arith

word_neg : (s : ℕ) → IsI64 (negsuc s) → (2 ^ 64 - word_64 (negsuc s)) % 2 ^ 64 ≡ suc s
unfolding word_64
word_neg s h = ground arith

-- The number of rounds that `prepare` computes.
pub trips_lem :
    (l step x : ℤ)
    → IsI64 l
    → IsI64 x
    → IsI64 step
    → step ≢ pos 0
    → Before l step x
    → Reaches l step (trips x l step) x
unfolding trips distance
trips_lem l (pos zero) x hl hx hs z b = elim (z refl) [ ]
trips_lem l (pos (suc s)) x hl hx hs z b =
    let d = distance l x in
    let size : word_64 (pos (suc s)) ≡ suc s = word_pos (suc s) hs in
    let fits : Reaches l (pos (suc s)) (d / suc s) x =
      ground (arith, distance_lem l x, div-add-mod d (suc s), mod-lt d {m = suc s}) in
    subst (λ (n : ℕ). Reaches l (pos (suc s)) (d / n) x) (sym size) fits
trips_lem l (negsuc s) x hl hx hs z b =
    let d = distance x l in
    let fits : Reaches l (negsuc s) (d / suc s) x =
      ground (arith, distance_lem x l, div-add-mod d (suc s), mod-lt d {m = suc s}) in
    subst (λ (n : ℕ). Reaches l (negsuc s) (d / n) x) (sym (word_neg s hs)) fits

pub trips-lt : (x l step : ℤ) → trips x l step < 2 ^ 64
unfolding trips
trips-lt x l (pos s) =
    let d = (word_64 l + 2 ^ 64 - word_64 x) % 2 ^ 64 in
    ground (arith, div-le_self d (word_64 (pos s)))
trips-lt x l (negsuc s) =
    let d = (word_64 x + 2 ^ 64 - word_64 l) % 2 ^ 64 in
    ground (arith, div-le_self d ((2 ^ 64 - word_64 (negsuc s)) % 2 ^ 64))
