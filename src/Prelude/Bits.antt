-- ===== src/Prelude/Bits.antt =====
-- Masks of low bits, and the operators on bits over small ranges.
use Prim.Native.Nat.{
  ℕ, zero, suc, ◌+◌, ◌-◌, ◌*◌, ◌/◌, ◌%◌, ◌≤◌, ◌<◌, min, bit_and, digits, bit_and-bitwise,
}
use mathlib.Core.Path.{◌≡◌, refl, ◌∙◌, ap, sym}
use mathlib.Core.Bool.{Bool, true, ◌&&◌}
use native.Mathlib.Omega.{arith}

-- A test that holds of every number below a bound, by evaluation.
unfoldable pub holds_below : ℕ → (ℕ → Bool) → Bool
holds_below zero test = true
holds_below (suc n) test = test n && holds_below n test

pub below : (n : ℕ) (test : ℕ → Bool) → holds_below n test ≡ true → (x : ℕ) → x < n → test x ≡ true
unfolding holds_below
below zero test h x lt = absurd (omega arith)
below (suc n) test h x lt = grind (arith, below n test)

-- The bits that two numbers share, of so many bits of the first.
abbrev shared : ℕ → ℕ → ℕ → ℕ
shared fuel a b = digits (λ b. zero) min fuel a b

shared_zero : (fuel b : ℕ) → shared fuel 0 b ≡ 0
shared_zero zero b = refl
shared_zero (suc fuel) b = refl

-- Steps past the bits of the first number change nothing.
shared-enough : (fuel more a b : ℕ) → a ≤ fuel → shared (fuel + more) a b ≡ shared fuel a b
shared-enough fuel more zero b h = shared_zero (fuel + more) b ∙ omega (arith, shared_zero fuel b)
shared-enough zero more (suc a) b h = absurd (omega arith)
shared-enough (suc fuel) more (suc a) b h =
    let deeper : suc fuel + more ≡ suc (fuel + more) = omega arith in
    rw deeper (omega (arith, shared-enough fuel more (suc a / 2) (b / 2) (omega arith)))

-- Bit by bit.
bit_and-halves : (a b : ℕ) → bit_and a b ≡ bit_and (a / 2) (b / 2) * 2 + min (a % 2) (b % 2)
bit_and-halves zero b = omega (arith, bit_and-bitwise 0 b, bit_and-bitwise 0 (b / 2))
bit_and-halves (suc a) b =
    let half = suc a / 2 in
    let all : half + (a - half) ≡ a = omega arith in
    let enough : shared a half (b / 2) ≡ shared half half (b / 2) =
      ap (λ n. shared n half (b / 2)) (sym all)
      ∙ shared-enough half (a - half) half (b / 2) (omega arith) in
    omega (arith, enough, bit_and-bitwise half (b / 2), bit_and-bitwise (suc a) b)

nothing-shared : (fuel a : ℕ) → shared fuel a 0 ≡ 0
nothing-shared zero a = refl
nothing-shared (suc fuel) zero = refl
nothing-shared (suc fuel) (suc a) = omega (arith, nothing-shared fuel (suc a / 2))

bit_and-seven : (a : ℕ) → bit_and a 7 ≡ a % 8
bit_and-seven a = omega (
  arith,
  bit_and-halves a 7,
  bit_and-halves (a / 2) 3,
  bit_and-halves (a / 2 / 2) 1,
  bit_and-bitwise (a / 2 / 2 / 2) 0,
  nothing-shared (a / 2 / 2 / 2) (a / 2 / 2 / 2),
)

pub bit_and_63 : (a : ℕ) → bit_and a 63 ≡ a % 64
bit_and_63 a = omega (
  arith,
  bit_and-halves a 63,
  bit_and-halves (a / 2) 31,
  bit_and-halves (a / 2 / 2) 15,
  bit_and-seven (a / 2 / 2 / 2),
)

-- The powers of two.
abbrev pub doubled : ℕ → ℕ
doubled zero = 1
doubled (suc k) = 2 * doubled k

pub doubled_pos : (k : ℕ) → 1 ≤ doubled k
doubled_pos zero = omega arith
doubled_pos (suc k) = omega (arith, doubled_pos k)

halving : (k : ℕ) → ((2 * doubled k - 1) / 2 ≡ doubled k - 1) × ((2 * doubled k - 1) % 2 ≡ 1)
halving k = (omega (arith, doubled_pos k), omega (arith, doubled_pos k))

bit_and-doubled :
    (k a : ℕ) → bit_and a (2 * doubled k - 1) ≡ bit_and (a / 2) (doubled k - 1) * 2 + a % 2
bit_and-doubled k a = omega (
  arith,
  bit_and-halves a (2 * doubled k - 1),
  ap (λ b. bit_and (a / 2) b) (halving k).0,
  (halving k).1,
)

-- The mask of a power of two leaves a smaller number as it is,
pub bit_and-mask : (k a : ℕ) → a < doubled k → bit_and a (doubled k - 1) ≡ a
bit_and-mask zero a h = omega (arith, bit_and-bitwise a 0, nothing-shared a a)
bit_and-mask (suc k) a h = omega (arith, bit_and-doubled k a, bit_and-mask k (a / 2) (omega arith))

-- takes the power itself to 0,
pub bit_and-wrap : (k : ℕ) → bit_and (doubled k) (doubled k - 1) ≡ 0
bit_and-wrap zero = refl
bit_and-wrap (suc k) =
    let half : 2 * doubled k / 2 ≡ doubled k = omega arith in
    omega (
      arith,
      bit_and-doubled k (2 * doubled k),
      ap (λ b. bit_and b (doubled k - 1)) half,
      bit_and-wrap k,
    )

-- and every number below the power.
pub bit_and-lt : (k a : ℕ) → bit_and a (doubled k - 1) < doubled k
bit_and-lt zero a = omega (arith, bit_and-bitwise a 0, nothing-shared a a)
bit_and-lt (suc k) a = omega (arith, bit_and-doubled k a, bit_and-lt k (a / 2))
