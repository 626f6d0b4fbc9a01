-- ===== src/Prelude/Int.antt =====
-- Signed machine integers: integers over the native numbers, with the casts to and from words.
use Prim.Native.Nat.{compare, Ordering, ◌^◌, ◌%◌, ℕ, suc, ◌+◌, ◌-◌, ◌*◌, ◌≤◌, ◌<◌}
use mathlib.Core.Path.{◌≡◌}
use mathlib.Core.Bool.{true, Bool}
use native.Mathlib.Omega.{arith}
use ruta.Prelude.Tests.{◌==◌, ltb, leb, if◌then◌else◌}

-- `negsuc n` is -(n + 1).
pub data ℤ : Type 0 where
  pos : ℕ → ℤ
  negsuc : ℕ → ℤ

abbrev pub pos_part : ℤ → ℕ
pos_part (pos n) = n
pos_part (negsuc n) = 0

abbrev pub neg_part : ℤ → ℕ
neg_part (pos n) = 0
neg_part (negsuc n) = suc n

-- a - b, as an integer.
abbrev pub sub_ℕ : ℕ → ℕ → ℤ
sub_ℕ a b = if leb b a then pos (a - b) else negsuc (b - a - 1)

abbrev pub ltb_ℤ : ℤ → ℤ → Bool
ltb_ℤ a b = ltb (pos_part a + neg_part b) (pos_part b + neg_part a)

-- The range of a signed word of modulus `2 * half`.
abbrev pub IsSigned : ℕ → ℤ → Type 0
IsSigned half a = (pos_part a < half) × (neg_part a ≤ half)

-- `as u32` and `as u64`: the word of modulus `m` that stands for an integer in range.
abbrev pub to_word : ℕ → ℤ → ℕ
to_word m (pos n) = n
to_word m (negsuc n) = m - 1 - n

-- `as i32` and `as i64`: the integer that a word of modulus `2 * half` stands for.
abbrev pub of_word : ℕ → ℕ → ℤ
of_word half n = if ltb n half then pos n else negsuc (2 * half - 1 - n)

pub of_word-to_word : (half : ℕ) (a : ℤ) → IsSigned half a → of_word half (to_word (2 * half) a) ≡ a
of_word-to_word half (pos n) h = ground arith
of_word-to_word half (negsuc n) h = ground arith

infixl 65 ◌+ℤ◌ ◌-ℤ◌
infixl 70 ◌*ℤ◌
infix 50 ◌≤ℤ◌ ◌<ℤ◌
unfoldable pub ◌+ℤ◌ : ℤ → ℤ → ℤ
a +ℤ b = sub_ℕ (pos_part a + pos_part b) (neg_part a + neg_part b)

unfoldable pub ◌-ℤ◌ : ℤ → ℤ → ℤ
a -ℤ b = sub_ℕ (pos_part a + neg_part b) (neg_part a + pos_part b)

unfoldable pub ◌*ℤ◌ : ℤ → ℤ → ℤ
a *ℤ b =
    sub_ℕ (pos_part a * pos_part b + neg_part a * neg_part b)
      (pos_part a * neg_part b + neg_part a * pos_part b)

abbrev pub ◌≤ℤ◌ : ℤ → ℤ → Type 0
a ≤ℤ b = pos_part a + neg_part b ≤ pos_part b + neg_part a

abbrev pub ◌<ℤ◌ : ℤ → ℤ → Type 0
a <ℤ b = pos_part a + neg_part b < pos_part b + neg_part a

abbrev pub leb_ℤ : ℤ → ℤ → Bool
leb_ℤ a b = leb (pos_part a + neg_part b) (pos_part b + neg_part a)

abbrev pub eqb_ℤ : ℤ → ℤ → Bool
eqb_ℤ a b = (pos_part a + neg_part b) == (pos_part b + neg_part a)

-- `cmp` of two integers.
abbrev pub compare_ℤ : ℤ → ℤ → Ordering
compare_ℤ a b = compare (pos_part a + neg_part b) (pos_part b + neg_part a)

pub eq_of_parts : (a b : ℤ) → pos_part a + neg_part b ≡ pos_part b + neg_part a → a ≡ b
eq_of_parts a b h = ground arith

pub +ℤ_parts :
    (a b : ℤ)
    → pos_part (a +ℤ b) + neg_part a + neg_part b ≡ neg_part (a +ℤ b) + pos_part a + pos_part b
unfolding ◌+ℤ◌
+ℤ_parts a b = ground arith

pub -ℤ_parts :
    (a b : ℤ)
    → pos_part (a -ℤ b) + neg_part a + pos_part b ≡ neg_part (a -ℤ b) + pos_part a + neg_part b
unfolding ◌-ℤ◌
-ℤ_parts a b = ground arith

-- The two's complement word of 64 bits of any integer, and back: what wrapping arithmetic keeps.
unfoldable pub word_64 : ℤ → ℕ
word_64 (pos n) = n % 2 ^ 64
word_64 (negsuc n) = 2 ^ 64 - 1 - n % 2 ^ 64

unfoldable pub wrap : ℤ → ℤ
unfolding word_64
wrap a = of_word (2 ^ 63) (word_64 a)

-- The `i32` that an integer wraps around to.
unfoldable pub wrap_32 : ℤ → ℤ
unfolding word_64
wrap_32 a = of_word (2 ^ 31) (word_64 a % 2 ^ 32)

abbrev pub IsI64 : ℤ → Type 0
IsI64 a = IsSigned (2 ^ 63) a

pub wrap-IsI64 : (a : ℤ) → IsI64 (wrap a)
unfolding wrap
wrap-IsI64 (pos n) = ground arith
wrap-IsI64 (negsuc n) = ground arith

pub wrap_id : (a : ℤ) → IsI64 a → wrap a ≡ a
unfolding wrap
wrap_id (pos n) h = ground arith
wrap_id (negsuc n) h = ground arith

pub eqb_iff : (a b : ℤ) → (eqb_ℤ a b ≡ true → a ≡ b) × (a ≡ b → eqb_ℤ a b ≡ true)
eqb_iff a b = ground (arith, eq_of_parts a b)
