-- ===== src/Syntax/Lexer/Safety/Ensures.antt =====
-- What a scanner ensures where it succeeds, and that it does not panic.
use ruta.Prelude.{
  ℕ, suc, ◌+◌, ◌≤◌, ◌<◌, ◌≡◌, refl, ◌∙◌, ap, sym, ◌==◌, length-append, arith, Bool, true, false,
  Bool-cases, Option-cases, inl, inr, some, List, [], ◌∷◌, length, get_elem?-some, Outcome, ok, err,
  panic, ◌>>=◌,
}
use ruta.Syntax.Text.{as_u32}
use ruta.Syntax.Error.{Error}
use ruta.Syntax.Token.{Token}
use ruta.Syntax.Lexer.Cursor.{Lexer, skip, left, peek, holds, eat, newline, save_and_next}
use ruta.Syntax.LineIndex.{is_pair}

abbrev pub Ensures : {A : Type 0} → (A → Type 0) → Outcome Error A → Type 0
Ensures P (ok a) = P a
Ensures P (err e) = Unit
Ensures P panic = ⊥

pub Ensures-bind :
    {A B : Type 0} (P : A → Type 0) (Q : B → Type 0) (o : Outcome Error A) (f : A → Outcome Error B)
    → Ensures P o
    → ((a : A) → P a → Ensures Q (f a))
    → Ensures Q (o >>= f)
Ensures-bind P Q (ok a) f h g = g a h
Ensures-bind P Q (err e) f h g = h
Ensures-bind P Q panic f h g = h

pub Ensures-map :
    {A : Type 0} (P Q : A → Type 0) (o : Outcome Error A)
    → Ensures P o
    → ((a : A) → P a → Q a)
    → Ensures Q o
Ensures-map P Q (ok a) h g = g a h
Ensures-map P Q (err e) h g = h
Ensures-map P Q panic h g = h

-- The cursor of the second lexer is at or after the first's, in the same source.
abbrev pub Ahead : Lexer → Lexer → Type 0
Ahead l m = (m.source ≡ l.source) × (l.pos ≤ m.pos) × (m.pos ≤ length m.source)

-- It is after it.
abbrev pub Past : Lexer → Lexer → Type 0
Past l m = (m.source ≡ l.source) × (l.pos < m.pos) × (m.pos ≤ length m.source)

-- A token from `start` to the cursor, which moved.
abbrev pub Spans : Lexer → ℕ → Token × Lexer → Type 0
Spans l start r = Past l r.1 × (r.0.span.start ≡ as_u32 start) × (r.0.span.end ≡ as_u32 r.1.pos)

pub Ahead-trans : (l m n : Lexer) → Ahead l m → Ahead m n → Ahead l n
Ahead-trans l m n (p, q, r) (s, t, u) = (s ∙ p, omega arith, u)

pub Past-trans : (l m n : Lexer) → Past l m → Ahead m n → Past l n
Past-trans l m n (p, q, r) (s, t, u) = (s ∙ p, omega arith, u)

pub Ahead-Past : (l m n : Lexer) → Ahead l m → Past m n → Past l n
Ahead-Past l m n (p, q, r) (s, t, u) = (s ∙ p, omega arith, u)

-- Fuel for the lexer before is fuel for the one after.
pub left-Past : (l m : Lexer) (fuel : ℕ) → Past l m → left l < suc fuel → left m < fuel
left-Past l m fuel (p, q, r) h = omega (arith, ap (λ (s : List ℕ). length s) p)

pub left-Ahead : (l m : Lexer) (fuel : ℕ) → Ahead l m → left l < fuel → left m < fuel
left-Ahead l m fuel (p, q, r) h = omega (arith, ap (λ (s : List ℕ). length s) p)

pub peek-lt : (l : Lexer) (byte : ℕ) → peek l ≡ some byte → l.pos < length l.source
unfolding peek
peek-lt l byte h = get_elem?-some l.source l.pos byte h

pub holds-peek :
    (l : Lexer) (test : ℕ → Bool) → holds test (peek l) ≡ true → (byte : ℕ) × (peek l ≡ some byte)
holds-peek l test h = elim (Option-cases (peek l)) [
  | inl e ↦ let f : false ≡ true = ap (λ o. holds test o) (sym e) ∙ h in let g : ⊥ = cc in absurd g
  | inr (byte, e) ↦ (byte, e)
]

pub holds-lt : (l : Lexer) (test : ℕ → Bool) → holds test (peek l) ≡ true → l.pos < length l.source
holds-lt l test h = let (byte, e) = holds-peek l test h in peek-lt l byte e

pub skip-Past : (l : Lexer) (byte : ℕ) → peek l ≡ some byte → Past l (skip l 1)
skip-Past l byte h = (refl, omega arith, omega (arith, peek-lt l byte h))

pub skip-holds : (l : Lexer) (test : ℕ → Bool) → holds test (peek l) ≡ true → Past l (skip l 1)
skip-holds l test h = (refl, omega arith, omega (arith, holds-lt l test h))

pub eat-Ahead : (l : Lexer) (byte : ℕ) → l.pos ≤ length l.source → Ahead l (eat l byte).1
unfolding eat
eat-Ahead l byte h = elim (Bool-cases (holds (λ b. b == byte) (peek l))) [
  | inl e ↦ rw (e, eat) (refl, omega arith, omega (arith, holds-lt l (λ b. b == byte) e))
  | inr e ↦ rw (e, eat) (refl, omega arith, h)
]

pub newline-Past : (l : Lexer) (byte : ℕ) → peek l ≡ some byte → Ensures (Past l) (newline l)
unfolding newline
newline-Past l byte h = elim (Bool-cases (holds (is_pair byte) (peek (skip l 1)))) [
  | inl e ↦
      rw (h, e, newline) (refl, omega arith, omega (arith, holds-lt (skip l 1) (is_pair byte) e))
  | inr e ↦ rw (h, e, newline) (refl, omega arith, omega (arith, peek-lt l byte h))
]

pub save_and_next-Past :
    (l : Lexer) (byte : ℕ)
    → peek l ≡ some byte
    → Ensures (λ (m : Lexer). Past l m × (length m.buf ≡ length l.buf + 1)) (save_and_next l)
unfolding save_and_next
save_and_next-Past l byte h =
    rw (h, save_and_next)
      ((refl, omega arith, omega (arith, peek-lt l byte h)), length-append l.buf (byte ∷ []))
