-- ===== src/Syntax/Lexer/Safety/Word.antt =====
-- The cursor over names and numerals: crates/ruta-syntax/src/lexer/scan.rs and number.rs.
use ruta.Prelude.{
  ℕ, zero, suc, ◌-◌, ◌≤◌, ◌<◌, ◌≡◌, ◌==◌, ◌||◌, ◌&&◌, refl, arith, Bool, Bool-cases, Option-cases,
  inl, inr, Option, take, drop, some, List, length, Outcome, if◌then◌else◌,
}
use ruta.Syntax.Text.{is_hex_digit, is_name_start, is_name_part}
use ruta.Syntax.Error.{Error}
use ruta.Syntax.Lexer.Cursor.{Lexer, skip, left, peek, holds}
use ruta.Syntax.Lexer.Numeral.{numeral_bytes, numeral_value, read_numeral}
use ruta.Syntax.Lexer.Scan.{name_bytes}
use ruta.Syntax.Lexer.Safety.Ensures.{
  Ensures, Spans, Ensures-bind, Ensures-map, Ahead, Past, Ahead-trans, Past-trans, left-Past,
  holds-lt, skip-Past, skip-holds,
}
use ruta.Syntax.Lexer.Safety.Long.{Ahead-self, Past-Ahead}

-- A loop that goes on after the cursor has moved.
resumed :
    (l m : Lexer) (o : Outcome Error Lexer) → Past l m → Ensures (Ahead m) o → Ensures (Ahead l) o
resumed l m o p h =
    Ensures-map (Ahead m) (Ahead l) o h (λ n a. Ahead-trans l m n (Past-Ahead l m p) a)

pub name_bytes-Ahead :
    (fuel : ℕ) (l : Lexer)
    → left l < fuel
    → l.pos ≤ length l.source
    → Ensures (Ahead l) (name_bytes fuel l)
unfolding name_bytes
name_bytes-Ahead zero l f h = omega arith
name_bytes-Ahead (suc fuel) l f h = elim (Bool-cases (holds is_name_part (peek l))) [
  | inr e ↦ rw (e, name_bytes) (Ahead-self l h)
  | inl e ↦
      let moved = skip-holds l is_name_part e in
      rw (e, name_bytes)
        (resumed l (skip l 1) _ moved
          (name_bytes-Ahead fuel (skip l 1) (left-Past l (skip l 1) fuel moved f) moved.2))
]

-- Past an exponent's mark and its sign.
exponent-Past :
    (l : Lexer) (byte : ℕ) (test : ℕ → Bool)
    → peek l ≡ some byte
    → Past l (skip l (if holds test (peek (skip l 1)) then 2 else 1))
exponent-Past l byte test h = elim (Bool-cases (holds test (peek (skip l 1)))) [
  | inl e ↦ rw e (refl, omega arith, omega (arith, holds-lt (skip l 1) test e))
  | inr e ↦ rw e (skip-Past l byte h)
]

numeral_bytes-Ahead :
    (fuel : ℕ) (l : Lexer) (hexadecimal : Bool)
    → left l < fuel
    → l.pos ≤ length l.source
    → Ensures (Ahead l) (numeral_bytes fuel l hexadecimal)
unfolding numeral_bytes
numeral_bytes-Ahead zero l hexadecimal f h = omega arith
numeral_bytes-Ahead (suc fuel) l hexadecimal f h = elim (Option-cases (peek l)) [
  | inl e ↦ rw (e, numeral_bytes) (Ahead-self l h)
  | inr (byte, e) ↦
      elim (Bool-cases
        (if hexadecimal then (byte == 112) || (byte == 80) else (byte == 101) || (byte == 69))) [
          | inl t ↦
              let next =
                skip l (if holds (λ b. (b == 43) || (b == 45)) (peek (skip l 1)) then 2 else 1) in
              let moved = exponent-Past l byte (λ b. (b == 43) || (b == 45)) e in
              rw (e, t, numeral_bytes)
                (resumed l next _ moved (
                  numeral_bytes-Ahead fuel next hexadecimal (left-Past l next fuel moved f)
                    moved.2))
          | inr t ↦ elim (Bool-cases (is_hex_digit byte || (byte == 46))) [
            | inl d ↦
                let moved = skip-Past l byte e in
                rw (e, t, d, numeral_bytes)
                  (resumed l (skip l 1) _ moved (
                    numeral_bytes-Ahead fuel (skip l 1) hexadecimal
                      (left-Past l (skip l 1) fuel moved f) moved.2))
            | inr d ↦ rw (e, t, d, numeral_bytes) (Ahead-self l h)
          ]
        ]
]

-- The byte after a numeral is part of it if a name could start there.
glued-Ahead :
    (l : Lexer)
    → l.pos ≤ length l.source
    → Ahead l (skip l (if holds is_name_start (peek l) then 1 else 0))
glued-Ahead l h = elim (Bool-cases (holds is_name_start (peek l))) [
  | inl e ↦ rw e (Past-Ahead l (skip l 1) (skip-holds l is_name_start e))
  | inr e ↦ rw e (refl, omega arith, omega (arith, h))
]

-- The test for `0x` that `read_numeral` makes.
abbrev zero_mark : ℕ → Bool
zero_mark b = b == 48

abbrev x_mark : ℕ → Bool
x_mark b = (b == 120) || (b == 88)

prefix-Past :
    (l : Lexer) (byte : ℕ)
    → peek l ≡ some byte
    → Past l (skip l (if holds zero_mark (peek l) && holds x_mark (peek (skip l 1)) then 2 else 1))
prefix-Past l byte h = elim (Bool-cases (holds zero_mark (peek l))) [
  | inr e ↦ rw e (skip-Past l byte h)
  | inl e ↦ rw e (exponent-Past l byte x_mark h)
]

module _ (read_f64 : List ℕ → Option ℕ) where
  pub read_numeral-Spans :
      (l : Lexer) (byte start : ℕ)
      → peek l ≡ some byte
      → Ensures (Spans l start) (read_numeral read_f64 l start)
  unfolding read_numeral
  read_numeral-Spans l byte start h =
      let hexadecimal = holds zero_mark (peek l) && holds x_mark (peek (skip l 1)) in
      let first = skip l (if hexadecimal then 2 else 1) in
      let moved = prefix-Past l byte h in
      Ensures-bind (Ahead first) (Spans l start)
        (numeral_bytes (suc (left first)) first hexadecimal) _
        (numeral_bytes-Ahead (suc (left first)) first hexadecimal (omega arith) moved.2)
        (λ body a.
          let ended = skip body (if holds is_name_start (peek body) then 1 else 0) in
          let text = take (ended.pos - start) (drop start l.source) in
          elim (Option-cases (numeral_value read_f64 text)) [
            | inl e ↦ rw e tt
            | inr (number, e) ↦ rw e (
              Past-trans l first ended moved
                  (Ahead-trans first body ended a (glued-Ahead body a.2)),
              refl,
              refl,
            )
          ])
