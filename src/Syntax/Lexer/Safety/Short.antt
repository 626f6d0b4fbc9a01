-- ===== src/Syntax/Lexer/Safety/Short.antt =====
-- The cursor and the buffer over short strings: crates/ruta-syntax/src/lexer/string.rs.
use ruta.Prelude.{
  ℕ, zero, suc, ◌+◌, ◌≤◌, ◌<◌, ◌≡◌, ◌==◌, refl, ap, arith, leb, true, false, Bool-cases,
  Option-cases, inl, inr, some, List, [], length, length-append, Outcome, ok, err, panic,
}
use ruta.Syntax.Text.{is_break, is_blank, is_digit}
use ruta.Syntax.LineIndex.{is_pair}
use ruta.Syntax.Error.{Error}
use ruta.Syntax.Lexer.Cursor.{Lexer, skip, left, peek, holds, newline, pop, save_and_next}
use ruta.Syntax.Lexer.Utf8.{utf8_encode}
use ruta.Syntax.Lexer.Short.{
  simple_escape, skip_space, escaped, read_escape, string_body, read_string,
}
use ruta.Syntax.Lexer.Safety.Ensures.{
  Ensures, Spans, Ensures-bind, Ensures-map, Ahead, Past, Ahead-trans, Past-trans, left-Past,
  peek-lt, skip-Past, newline-Past, save_and_next-Past,
}
use ruta.Syntax.Lexer.Safety.Long.{Ahead-self, Past-Ahead}
use ruta.Syntax.Lexer.Safety.Escape.{
  length-cut, length-put_decoded, Same, read_hex_escape-Same, Lacks, read_utf8_escape-Lacks,
  read_decimal_escape-Same, peek-some,
}

newline-buf :
    (l : Lexer) (byte : ℕ) → peek l ≡ some byte → Ensures (λ (m : Lexer). m.buf ≡ l.buf) (newline l)
unfolding newline
newline-buf l byte h = elim (Bool-cases (holds (is_pair byte) (peek (skip l 1)))) [
  | inl e ↦ rw (h, e, newline) refl
  | inr e ↦ rw (h, e, newline) refl
]

Ensures-both :
    {A : Type 0} (P Q : A → Type 0) (o : Outcome Error A)
    → Ensures P o
    → Ensures Q o
    → Ensures (λ a. P a × Q a) o
Ensures-both P Q (ok a) h g = (h, g)
Ensures-both P Q (err e) h g = tt
Ensures-both P Q panic h g = h

-- At least so many bytes of the buffer stay.
abbrev pub Grows : ℕ → Lexer → Lexer → Type 0
Grows lost l m = Ahead l m × (length l.buf ≤ length m.buf + lost)

newline-Grows :
    (l : Lexer) (byte : ℕ)
    → peek l ≡ some byte
    → Ensures (λ (m : Lexer). Past l m × (m.buf ≡ l.buf)) (newline l)
newline-Grows l byte h =
    Ensures-both (Past l) (λ (m : Lexer). m.buf ≡ l.buf) (newline l) (newline-Past l byte h)
      (newline-buf l byte h)

skip_space-Grows :
    (fuel : ℕ) (l : Lexer)
    → left l < fuel
    → l.pos ≤ length l.source
    → Ensures (Grows 0 l) (skip_space fuel l)
unfolding skip_space
skip_space-Grows zero l f h = omega arith
skip_space-Grows (suc fuel) l f h = elim (Option-cases (peek l)) [
  | inl e ↦ rw (e, skip_space) (Ahead-self l h, omega arith)
  | inr (byte, e) ↦ elim (Bool-cases (is_break byte)) [
    | inl b ↦
        rw (e, b, skip_space)
          (Ensures-bind (λ (m : Lexer). Past l m × (m.buf ≡ l.buf)) (Grows 0 l) _ _
            (newline-Grows l byte e)
            (λ m p.
              Ensures-map (Grows 0 m) (Grows 0 l) _
                (skip_space-Grows fuel m (left-Past l m fuel p.0 f) p.0.2)
                (λ n q. (
                  Ahead-trans l m n (Past-Ahead l m p.0) q.0,
                  omega (arith, q.1, ap (λ (s : List ℕ). length s) p.1),
                ))))
    | inr b ↦ elim (Bool-cases (is_blank byte)) [
      | inr t ↦ rw (e, b, t, skip_space) (Ahead-self l h, omega arith)
      | inl t ↦
          let moved = skip-Past l byte e in
          rw (e, b, t, skip_space)
            (Ensures-map (Grows 0 (skip l 1)) (Grows 0 l) _
              (skip_space-Grows fuel (skip l 1) (left-Past l (skip l 1) fuel moved f) moved.2)
              (λ n q. (Ahead-trans l (skip l 1) n (Past-Ahead l (skip l 1) moved) q.0, q.1)))
    ]
  ]
]

escaped-Grows :
    (l : Lexer) (byte : ℕ)
    → peek l ≡ some byte
    → 1 ≤ length l.buf
    → Ensures (Grows 1 l) (escaped l byte)
unfolding escaped
escaped-Grows l byte h n = elim (Bool-cases (byte == 120)) [
  | inl x ↦
      rw (x, escaped)
        (Ensures-bind (Same l) (Grows 1 l) _ _ (read_hex_escape-Same l byte h)
          (λ r p. (p.0, omega (arith, p.1, length-put_decoded r.1 r.0 (omega (arith, p.1))))))
  | inr x ↦ elim (Bool-cases (byte == 117)) [
    | inl u ↦
        rw (x, u, escaped)
          (Ensures-bind (Lacks l) (Grows 1 l) _ _ (read_utf8_escape-Lacks l byte h n)
            (λ r p. (p.0, omega (arith, p.1, length-append r.1.buf (utf8_encode r.0)))))
    | inr u ↦ elim (Bool-cases (byte == 122)) [
      | inl z ↦
          let after = skip (pop l) 1 in
          let moved = skip-Past l byte h in
          rw (x, u, z, escaped)
            (Ensures-map (Grows 0 after) (Grows 1 l) _
              (skip_space-Grows (suc (left after)) after (omega arith) moved.2)
              (λ m p. (
                Ahead-trans l after m (Past-Ahead l after moved) p.0,
                omega (arith, p.1, length-cut l 1),
              )))
      | inr z ↦ elim (Bool-cases (is_break byte)) [
        | inl b ↦
            rw (x, u, z, b, escaped)
              (Ensures-bind (λ (m : Lexer). Past l m × (m.buf ≡ l.buf)) (Grows 1 l) _ _
                (newline-Grows l byte h)
                (λ m p.
                  let same = ap (λ (s : List ℕ). length s) p.1 in
                  (
                    Past-Ahead l m p.0,
                    omega (arith, same, length-put_decoded m 10 (omega (arith, same))),
                  )))
        | inr b ↦ elim (Bool-cases (is_digit byte)) [
          | inl d ↦
              rw (x, u, z, b, d, escaped)
                (Ensures-bind (Same l) (Grows 1 l) _ _
                  (read_decimal_escape-Same l (omega (arith, peek-lt l byte h)))
                  (λ r p.
                    (p.0, omega (arith, p.1, length-put_decoded r.1 r.0 (omega (arith, p.1))))))
          | inr d ↦ elim (Option-cases (simple_escape byte)) [
            | inl e ↦ rw (x, u, z, b, d, e, escaped) tt
            | inr (decoded, e) ↦
                rw (x, u, z, b, d, e, escaped)
                  (
                    Past-Ahead l (skip l 1) (skip-Past l byte h),
                    omega (arith, length-put_decoded (skip l 1) decoded n),
                  )
          ]
        ]
      ]
    ]
  ]
]

-- The cursor is past the bytes read, and the buffer is not shorter.
abbrev Reads : Lexer → Lexer → Type 0
Reads l m = Past l m × (length l.buf ≤ length m.buf)

read_escape-Reads : (l : Lexer) (byte : ℕ) → peek l ≡ some byte → Ensures (Reads l) (read_escape l)
unfolding read_escape
read_escape-Reads l byte h =
    Ensures-bind (λ (m : Lexer). Past l m × (length m.buf ≡ length l.buf + 1)) (Reads l) _ _
      (save_and_next-Past l byte h)
      (λ m p. elim (Option-cases (peek m)) [
        | inl e ↦ rw e (p.0, omega (arith, p.1))
        | inr (next, e) ↦ rw e (
            Ensures-map (Grows 1 m) (Reads l) _ (escaped-Grows m next e (omega (arith, p.1)))
              (λ n q. (Past-trans l m n p.0 q.0, omega (arith, p.1, q.1))))
      ])

-- The cursor is at a byte that is there.
abbrev AtDelimiter : Lexer → Lexer → Type 0
AtDelimiter l m = Grows 0 l m × (m.pos < length m.source)

string_body-AtDelimiter :
    (fuel : ℕ) (l : Lexer) (delimiter : ℕ)
    → left l < fuel
    → l.pos ≤ length l.source
    → Ensures (AtDelimiter l) (string_body fuel l delimiter)
unfolding string_body
string_body-AtDelimiter zero l delimiter f h = omega arith
string_body-AtDelimiter (suc fuel) l delimiter f h = elim (Option-cases (peek l)) [
  | inl e ↦ rw (e, string_body) tt
  | inr (byte, e) ↦ elim (Bool-cases (byte == delimiter)) [
    | inl d ↦ rw (e, d, string_body) ((Ahead-self l h, omega arith), peek-lt l byte e)
    | inr d ↦ elim (Bool-cases (is_break byte)) [
      | inl b ↦ rw (e, d, b, string_body) tt
      | inr b ↦
          let step : Ensures (Reads l)
              (elim (byte == 92) [ true ↦ read_escape l | false ↦ save_and_next l ]) =
            elim (Bool-cases (byte == 92)) [
              | inl s ↦ rw s (read_escape-Reads l byte e)
              | inr s ↦ rw s (
                  Ensures-map (λ (m : Lexer). Past l m × (length m.buf ≡ length l.buf + 1))
                    (Reads l) (save_and_next l) (save_and_next-Past l byte e)
                    (λ m p. (p.0, omega (arith, p.1))))
            ] in
          rw (e, d, b, string_body)
            (Ensures-bind (Reads l) (AtDelimiter l) _ _ step (λ m p.
              Ensures-map (AtDelimiter m) (AtDelimiter l) _
                (string_body-AtDelimiter fuel m delimiter (left-Past l m fuel p.0 f) p.0.2)
                (λ n q. (
                  (Ahead-trans l m n (Past-Ahead l m p.0) q.0.0, omega (arith, p.1, q.0.1)),
                  q.1,
                ))))
    ]
  ]
]

pub read_string-Spans :
    (l : Lexer) (byte delimiter start : ℕ)
    → peek l ≡ some byte
    → Ensures (Spans l start) (read_string l delimiter start)
unfolding read_string
read_string-Spans l byte delimiter start h =
    Ensures-bind (λ (m : Lexer). Past l m × (length m.buf ≡ 1)) (Spans l start) _ _
      (save_and_next-Past (record l { buf = [] }) byte h)
      (λ opened p.
        Ensures-bind (AtDelimiter opened) (Spans l start) _ _
          (string_body-AtDelimiter (suc (left opened)) opened delimiter (omega arith) p.0.2)
          (λ body q.
            let (quote, e) = peek-some body q.1 in
            Ensures-bind (λ (m : Lexer). Past body m × (length m.buf ≡ length body.buf + 1))
              (Spans l start) _ _ (save_and_next-Past body quote e)
              (λ closed s.
                let full : leb 2 (length closed.buf) ≡ true = ground (arith, p.1, q.0.1, s.1) in
                rw full (
                  Past-trans l opened closed p.0
                      (Ahead-trans opened body closed q.0.0 (Past-Ahead body closed s.0)),
                  refl,
                  refl,
                ))))
