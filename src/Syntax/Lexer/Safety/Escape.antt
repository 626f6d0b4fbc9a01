-- ===== src/Syntax/Lexer/Safety/Escape.antt =====
-- The cursor and the buffer over escapes with digits: crates/ruta-syntax/src/lexer/string.rs.
use ruta.Prelude.{
  refl, true, leb, ◌>>=◌, length-take, ℕ, zero, suc, ◌+◌, ◌-◌, ◌*◌, ◌^◌, ◌/◌, ◌≤◌, ◌<◌, ◌≡◌, ◌==◌,
  ◌∙◌, arith, ltb, not, Bool-cases, Option-cases, inl, inr, some, [], ◌∷◌, length, length-append,
  get_elem?-lt, ok, err, if◌then◌else◌,
}
use ruta.Syntax.Text.{is_digit, is_hex_digit, hex_value}
use ruta.Syntax.Error.{missing_close_brace}
use ruta.Syntax.Lexer.Cursor.{Lexer, skip, left, peek, holds, cut, pop, shorten, escape_error}
use ruta.Syntax.Lexer.Short.{
  put_decoded, hex_digit, read_hex_escape, utf8_digits, read_utf8_escape, decimal_digits,
  read_decimal_escape,
}
use ruta.Syntax.Lexer.Safety.Ensures.{
  Ensures, Ensures-bind, Ensures-map, Ahead, Past, Ahead-trans, Past-trans, left-Past, peek-lt,
  holds-peek, holds-lt, save_and_next-Past,
}
use ruta.Syntax.Lexer.Safety.Long.{Ahead-self, Past-Ahead}

pub length-cut : (l : Lexer) (n : ℕ) → length (cut l n).buf ≡ length l.buf - n
length-cut l n = length-take (length l.buf - n) l.buf (omega arith)

shorten-cut : (l : Lexer) (n : ℕ) → n ≤ length l.buf → shorten l n ≡ ok (cut l n)
shorten-cut l n h = let e : leb n (length l.buf) ≡ true = ground (arith, h) in rw e refl

pub length-put_decoded :
    (l : Lexer) (byte : ℕ) → 1 ≤ length l.buf → length (put_decoded l byte).buf ≡ length l.buf
length-put_decoded l byte h = omega (arith, length-append (pop l).buf (byte ∷ []), length-cut l 1)

-- One byte more is in the buffer, and the cursor is at another.
abbrev pub AtDigit : Lexer → ℕ × Lexer → Type 0
AtDigit l r = Past l r.1 × (length r.1.buf ≡ length l.buf + 1) × (r.1.pos < length r.1.source)

pub hex_digit-AtDigit :
    (l : Lexer) (byte : ℕ) → peek l ≡ some byte → Ensures (AtDigit l) (hex_digit l)
unfolding hex_digit
hex_digit-AtDigit l byte h =
    Ensures-bind (λ (m : Lexer). Past l m × (length m.buf ≡ length l.buf + 1)) (AtDigit l) _ _
      (save_and_next-Past l byte h)
      (λ m p. elim (Option-cases (peek m)) [
        | inl e ↦ rw e tt
        | inr (digit, e) ↦ elim (Bool-cases (is_hex_digit digit)) [
          | inl t ↦ rw (e, t) (p.0, p.1, peek-lt m digit e)
          | inr t ↦ rw (e, t) tt
        ]
      ])

pub peek-some : (l : Lexer) → l.pos < length l.source → (byte : ℕ) × (peek l ≡ some byte)
unfolding peek
peek-some l h = get_elem?-lt l.source l.pos h

-- What an escape leaves: a buffer of the same size.
abbrev pub Same : Lexer → ℕ × Lexer → Type 0
Same l r = Ahead l r.1 × (length r.1.buf ≡ length l.buf)

pub read_hex_escape-Same :
    (l : Lexer) (byte : ℕ) → peek l ≡ some byte → Ensures (Same l) (read_hex_escape l)
unfolding read_hex_escape
read_hex_escape-Same l byte h =
    Ensures-bind (AtDigit l) (Same l) _ _ (hex_digit-AtDigit l byte h) (λ r p.
      let (next, e) = peek-some r.1 p.2 in
      Ensures-bind (AtDigit r.1) (Same l) _ _ (hex_digit-AtDigit r.1 next e) (λ q s.
        rw (shorten-cut (skip q.1 1) 2 (omega (arith, p.1, s.1))) (
          (s.0.0 ∙ p.0.0, omega (arith, p.0.1, s.0.1), omega (arith, s.2)),
          omega (arith, length-cut (skip q.1 1) 2, p.1, s.1),
        )))

-- So many bytes of the digits and of `l` are in the buffer.
abbrev Counts : Lexer → ℕ → ℕ × ℕ × Lexer → Type 0
Counts l count r = Past l r.2 × (length r.2.buf + count ≡ length l.buf + r.1 + 1)

utf8_digits-Counts :
    (fuel : ℕ) (l : Lexer) (value count : ℕ)
    → left l < fuel
    → l.pos < length l.source
    → Ensures (Counts l count) (utf8_digits fuel l value count)
unfolding utf8_digits
utf8_digits-Counts zero l value count f h = omega arith
utf8_digits-Counts (suc fuel) l value count f h =
    let (byte, e) = peek-some l h in
    Ensures-bind (λ (m : Lexer). Past l m × (length m.buf ≡ length l.buf + 1)) (Counts l count) _ _
      (save_and_next-Past l byte e)
      (λ m p. elim (Option-cases (peek m)) [
        | inl t ↦ rw t (p.0, omega (arith, p.1))
        | inr (digit, t) ↦ elim (Bool-cases (is_hex_digit digit)) [
          | inr u ↦ rw (t, u) (p.0, omega (arith, p.1))
          | inl u ↦ elim (Bool-cases (ltb (0x7fffffff / 2 ^ 4) value)) [
            | inl v ↦ rw (t, u, v) tt
            | inr v ↦
                rw (t, u, v)
                  (Ensures-map (Counts m (count + 1)) (Counts l count) _
                    (utf8_digits-Counts fuel m (value * 2 ^ 4 + hex_value digit) (count + 1)
                      (left-Past l m fuel p.0 f) (peek-lt m digit t))
                    (λ r q.
                      (Past-trans l m r.2 p.0 (Past-Ahead m r.2 q.0), omega (arith, p.1, q.1))))
          ]
        ]
      ])

-- The escape's own byte leaves the buffer too.
abbrev pub Lacks : Lexer → ℕ × Lexer → Type 0
Lacks l r = Ahead l r.1 × (length r.1.buf + 1 ≡ length l.buf)

pub read_utf8_escape-Lacks :
    (l : Lexer) (byte : ℕ)
    → peek l ≡ some byte
    → 1 ≤ length l.buf
    → Ensures (Lacks l) (read_utf8_escape l)
unfolding read_utf8_escape
read_utf8_escape-Lacks l byte h n =
    Ensures-bind (λ (m : Lexer). Past l m × (length m.buf ≡ length l.buf + 1)) (Lacks l) _ _
      (save_and_next-Past l byte h)
      (λ opened p. elim (Bool-cases (holds (λ b. b == 123) (peek opened))) [
        | inr e ↦ rw e tt
        | inl e ↦
            let (next, t) = holds-peek opened (λ b. b == 123) e in
            rw e (
              Ensures-bind (AtDigit opened) (Lacks l) _ _ (hex_digit-AtDigit opened next t) (λ r q.
                Ensures-bind (Counts r.1 4) (Lacks l) _ _
                  (utf8_digits-Counts (suc (left r.1)) r.1 r.0 4 (omega arith) q.2)
                  (λ s c. utf8_end l opened r.1 s n p q c)))
      ])
  where
    utf8_end :
        (l opened started : Lexer) (s : ℕ × ℕ × Lexer)
        → 1 ≤ length l.buf
        → Past l opened × (length opened.buf ≡ length l.buf + 1)
        → Past opened started
          × (length started.buf ≡ length opened.buf + 1)
          × (started.pos < length started.source)
        → Counts started 4 s
        → Ensures (Lacks l) (
            if not (holds (λ b. b == 125) (peek s.2))
            then err (escape_error s.2 missing_close_brace)
            else (shorten (skip s.2 1) s.1 >>= λ shortened. ok (s.0, shortened)))
    utf8_end l opened started s n p q c = elim (Bool-cases (holds (λ b. b == 125) (peek s.2))) [
      | inr e ↦ rw e tt
      | inl e ↦
          rw (e, shorten-cut (skip s.2 1) s.1 (omega (arith, p.1, q.1, c.1)))
            (
              (
                c.0.0 ∙ (q.0.0 ∙ p.0.0),
                omega (arith, p.0.1, q.0.1, c.0.1),
                omega (arith, holds-lt s.2 (λ b. b == 125) e),
              ),
              omega (arith, length-cut (skip s.2 1) s.1, p.1, q.1, c.1),
            )
    ]

decimal_digits-Ahead :
    (more : ℕ) (l : Lexer) (value digits : ℕ)
    → l.pos ≤ length l.source
    → Ensures
        (λ (r : ℕ × ℕ × Lexer). Ahead l r.2 × (length r.2.buf + digits ≡ length l.buf + r.1))
        (decimal_digits more l value digits)
unfolding decimal_digits
decimal_digits-Ahead zero l value digits h = (Ahead-self l h, omega arith)
decimal_digits-Ahead (suc more) l value digits h = elim (Option-cases (peek l)) [
  | inl e ↦ rw (e, decimal_digits) (Ahead-self l h, omega arith)
  | inr (digit, e) ↦ elim (Bool-cases (is_digit digit)) [
    | inr t ↦ rw (e, t, decimal_digits) (Ahead-self l h, omega arith)
    | inl t ↦
        rw (e, t, decimal_digits)
          (Ensures-bind (λ (m : Lexer). Past l m × (length m.buf ≡ length l.buf + 1))
            (λ (r : ℕ × ℕ × Lexer). Ahead l r.2 × (length r.2.buf + digits ≡ length l.buf + r.1)) _
            _ (save_and_next-Past l digit e)
            (λ m p.
              Ensures-map
                (λ (r : ℕ × ℕ × Lexer).
                  Ahead m r.2 × (length r.2.buf + (digits + 1) ≡ length m.buf + r.1))
                (λ (r : ℕ × ℕ × Lexer).
                  Ahead l r.2 × (length r.2.buf + digits ≡ length l.buf + r.1))
                _ (decimal_digits-Ahead more m (10 * value + (digit - 48)) (digits + 1) p.0.2)
                (λ r q. (Ahead-trans l m r.2 (Past-Ahead l m p.0) q.0, omega (arith, p.1, q.1)))))
  ]
]

pub read_decimal_escape-Same :
    (l : Lexer) → l.pos ≤ length l.source → Ensures (Same l) (read_decimal_escape l)
unfolding read_decimal_escape
read_decimal_escape-Same l h =
    Ensures-bind (λ (r : ℕ × ℕ × Lexer). Ahead l r.2 × (length r.2.buf + 0 ≡ length l.buf + r.1))
      (Same l) (decimal_digits 3 l 0 0) _ (decimal_digits-Ahead 3 l 0 0 h)
      (λ r p. elim (Bool-cases (ltb 255 r.0)) [
        | inl e ↦ rw e tt
        | inr e ↦
            rw (e, shorten-cut r.2 r.1 (omega (arith, p.1)))
              (p.0, omega (arith, length-cut r.2 r.1, p.1))
      ])
