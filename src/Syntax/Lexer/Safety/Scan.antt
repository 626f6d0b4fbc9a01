-- ===== src/Syntax/Lexer/Safety/Scan.antt =====
-- The cursor over one token: crates/ruta-syntax/src/lexer/scan.rs.
use ruta.Prelude.{
  ℕ, zero, suc, ◌≤◌, ◌<◌, ◌≡◌, ◌⊎◌, ◌==◌, ◌||◌, refl, ◌∙◌, ap, arith, true, Bool-cases,
  Option-cases, inl, inr, Option, ◌^◌, ltb, none, some, List, length, Outcome, if◌then◌else◌,
}
use ruta.Syntax.Text.{is_break, is_blank, is_digit, is_name_start, is_name_part}
use ruta.Syntax.Error.{Error}
use ruta.Syntax.Token.{TokenKind, Token, eof, eq, ge, le, ne, shl, shr, i_div, db_colon, byte}
use ruta.Syntax.Lexer.Cursor.{Lexer, skip, left, peek, holds, eat, token}
use ruta.Syntax.Lexer.Numeral.{read_numeral}
use ruta.Syntax.Lexer.Scan.{
  one_or_two, one_of_three, name_bytes, read_name, read_bracket, read_point, read_token, next_in,
  next_token, lexed,
}
use ruta.Syntax.Lexer.Short.{read_string}
use ruta.Syntax.Lexer.Safety.Ensures.{
  Ensures, Spans, Ensures-bind, Ensures-map, Ahead, Past, Past-trans, Ahead-Past, left-Past,
  holds-peek, holds-lt, skip-Past, eat-Ahead, newline-Past,
}
use ruta.Syntax.Lexer.Safety.Long.{
  Past-Ahead, Delimits, long_bracket_level-Delimits, read_long_string-Spans, skip_comment-Ahead,
}
use ruta.Syntax.Lexer.Safety.Short.{read_string-Spans}
use ruta.Syntax.Lexer.Safety.Escape.{peek-some}
use ruta.Syntax.Lexer.Safety.Word.{name_bytes-Ahead, read_numeral-Spans}

-- What a token and the lexer after it promise: the span is from the old cursor on to the new one, and
-- it is empty only at the end of the source.
abbrev pub Advances : Lexer → Token × Lexer → Type 0
Advances l r =
    (r.1.source ≡ l.source)
    × (l.pos ≤ r.0.span.start)
    × (r.0.span.end ≡ r.1.pos)
    × (r.1.pos ≤ length r.1.source)
    × ((r.0.span.start < r.0.span.end) ⊎ ((r.0.kind ≡ eof) × (r.1.pos ≡ length r.1.source)))

-- The cursor is at the end of the source.
peek-none : (l : Lexer) → peek l ≡ none → l.pos ≤ length l.source → l.pos ≡ length l.source
peek-none l e h = elim (Bool-cases (ltb l.pos (length l.source))) [
  | inl t ↦ let (found, g) = peek-some l (ground (arith, t)) in let f : ⊥ = cc in absurd f
  | inr t ↦ ground (arith, t)
]

Spans-Advances :
    (l : Lexer) (r : Token × Lexer) → length l.source < 2 ^ 32 → Spans l l.pos r → Advances l r
Spans-Advances l r small (p, start, end) =
    let size : length r.1.source ≡ length l.source = ap (λ (s : List ℕ). length s) p.0 in
    let last : r.0.span.end ≡ r.1.pos = omega (arith, p.2) in
    (p.0, omega (arith, p.1, p.2), last, p.2, inl (omega (arith, p.1, p.2)))

smaller : (l m : Lexer) → m.source ≡ l.source → length l.source < 2 ^ 32 → length m.source < 2 ^ 32
smaller l m p h = omega (arith, ap (λ (s : List ℕ). length s) p)

later :
    (l m : Lexer) (o : Outcome Error (Token × Lexer))
    → Ahead l m
    → Ensures (Advances m) o
    → Ensures (Advances l) o
later l m o a h =
    Ensures-map (Advances m) (Advances l) o h
      (λ r (s, start, end, room, last). (s ∙ a.0, omega (arith, a.1), end, room, last))

one_or_two-Spans :
    (l : Lexer) (first_byte start first second : ℕ) (kind : TokenKind)
    → peek l ≡ some first_byte
    → Ensures (Spans l start) (one_or_two l start first second kind)
unfolding one_or_two
one_or_two-Spans l first_byte start first second kind h =
    let moved = skip-Past l first_byte h in
    let past =
      Past-trans l (skip l 1) (eat (skip l 1) second).1 moved
        (eat-Ahead (skip l 1) second moved.2) in
    elim (Bool-cases (eat (skip l 1) second).0) [
      | inl e ↦ rw e (past, refl, refl)
      | inr e ↦ rw e (past, refl, refl)
    ]

one_of_three-Spans :
    (l : Lexer) (first_byte start first second : ℕ) (kind : TokenKind) (other : ℕ)
    (other_kind : TokenKind)
    → peek l ≡ some first_byte
    → Ensures (Spans l start) (one_of_three l start first second kind other other_kind)
unfolding one_of_three
one_of_three-Spans l first_byte start first second kind other other_kind h =
    let moved = skip-Past l first_byte h in
    let after = (eat (skip l 1) second).1 in
    let past = Past-trans l (skip l 1) after moved (eat-Ahead (skip l 1) second moved.2) in
    let other_past = Past-trans l after (eat after other).1 past (eat-Ahead after other past.2) in
    elim (Bool-cases (eat (skip l 1) second).0) [
      | inl e ↦ rw e (past, refl, refl)
      | inr e ↦ elim (Bool-cases (eat after other).0) [
        | inl t ↦ rw (e, t) (other_past, refl, refl)
        | inr t ↦ rw (e, t) (other_past, refl, refl)
      ]
    ]

start_part : (first_byte : ℕ) → is_name_start first_byte ≡ true → is_name_part first_byte ≡ true
start_part first_byte h = ground arith

read_name-Spans :
    (l : Lexer) (first_byte start : ℕ)
    → peek l ≡ some first_byte
    → is_name_start first_byte ≡ true
    → Ensures (Spans l start) (read_name l start)
unfolding read_name
read_name-Spans l first_byte start h n =
    let moved = skip-Past l first_byte h in
    let test : holds is_name_part (peek l) ≡ true =
      ap (λ o. holds is_name_part o) h ∙ start_part first_byte n in
    let body : Ensures (Past l) (name_bytes (suc (left l)) l) =
      rw (test, name_bytes)
        (Ensures-map (Ahead (skip l 1)) (Past l) _
          (name_bytes-Ahead (left l) (skip l 1) (omega (arith, moved.2)) moved.2)
          (λ m a. Past-trans l (skip l 1) m moved a)) in
    Ensures-bind (Past l) (Spans l start) (name_bytes (suc (left l)) l) _ body
      (λ m p. (p, refl, refl))

read_bracket-Spans :
    (l : Lexer) (first_byte start : ℕ)
    → peek l ≡ some first_byte
    → Ensures (Spans l start) (read_bracket l start)
unfolding read_bracket
read_bracket-Spans l first_byte start h =
    Ensures-bind (Delimits l) (Spans l start) _ _ (long_bracket_level-Delimits l first_byte h)
      (λ r d. elim (Bool-cases (r.0 == 1)) [
        | inl e ↦ rw e (d.0, refl, refl)
        | inr e ↦ elim (Bool-cases (r.0 == 0)) [
          | inl z ↦ rw (e, z) tt
          | inr z ↦
              let long : 2 ≤ r.0 = ground (arith, e, z) in
              rw (e, z)
                (Ensures-map (Spans r.1 start) (Spans l start) _
                  (read_long_string-Spans r.1 r.0 start long (d.1 long))
                  (λ s p. (Ahead-Past l r.1 s.1 (Past-Ahead l r.1 d.0) p.0, p.1, p.2)))
        ]
      ])

module _ (read_f64 : List ℕ → Option ℕ) where
  read_point-Spans :
      (l : Lexer) (first_byte start : ℕ)
      → peek l ≡ some first_byte
      → Ensures (Spans l start) (read_point read_f64 l start)
  unfolding read_point
  read_point-Spans l first_byte start h =
      let moved = skip-Past l first_byte h in
      let after = (eat (skip l 1) 46).1 in
      let past = Past-trans l (skip l 1) after moved (eat-Ahead (skip l 1) 46 moved.2) in
      let third = (eat after 46).1 in
      let third_past = Past-trans l after third past (eat-Ahead after 46 past.2) in
      elim (Bool-cases (eat (skip l 1) 46).0) [
        | inl e ↦ rw e (elim (Bool-cases (eat after 46).0) [
          | inl t ↦ rw t (third_past, refl, refl)
          | inr t ↦ rw t (third_past, refl, refl)
        ])
        | inr e ↦ elim (Bool-cases (holds is_digit (peek after))) [
          | inl d ↦
              let (digit, g) = holds-peek after is_digit d in
              rw (e, d)
                (Ensures-map (Spans after start) (Spans l start) _
                  (read_numeral-Spans read_f64 after digit start g)
                  (λ r p. (Past-trans l after r.1 past (Past-Ahead after r.1 p.0), p.1, p.2)))
          | inr d ↦ rw (e, d) (past, refl, refl)
        ]
      ]

  read_token-Spans :
      (l : Lexer) (first : ℕ)
      → peek l ≡ some first
      → Ensures (Spans l l.pos) (read_token read_f64 l first)
  unfolding read_token
  read_token-Spans l first h =
      let moved = skip-Past l first h in
      elim (Bool-cases (first == 91)) [
        | inl e ↦ rw e (read_bracket-Spans l first l.pos h)
        | inr a1 ↦ elim (Bool-cases (first == 61)) [
          | inl e ↦ rw (a1, e) (one_or_two-Spans l first l.pos 61 61 eq h)
          | inr a2 ↦ elim (Bool-cases (first == 60)) [
            | inl e ↦ rw (a1, a2, e) (one_of_three-Spans l first l.pos 60 61 le 60 shl h)
            | inr a3 ↦ elim (Bool-cases (first == 62)) [
              | inl e ↦ rw (a1, a2, a3, e) (one_of_three-Spans l first l.pos 62 61 ge 62 shr h)
              | inr a4 ↦ elim (Bool-cases (first == 47)) [
                | inl e ↦ rw (a1, a2, a3, a4, e) (one_or_two-Spans l first l.pos 47 47 i_div h)
                | inr a5 ↦ rw (a1, a2, a3, a4, a5) (read_other-Spans l first h)
              ]
            ]
          ]
        ]
      ]
    where
      read_other-Spans :
          (l : Lexer) (first : ℕ)
          → peek l ≡ some first
          → Ensures (Spans l l.pos) (
              if first == 126
              then one_or_two l l.pos 126 61 ne
              else if first == 58
              then one_or_two l l.pos 58 58 db_colon
              else if (first == 34) || (first == 39)
              then read_string l first l.pos
              else if first == 46
              then read_point read_f64 l l.pos
              else if is_digit first
              then read_numeral read_f64 l l.pos
              else if is_name_start first
              then read_name l l.pos
              else lexed (skip l 1) (byte first) l.pos)
      read_other-Spans l first h = elim (Bool-cases (first == 126)) [
        | inl e ↦ rw e (one_or_two-Spans l first l.pos 126 61 ne h)
        | inr b1 ↦ elim (Bool-cases (first == 58)) [
          | inl e ↦ rw (b1, e) (one_or_two-Spans l first l.pos 58 58 db_colon h)
          | inr b2 ↦ elim (Bool-cases ((first == 34) || (first == 39))) [
            | inl e ↦ rw (b1, b2, e) (read_string-Spans l first first l.pos h)
            | inr b3 ↦ elim (Bool-cases (first == 46)) [
              | inl e ↦ rw (b1, b2, b3, e) (read_point-Spans l first l.pos h)
              | inr b4 ↦ elim (Bool-cases (is_digit first)) [
                | inl e ↦ rw (b1, b2, b3, b4, e) (read_numeral-Spans read_f64 l first l.pos h)
                | inr b5 ↦ elim (Bool-cases (is_name_start first)) [
                  | inl e ↦ rw (b1, b2, b3, b4, b5, e) (read_name-Spans l first l.pos h e)
                  | inr b6 ↦ rw (b1, b2, b3, b4, b5, b6) (skip-Past l first h, refl, refl)
                ]
              ]
            ]
          ]
        ]
      ]

  next_in-Advances :
      (fuel : ℕ) (l : Lexer)
      → left l < fuel
      → l.pos ≤ length l.source
      → length l.source < 2 ^ 32
      → Ensures (Advances l) (next_in read_f64 fuel l)
  unfolding next_in
  next_in-Advances zero l f h small = omega arith
  next_in-Advances (suc fuel) l f h small = elim (Option-cases (peek l)) [
    | inl e ↦ rw (e, next_in) (refl, omega arith, omega arith, h, inr (refl, peek-none l e h))
    | inr (first, e) ↦ elim (Bool-cases (is_break first)) [
      | inl b ↦
          rw (e, b, next_in)
            (Ensures-bind (Past l) (Advances l) _ _ (newline-Past l first e) (λ m p.
              later l m _ (Past-Ahead l m p)
                (next_in-Advances fuel m (left-Past l m fuel p f) p.2 (smaller l m p.0 small))))
      | inr b ↦ elim (Bool-cases (is_blank first)) [
        | inl k ↦
            let moved = skip-Past l first e in
            rw (e, b, k, next_in)
              (later l (skip l 1) _ (Past-Ahead l (skip l 1) moved) (
                next_in-Advances fuel (skip l 1) (left-Past l (skip l 1) fuel moved f) moved.2
                  small))
        | inr k ↦ elim (Bool-cases (first == 45)) [
          | inr m ↦
              rw (e, b, k, m, next_in)
                (Ensures-map (Spans l l.pos) (Advances l) _ (read_token-Spans l first e)
                  (λ r p. Spans-Advances l r small p))
          | inl m ↦ elim (Bool-cases (holds (λ b. b == 45) (peek (skip l 1)))) [
            | inr n ↦
                rw (e, b, k, m, n, next_in)
                  (Spans-Advances l (token (skip l 1) (byte 45) l.pos, skip l 1) small
                    (skip-Past l first e, refl, refl))
            | inl n ↦
                let comment : Past l (skip l 2) =
                  (refl, omega arith, omega (arith, holds-lt (skip l 1) (λ b. b == 45) n)) in
                rw (e, b, k, m, n, next_in)
                  (Ensures-bind (Ahead (skip l 2)) (Advances l) _ _
                    (skip_comment-Ahead (skip l 2) comment.2)
                    (λ after a.
                      let past = Past-trans l (skip l 2) after comment a in
                      later l after _ (Past-Ahead l after past) (
                        next_in-Advances fuel after (left-Past l after fuel past f) past.2
                          (smaller l after past.0 small))))
          ]
        ]
      ]
    ]
  ]

  -- From a cursor in a source shorter than 2^32 bytes, `next_token` runs neither into a panic nor out of steps: it answers
  -- an error, or a token whose span starts at or after the cursor and ends where the cursor is left,
  -- which is in the same source. The cursor is then at the end of the source and the token is the
  -- end's, or the span is not empty.
  pub next_token-Advances :
      (l : Lexer)
      → l.pos ≤ length l.source
      → length l.source < 2 ^ 32
      → Ensures (Advances l) (next_token read_f64 l)
  unfolding next_token
  next_token-Advances l h small = next_in-Advances (suc (left l)) l (omega arith) h small
