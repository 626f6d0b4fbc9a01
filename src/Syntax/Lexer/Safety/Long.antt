-- ===== src/Syntax/Lexer/Safety/Long.antt =====
-- The cursor over long brackets and comments: crates/ruta-syntax/src/lexer/long.rs.
use ruta.Prelude.{
  ℕ, zero, suc, ◌+◌, ◌-◌, ◌≤◌, ◌<◌, ◌≡◌, ◌==◌, refl, arith, leb, Bool-cases, Option-cases, inl, inr,
  ◌++◌, take, drop, some, [], length, Outcome, ok, if◌then◌else◌,
}
use ruta.Syntax.Text.{is_break}
use ruta.Syntax.Error.{Error}
use ruta.Syntax.Lexer.Cursor.{Lexer, skip, left, peek, holds, newline, push}
use ruta.Syntax.Lexer.Long.{
  LongForm, string, comment, count_equals, long_bracket_level, long_body, read_long_bracket,
  read_long_string, skip_line, skip_comment,
}
use ruta.Syntax.Lexer.Safety.Ensures.{
  Ensures, Spans, Ensures-bind, Ensures-map, Ahead, Past, Ahead-trans, Past-trans, Ahead-Past,
  left-Past, holds-peek, holds-lt, skip-Past, skip-holds, newline-Past,
}

pub Ahead-self : (l : Lexer) → l.pos ≤ length l.source → Ahead l l
Ahead-self l h = (refl, omega arith, h)

pub Past-Ahead : (l m : Lexer) → Past l m → Ahead l m
Past-Ahead l m (p, q, r) = (p, omega arith, r)

count_equals-Ahead :
    (fuel : ℕ) (l : Lexer) (count : ℕ)
    → left l < fuel
    → l.pos ≤ length l.source
    → Ensures (λ (r : ℕ × Lexer). Ahead l r.1) (count_equals fuel l count)
unfolding count_equals
count_equals-Ahead zero l count f h = omega arith
count_equals-Ahead (suc fuel) l count f h = elim (Bool-cases (holds (λ b. b == 61) (peek l))) [
  | inl e ↦
      let moved = skip-holds l (λ b. b == 61) e in
      rw (e, count_equals)
        (Ensures-map (λ (r : ℕ × Lexer). Ahead (skip l 1) r.1) (λ (r : ℕ × Lexer). Ahead l r.1) _
          (count_equals-Ahead fuel (skip l 1) (count + 1) (left-Past l (skip l 1) fuel moved f)
            moved.2)
          (λ r a. Ahead-trans l (skip l 1) r.1 (Past-Ahead l (skip l 1) moved) a))
  | inr e ↦ rw (e, count_equals) (Ahead-self l h)
]

-- The cursor is past the run, and a second bracket follows a whole delimiter.
abbrev pub Delimits : Lexer → ℕ × Lexer → Type 0
Delimits l r = Past l r.1 × (2 ≤ r.0 → r.1.pos < length r.1.source)

level_of-Delimits :
    (l after : Lexer) (opener count : ℕ)
    → Past l after
    → Delimits l (
      (if holds (λ b. b == opener) (peek after) then count + 2 else if count == 0 then 1 else 0),
      after,
    )
level_of-Delimits l after opener count p =
    elim (Bool-cases (holds (λ b. b == opener) (peek after))) [
      | inl e ↦ (p, λ h. holds-lt after (λ b. b == opener) e)
      | inr e ↦ rw e (p, λ h. let f : ⊥ = ground arith in absurd f)
    ]

pub long_bracket_level-Delimits :
    (l : Lexer) (byte : ℕ) → peek l ≡ some byte → Ensures (Delimits l) (long_bracket_level l)
unfolding long_bracket_level
long_bracket_level-Delimits l byte h =
    let moved = skip-Past l byte h in
    rw (h, long_bracket_level)
      (Ensures-bind (λ (r : ℕ × Lexer). Ahead (skip l 1) r.1) (Delimits l) _ _
        (count_equals-Ahead (suc (left (skip l 1))) (skip l 1) 0 (omega arith) moved.2)
        (λ r a. level_of-Delimits l r.1 byte r.0 (Past-trans l (skip l 1) r.1 moved a)))

-- A loop that went on past `l` went on past what came before.
pub onward :
    (l m : Lexer) (o : Outcome Error Lexer) → Past l m → Ensures (Past m) o → Ensures (Past l) o
onward l m o p h = Ensures-map (Past m) (Past l) o h (λ n a. Ahead-Past l m n (Past-Ahead l m p) a)

long_body-Past :
    (fuel : ℕ) (l : Lexer) (level open_at : ℕ) (form : LongForm)
    → 2 ≤ level
    → left l < fuel
    → l.pos ≤ length l.source
    → Ensures (Past l) (long_body fuel l level open_at form)
unfolding long_body
long_body-Past zero l level open_at form g f h = omega arith
long_body-Past (suc fuel) l level open_at form g f h = elim (Option-cases (peek l)) [
  | inl e ↦ rw (e, long_body) tt
  | inr (byte, e) ↦ elim (Bool-cases (byte == 93)) [
    | inl t ↦
        rw (e, t, long_body)
          (Ensures-bind (Delimits l) (Past l) _ _ (long_bracket_level-Delimits l byte e) (λ r d.
            elim (Bool-cases (r.0 == level)) [
              | inl same ↦ rw same (
                d.0.0,
                omega (arith, d.0.1),
                (let room : r.1.pos < length r.1.source = d.1 (ground (arith, same)) in
                    omega arith),
              )
              | inr other ↦
                  let next = record r.1 {
                    buf = r.1.buf ++ take (r.1.pos - l.pos) (drop l.pos l.source);
                  } in
                  rw other (
                    onward l next _ d.0 (
                      long_body-Past fuel next level open_at form g (left-Past l r.1 fuel d.0 f)
                        d.0.2))
            ]))
    | inr t ↦ elim (Bool-cases (is_break byte)) [
      | inl b ↦
          rw (e, t, b, long_body)
            (Ensures-bind (Past l) (Past l) _ _ (newline-Past (push l 10) byte e) (λ m p.
              onward l m _ p
                (long_body-Past fuel m level open_at form g (left-Past l m fuel p f) p.2)))
      | inr b ↦
          let moved = skip-Past l byte e in
          let next = skip (push l byte) 1 in
          rw (e, t, b, long_body)
            (onward l next _ moved (
              long_body-Past fuel next level open_at form g (left-Past l next fuel moved f)
                moved.2))
    ]
  ]
]

pub read_long_bracket-Past :
    (l : Lexer) (level open_at : ℕ) (form : LongForm)
    → 2 ≤ level
    → l.pos < length l.source
    → Ensures (Past l) (read_long_bracket l level open_at form)
unfolding read_long_bracket
read_long_bracket-Past l level open_at form g h =
    let inside = skip (record l { buf = [] }) 1 in
    let entered : Past l inside = (refl, omega arith, omega arith) in
    Ensures-bind (Past l) (Past l)
      (if holds is_break (peek inside) then newline inside else ok inside) _
      (elim (Bool-cases (holds is_break (peek inside))) [
        | inl e ↦
            let (byte, b) = holds-peek inside is_break e in
            rw e (onward l inside _ entered (newline-Past inside byte b))
        | inr e ↦ rw e entered
      ])
      (λ m p.
        onward l m _ p (long_body-Past (suc (left m)) m level open_at form g (omega arith) p.2))

pub read_long_string-Spans :
    (l : Lexer) (level start : ℕ)
    → 2 ≤ level
    → l.pos < length l.source
    → Ensures (Spans l start) (read_long_string l level start)
unfolding read_long_string
read_long_string-Spans l level start g h =
    Ensures-bind (Past l) (Spans l start) _ _ (read_long_bracket-Past l level start string g h)
      (λ m p. (p, refl, refl))

skip_line-Ahead :
    (fuel : ℕ) (l : Lexer)
    → left l < fuel
    → l.pos ≤ length l.source
    → Ensures (Ahead l) (skip_line fuel l)
unfolding skip_line
skip_line-Ahead zero l f h = omega arith
skip_line-Ahead (suc fuel) l f h = elim (Option-cases (peek l)) [
  | inl e ↦ rw (e, skip_line) (Ahead-self l h)
  | inr (byte, e) ↦ elim (Bool-cases (is_break byte)) [
    | inl b ↦ rw (e, b, skip_line) (Ahead-self l h)
    | inr b ↦
        let moved = skip-Past l byte e in
        rw (e, b, skip_line)
          (Ensures-map (Ahead (skip l 1)) (Ahead l) _
            (skip_line-Ahead fuel (skip l 1) (left-Past l (skip l 1) fuel moved f) moved.2)
            (λ m a. Ahead-trans l (skip l 1) m (Past-Ahead l (skip l 1) moved) a))
  ]
]

pub skip_comment-Ahead : (l : Lexer) → l.pos ≤ length l.source → Ensures (Ahead l) (skip_comment l)
unfolding skip_comment
skip_comment-Ahead l h = elim (Bool-cases (holds (λ b. b == 91) (peek l))) [
  | inr e ↦ rw (e, skip_comment) (skip_line-Ahead (suc (left l)) l (omega arith) h)
  | inl e ↦
      let (byte, b) = holds-peek l (λ b. b == 91) e in
      rw (e, skip_comment)
        (Ensures-bind (Delimits l) (Ahead l) _ _ (long_bracket_level-Delimits l byte b) (λ r d.
          elim (Bool-cases (leb 2 r.0)) [
            | inl long ↦
                let room : r.1.pos < length r.1.source = d.1 (ground (arith, long)) in
                rw long (
                  Ensures-map (Past r.1) (Ahead l) _
                    (read_long_bracket-Past r.1 r.0 l.pos comment (ground (arith, long)) room)
                    (λ m a. Past-Ahead l m (Ahead-Past l r.1 m (Past-Ahead l r.1 d.0) a)))
            | inr short ↦ rw short (
                Ensures-map (Ahead r.1) (Ahead l) _
                  (skip_line-Ahead (suc (left r.1)) r.1 (omega arith) d.0.2)
                  (λ m a. Ahead-trans l r.1 m (Past-Ahead l r.1 d.0) a))
          ]))
]
