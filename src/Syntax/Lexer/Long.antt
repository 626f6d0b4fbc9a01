-- ===== src/Syntax/Lexer/Long.antt =====
-- Long brackets and comments: crates/ruta-syntax/src/lexer/long.rs.
use ruta.Prelude.{
  ℕ, zero, suc, ◌+◌, ◌-◌, ◌==◌, true, false, if◌then◌else◌, leb, none, some, [], ◌++◌, take, drop,
  Outcome, ok, err, panic, expect, ◌>>=◌,
}
use ruta.Syntax.Text.{as_u32, is_break}
use ruta.Syntax.Token.{Token, str}
use ruta.Syntax.Error.{Error, ErrorKind, unfinished_long_string, unfinished_long_comment}
use ruta.Syntax.Lexer.Cursor.{
  Lexer, Lexed, skip, left, peek, holds, newline, token, eof_error, push,
}

pub data LongForm : Type 0 where
  string comment : LongForm

-- The loop of `long_bracket_level`: the `=` that follow.
unfoldable pub count_equals : ℕ → Lexer → ℕ → Outcome Error (ℕ × Lexer)
unfolding peek
count_equals zero l count = panic
count_equals (suc fuel) l count = elim (holds (λ b. b == 61) (peek l)) [
  | true ↦ count_equals fuel (skip l 1) (count + 1)
  | false ↦ ok (count, l)
]

-- `long_bracket_level`: `count + 2`, 1 or 0.
unfoldable pub long_bracket_level : Lexer → Lexed ℕ
unfolding count_equals peek
long_bracket_level l = do
  opener ← expect (peek l)
  (count, after) ← count_equals (suc (left (skip l 1))) (skip l 1) 0
  ok (
    (if holds (λ b. b == opener) (peek after) then count + 2 else if count == 0 then 1 else 0),
    after,
  )

abbrev pub unfinished : LongForm → ℕ → ErrorKind
unfinished string open_at = unfinished_long_string (as_u32 open_at)
unfinished comment open_at = unfinished_long_comment (as_u32 open_at)

-- The loop of `read_long_bracket`.
unfoldable pub long_body : ℕ → Lexer → ℕ → ℕ → LongForm → Outcome Error Lexer
unfolding long_bracket_level newline peek
long_body zero l level open_at form = panic
long_body (suc fuel) l level open_at form = elim (peek l) [
  | none ↦ err (eof_error l (unfinished form open_at))
  | some byte ↦ elim (byte == 93) [
    | true ↦ long_bracket_level l >>= λ (found, after). elim (found == level) [
      | true ↦ ok (skip after 1)
      | false ↦
          long_body fuel
            (record after { buf = after.buf ++ take (after.pos - l.pos) (drop l.pos l.source) })
            level open_at form
    ]
    | false ↦ elim (is_break byte) [
      | true ↦ newline (push l 10) >>= λ after. long_body fuel after level open_at form
      | false ↦ long_body fuel (skip (push l byte) 1) level open_at form
    ]
  ]
]

-- `read_long_bracket`
unfoldable pub read_long_bracket : Lexer → ℕ → ℕ → LongForm → Outcome Error Lexer
unfolding long_body newline peek
read_long_bracket l level open_at form =
    let inside = skip (record l { buf = [] }) 1 in
    (if holds is_break (peek inside) then newline inside else ok inside) >>= λ body.
    long_body (suc (left body)) body level open_at form

-- `read_long_string`
unfoldable pub read_long_string : Lexer → ℕ → ℕ → Lexed Token
unfolding read_long_bracket
read_long_string l level start = read_long_bracket l level start string >>= λ after.
    ok (token after (str after.buf) start, after)

-- The last loop of `skip_comment`.
unfoldable pub skip_line : ℕ → Lexer → Outcome Error Lexer
unfolding peek
skip_line zero l = panic
skip_line (suc fuel) l = elim (peek l) [
  | none ↦ ok l
  | some byte ↦ elim (is_break byte) [ true ↦ ok l | false ↦ skip_line fuel (skip l 1) ]
]

-- `skip_comment`
unfoldable pub skip_comment : Lexer → Outcome Error Lexer
unfolding peek long_bracket_level read_long_bracket skip_line
skip_comment l =
    if holds (λ b. b == 91) (peek l)
    then (long_bracket_level l >>= λ (level, after).
        if leb 2 level
        then read_long_bracket after level l.pos comment
        else skip_line (suc (left after)) after)
    else skip_line (suc (left l)) l
