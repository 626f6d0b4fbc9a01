-- ===== src/Syntax/Lexer/Scan.antt =====
-- One token per call: crates/ruta-syntax/src/lexer/scan.rs.
use ruta.Prelude.{
  ℕ, zero, suc, ◌-◌, ◌==◌, true, false, ◌||◌, if◌then◌else◌, Option, none, some, List, take, drop,
  Outcome, ok, err, panic, ◌>>=◌,
}
use ruta.Syntax.Text.{is_break, is_blank, is_digit, is_name_start, is_name_part}
use ruta.Syntax.Token.{
  TokenKind, Token, name, i_div, concat, dots, eq, ge, le, ne, shl, shr, db_colon, byte, eof,
  keyword,
}
use ruta.Syntax.Error.{Error}
use ruta.Syntax.Lexer.Cursor.{
  Lexer, Lexed, skip, left, peek, holds, eat, newline, token, delimiter_error,
}
use ruta.Syntax.Lexer.Long.{long_bracket_level, read_long_string, skip_comment}
use ruta.Syntax.Lexer.Short.{read_string}
use ruta.Syntax.Lexer.Numeral.{read_numeral}

abbrev pub lexed : Lexer → TokenKind → ℕ → Lexed Token
lexed l kind start = ok (token l kind start, l)

-- A symbol of one byte, or of two if `second` follows.
unfoldable pub one_or_two : Lexer → ℕ → ℕ → ℕ → TokenKind → Lexed Token
unfolding eat
one_or_two l start first second kind =
    let (ate, after) = eat (skip l 1) second in
    if ate then lexed after kind start else lexed after (byte first) start

-- The same with another byte that may follow.
unfoldable pub one_of_three : Lexer → ℕ → ℕ → ℕ → TokenKind → ℕ → TokenKind → Lexed Token
unfolding eat
one_of_three l start first second kind other other_kind =
    let (ate, after) = eat (skip l 1) second in
    let (ate_other, after_other) = eat after other in
    if ate
    then lexed after kind start
    else if ate_other
    then lexed after_other other_kind start
    else lexed after_other (byte first) start

-- The loop over the bytes of a name.
unfoldable pub name_bytes : ℕ → Lexer → Outcome Error Lexer
unfolding peek
name_bytes zero l = panic
name_bytes (suc fuel) l = elim (holds is_name_part (peek l)) [
  | true ↦ name_bytes fuel (skip l 1)
  | false ↦ ok l
]

abbrev kind_of_word : List ℕ → Option TokenKind → TokenKind
kind_of_word word none = name word
kind_of_word word (some kind) = kind

unfoldable pub read_name : Lexer → ℕ → Lexed Token
unfolding name_bytes keyword
read_name l start = name_bytes (suc (left l)) l >>= λ after.
    let word = take (after.pos - start) (drop start l.source) in
    lexed after (kind_of_word word (keyword word)) start

unfoldable pub read_bracket : Lexer → ℕ → Lexed Token
unfolding long_bracket_level delimiter_error read_long_string
read_bracket l start = long_bracket_level l >>= λ (level, after).
    if level == 1
    then lexed after (byte 91) start
    else if level == 0
    then err (delimiter_error after start)
    else read_long_string after level start

module _ (read_f64 : List ℕ → Option ℕ) where
  unfoldable pub read_point : Lexer → ℕ → Lexed Token
  unfolding eat peek read_numeral
  read_point l start =
      let (second, after) = eat (skip l 1) 46 in
      let (third, after_third) = eat after 46 in
      if second
      then (if third then lexed after_third dots start else lexed after_third concat start)
      else if holds is_digit (peek after)
      then read_numeral read_f64 after start
      else lexed after (byte 46) start

  -- The branch of `next_token` on a byte that begins a token.
  unfoldable pub read_token : Lexer → ℕ → Lexed Token
  unfolding one_or_two one_of_three read_bracket read_string read_point read_numeral read_name
  read_token l first =
      let start = l.pos in
      if first == 91
      then read_bracket l start
      else if first == 61
      then one_or_two l start 61 61 eq
      else if first == 60
      then one_of_three l start 60 61 le 60 shl
      else if first == 62
      then one_of_three l start 62 61 ge 62 shr
      else if first == 47
      then one_or_two l start 47 47 i_div
      else if first == 126
      then one_or_two l start 126 61 ne
      else if first == 58
      then one_or_two l start 58 58 db_colon
      else if (first == 34) || (first == 39)
      then read_string l first start
      else if first == 46
      then read_point l start
      else if is_digit first
      then read_numeral read_f64 l start
      else if is_name_start first
      then read_name l start
      else lexed (skip l 1) (byte first) start

  -- `next_token`: past blanks, breaks and comments to a token.
  unfoldable pub next_in : ℕ → Lexer → Lexed Token
  unfolding peek newline skip_comment read_token
  next_in zero l = panic
  next_in (suc fuel) l = elim (peek l) [
    | none ↦ lexed l eof l.pos
    | some first ↦ elim (is_break first) [
      | true ↦ newline l >>= λ after. next_in fuel after
      | false ↦ elim (is_blank first) [
        | true ↦ next_in fuel (skip l 1)
        | false ↦ elim (first == 45) [
          | false ↦ read_token l first
          | true ↦ elim (holds (λ b. b == 45) (peek (skip l 1))) [
            | false ↦ lexed (skip l 1) (byte 45) l.pos
            | true ↦ skip_comment (skip l 2) >>= λ after. next_in fuel after
          ]
        ]
      ]
    ]
  ]

  unfoldable pub next_token : Lexer → Lexed Token
  unfolding next_in
  next_token l = next_in (suc (left l)) l
