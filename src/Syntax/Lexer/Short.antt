-- ===== src/Syntax/Lexer/Short.antt =====
-- Short strings and their escapes: crates/ruta-syntax/src/lexer/string.rs.
use ruta.Prelude.{
  ℕ, zero, suc, ◌+◌, ◌-◌, ◌*◌, ◌/◌, ◌%◌, ◌^◌, ◌==◌, ltb, leb, true, false, ◌||◌, not, if◌then◌else◌,
  Option, none, some, List, [], ◌++◌, length, take, drop, Outcome, ok, err, panic, expect, ◌>>=◌,
}
use ruta.Syntax.Text.{is_break, is_blank, is_digit, is_hex_digit, hex_value}
use ruta.Syntax.Token.{Token, str}
use ruta.Syntax.Error.{
  Error, hexadecimal_digit_expected, missing_open_brace, utf8_value_too_large, missing_close_brace,
  decimal_escape_too_large, unfinished_string, invalid_escape_sequence,
}
use ruta.Syntax.Lexer.Cursor.{
  Lexer, Lexed, skip, left, peek, holds, newline, token, save_and_next, eof_error, buffered,
  escape_error, pop, shorten, push,
}
use ruta.Syntax.Lexer.Utf8.{utf8_encode}

-- `simple_escape`
unfoldable pub simple_escape : ℕ → Option ℕ
simple_escape byte =
    if byte == 97
    then some 7
    else if byte == 98
    then some 8
    else if byte == 102
    then some 12
    else if byte == 110
    then some 10
    else if byte == 114
    then some 13
    else if byte == 116
    then some 9
    else if byte == 118
    then some 11
    else if (byte == 92) || (byte == 34) || (byte == 39)
    then some byte
    else none

-- `put_decoded`
abbrev pub put_decoded : Lexer → ℕ → Lexer
put_decoded l byte = push (pop l) byte

-- `hex_digit`
unfoldable pub hex_digit : Lexer → Lexed ℕ
unfolding save_and_next peek hex_value escape_error
hex_digit l = do
  saved ← save_and_next l
  elim (peek saved) [
    | none ↦ err (escape_error saved hexadecimal_digit_expected)
    | some byte ↦
        if is_hex_digit byte
        then ok (hex_value byte, saved)
        else err (escape_error saved hexadecimal_digit_expected)
  ]

-- `read_hex_escape`
unfoldable pub read_hex_escape : Lexer → Lexed ℕ
unfolding hex_digit
read_hex_escape l = do
  (high, first) ← hex_digit l
  (low, second) ← hex_digit first
  shortened ← shorten (skip second 1) 2
  ok ((high * 2 ^ 4 + low) % 256, shortened)

-- The loop of `read_utf8_escape`.
unfoldable pub utf8_digits : ℕ → Lexer → ℕ → ℕ → Outcome Error (ℕ × ℕ × Lexer)
unfolding save_and_next peek escape_error hex_value
utf8_digits zero l value count = panic
utf8_digits (suc fuel) l value count = save_and_next l >>= λ saved. elim (peek saved) [
  | none ↦ ok (value, count, saved)
  | some digit ↦ elim (is_hex_digit digit) [
    | false ↦ ok (value, count, saved)
    | true ↦ elim (ltb (0x7fffffff / 2 ^ 4) value) [
      | true ↦ err (escape_error saved utf8_value_too_large)
      | false ↦ utf8_digits fuel saved (value * 2 ^ 4 + hex_value digit) (count + 1)
    ]
  ]
]

-- `read_utf8_escape`
unfoldable pub read_utf8_escape : Lexer → Lexed ℕ
unfolding save_and_next peek escape_error hex_digit utf8_digits
read_utf8_escape l = do
  opened ← save_and_next l
  if not (holds (λ b. b == 123) (peek opened))
      then err (escape_error opened missing_open_brace)
      else do
        (first, started) ← hex_digit opened
        (value, saved, ended) ← utf8_digits (suc (left started)) started first 4
        if not (holds (λ b. b == 125) (peek ended))
            then err (escape_error ended missing_close_brace)
            else do shortened ← shorten (skip ended 1) saved; ok (value, shortened)

-- The loop of `read_decimal_escape`, with so many digits to go: the value and the digits read.
unfoldable pub decimal_digits : ℕ → Lexer → ℕ → ℕ → Outcome Error (ℕ × ℕ × Lexer)
unfolding save_and_next peek
decimal_digits zero l value digits = ok (value, digits, l)
decimal_digits (suc more) l value digits = elim (peek l) [
  | none ↦ ok (value, digits, l)
  | some digit ↦ elim (is_digit digit) [
    | false ↦ ok (value, digits, l)
    | true ↦ save_and_next l >>= λ saved.
        decimal_digits more saved (10 * value + (digit - 48)) (digits + 1)
  ]
]

-- `read_decimal_escape`
unfoldable pub read_decimal_escape : Lexer → Lexed ℕ
unfolding decimal_digits escape_error
read_decimal_escape l = do
  (value, digits, read) ← decimal_digits 3 l 0 0
  if ltb 255 value
      then err (escape_error read decimal_escape_too_large)
      else do shortened ← shorten read digits; ok (value % 256, shortened)

-- The loop after `\z`.
unfoldable pub skip_space : ℕ → Lexer → Outcome Error Lexer
unfolding peek newline
skip_space zero l = panic
skip_space (suc fuel) l = elim (peek l) [
  | none ↦ ok l
  | some byte ↦ elim (is_break byte) [
    | true ↦ newline l >>= λ after. skip_space fuel after
    | false ↦ elim (is_blank byte) [ true ↦ skip_space fuel (skip l 1) | false ↦ ok l ]
  ]
]

-- `read_escape`, at the byte after the `\`, which has been saved.
unfoldable pub escaped : Lexer → ℕ → Outcome Error Lexer
unfolding read_hex_escape read_utf8_escape utf8_encode skip_space newline read_decimal_escape
    simple_escape escape_error
escaped l byte =
    if byte == 120
    then (read_hex_escape l >>= λ (value, after). ok (put_decoded after value))
    else if byte == 117
    then (read_utf8_escape l >>= λ (value, after).
        ok (record after { buf = after.buf ++ utf8_encode value }))
    else if byte == 122
    then (let after = skip (pop l) 1 in skip_space (suc (left after)) after)
    else if is_break byte
    then (newline l >>= λ after. ok (put_decoded after 10))
    else if is_digit byte
    then (read_decimal_escape l >>= λ (value, after). ok (put_decoded after value))
    else elim (simple_escape byte) [
      | some decoded ↦ ok (put_decoded (skip l 1) decoded)
      | none ↦ err (escape_error l invalid_escape_sequence)
    ]

-- `read_escape`
unfoldable pub read_escape : Lexer → Outcome Error Lexer
unfolding save_and_next peek escaped
read_escape l = save_and_next l >>= λ saved. elim (peek saved) [
  | none ↦ ok saved
  | some byte ↦ escaped saved byte
]

-- The loop of `read_string`.
unfoldable pub string_body : ℕ → Lexer → ℕ → Outcome Error Lexer
unfolding peek read_escape save_and_next
string_body zero l delimiter = panic
string_body (suc fuel) l delimiter = elim (peek l) [
  | none ↦ err (eof_error l unfinished_string)
  | some byte ↦ elim (byte == delimiter) [
    | true ↦ ok l
    | false ↦ elim (is_break byte) [
      | true ↦ err (buffered l unfinished_string)
      | false ↦ elim (byte == 92) [ true ↦ read_escape l | false ↦ save_and_next l ] >>= λ next.
          string_body fuel next delimiter
    ]
  ]
]

-- `self.buf[1..self.buf.len() - 1]`
abbrev pub inner : List ℕ → Option (List ℕ)
inner bytes = if leb 2 (length bytes) then some (take (length bytes - 2) (drop 1 bytes)) else none

-- `read_string`
unfoldable pub read_string : Lexer → ℕ → ℕ → Lexed Token
unfolding string_body save_and_next
read_string l delimiter start = do
  opened ← save_and_next (record l { buf = [] })
  body ← string_body (suc (left opened)) opened delimiter
  closed ← save_and_next body
  value ← expect (inner closed.buf)
  ok (token closed (str value) start, closed)
