-- ===== src/Syntax/Lexer/Numeral.antt =====
-- Numerals: crates/ruta-syntax/src/lexer/number.rs.
-- `read_f64` is what `str::from_utf8(text).ok()?.parse::<f64>().ok()` answers, as the float's bits.
use ruta.Prelude.{
  ℕ, zero, suc, ◌+◌, ◌-◌, ◌*◌, ◌^◌, ◌==◌, ltb, Bool, true, false, ◌&&◌, ◌||◌, if◌then◌else◌, Option,
  none, some, List, [], ◌∷◌, take, drop, Outcome, ok, err, panic, ◌>>=◌,
}
use ruta.Prelude.Int.{pos, negsuc, of_word}
use ruta.Runtime.Arith.{Num, int_num, float_num, wrapping_neg}
use ruta.Runtime.Float.{neg}
use ruta.Syntax.Text.{as_u32, is_digit, is_hex_digit, is_name_start, is_blank, is_break}
use ruta.Syntax.Token.{TokenKind, Token, int, float}
use ruta.Syntax.Error.{Error, malformed_number, buffer}
use ruta.Syntax.Lexer.Cursor.{Lexer, Lexed, skip, left, peek, holds, token}
use ruta.Syntax.Lexer.Hexadecimal.{all_bytes, hex_digits, hexadecimal_float}

-- `hexadecimal_value`, after the `0x`.
unfoldable pub hexadecimal_value : List ℕ → Option Num
unfolding hex_digits hexadecimal_float
hexadecimal_value [] = none
hexadecimal_value (byte ∷ bytes) =
    if all_bytes is_hex_digit (byte ∷ bytes)
    then some (int_num (of_word (2 ^ 63) (hex_digits 0 (byte ∷ bytes))))
    else elim (hexadecimal_float (byte ∷ bytes)) [ none ↦ none | some bits ↦ some (float_num bits) ]

-- The number that decimal digits write.
unfoldable pub digits_value : ℕ → List ℕ → ℕ
digits_value value [] = value
digits_value value (byte ∷ bytes) = digits_value (10 * value + (byte - 48)) bytes

-- `text.parse::<u64>()` and `text.parse::<i64>()` of digits, of which there must be one, below a bound.
unfoldable pub parse_below : ℕ → List ℕ → Option ℕ
unfolding digits_value
parse_below bound [] = none
parse_below bound (byte ∷ bytes) =
    let value = digits_value 0 (byte ∷ bytes) in if ltb value bound then some value else none

abbrev pub kind_of : Num → TokenKind
kind_of (int_num value) = int value
kind_of (float_num bits) = float bits

-- The loop of `read_numeral`.
unfoldable pub numeral_bytes : ℕ → Lexer → Bool → Outcome Error Lexer
unfolding peek
numeral_bytes zero l hexadecimal = panic
numeral_bytes (suc fuel) l hexadecimal = elim (peek l) [
  | none ↦ ok l
  | some byte ↦
      elim (if hexadecimal then (byte == 112) || (byte == 80) else (byte == 101) || (byte == 69)) [
        | true ↦
            numeral_bytes fuel
              (skip l (if holds (λ b. (b == 43) || (b == 45)) (peek (skip l 1)) then 2 else 1))
              hexadecimal
        | false ↦ elim (is_hex_digit byte || (byte == 46)) [
          | true ↦ numeral_bytes fuel (skip l 1) hexadecimal
          | false ↦ ok l
        ]
      ]
]

abbrev is_space : ℕ → Bool
is_space byte = is_blank byte || is_break byte

-- `trim`
unfoldable pub trim_start : List ℕ → List ℕ
trim_start [] = []
trim_start (byte ∷ bytes) =
    let rest = trim_start bytes in if is_space byte then rest else byte ∷ bytes

abbrev keep : ℕ → List ℕ → List ℕ
keep byte [] = if is_space byte then [] else byte ∷ []
keep byte (next ∷ rest) = byte ∷ next ∷ rest

unfoldable pub trim_end : List ℕ → List ℕ
trim_end [] = []
trim_end (byte ∷ bytes) = keep byte (trim_end bytes)

-- The sign at the start of a text.
unfoldable pub split_sign : List ℕ → Bool × List ℕ
split_sign [] = (false, [])
split_sign (byte ∷ bytes) =
    if byte == 45
    then (true, bytes)
    else if byte == 43
    then (false, bytes)
    else (false, byte ∷ bytes)

unfoldable pub negated : Bool → Num → Num
unfolding wrapping_neg neg
negated false number = number
negated true (int_num value) = int_num (wrapping_neg value)
negated true (float_num bits) = float_num (neg bits)

abbrev is_least : Option ℕ → Bool
is_least none = false
is_least (some value) = value == 2 ^ 63

-- Neither a digit nor a point at the start.
abbrev not_numeral : List ℕ → Bool
not_numeral [] = true
not_numeral (byte ∷ bytes) = if is_digit byte || (byte == 46) then false else true

module _ (read_f64 : List ℕ → Option ℕ) where
  abbrev float_value : List ℕ → Option Num
  float_value text = elim (read_f64 text) [ none ↦ none | some bits ↦ some (float_num bits) ]

  -- `decimal_value`
  unfoldable pub decimal_value : List ℕ → Option Num
  unfolding parse_below
  decimal_value text =
      if all_bytes is_digit text
      then elim (parse_below (2 ^ 63) text) [
        | some value ↦ some (int_num (pos value))
        | none ↦ float_value text
      ]
      else float_value text

  -- `numeral_value`
  unfoldable pub numeral_value : List ℕ → Option Num
  unfolding hexadecimal_value decimal_value
  numeral_value [] = decimal_value []
  numeral_value (a ∷ []) = decimal_value (a ∷ [])
  numeral_value (a ∷ b ∷ rest) =
      if (a == 48) && ((b == 120) || (b == 88))
      then hexadecimal_value rest
      else decimal_value (a ∷ b ∷ rest)

  -- `read_numeral`
  unfoldable pub read_numeral : Lexer → ℕ → Lexed Token
  unfolding peek numeral_bytes numeral_value
  read_numeral l start =
      let hexadecimal =
        holds (λ b. b == 48) (peek l) && holds (λ b. (b == 120) || (b == 88)) (peek (skip l 1)) in
      let first = skip l (if hexadecimal then 2 else 1) in
      numeral_bytes (suc (left first)) first hexadecimal >>= λ body.
      let ended = skip body (if holds is_name_start (peek body) then 1 else 0) in
      let text = take (ended.pos - start) (drop start l.source) in
      elim (numeral_value text) [
        | some number ↦ ok (token ended (kind_of number) start, ended)
        | none ↦ err (record { kind = malformed_number; at = as_u32 start; near = buffer text })
      ]

  -- `parse_number`
  unfoldable pub parse_number : List ℕ → Option Num
  unfolding trim_start trim_end split_sign parse_below numeral_value negated
  parse_number text =
      let (negative, digits) = split_sign (trim_end (trim_start text)) in
      if not_numeral digits
      then none
      else if negative && all_bytes is_digit digits && is_least (parse_below (2 ^ 64) digits)
      then some (int_num (negsuc (2 ^ 63 - 1)))
      else elim (numeral_value digits) [
        | none ↦ none
        | some number ↦ some (negated negative number)
      ]
