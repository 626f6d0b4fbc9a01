-- ===== src/Syntax/Text.antt =====
-- Bytes of text: literals as bytes, classes of bytes, equality, and numbers in decimal.
-- Classes: crates/ruta-syntax/src/lexer/bytes.rs, and the methods of `u8` that the lexer calls.
use Prim.Native.Char.{code}
use Prim.Native.String.{String}
use ruta.Prelude.{
  ◌^◌, ◌%◌, ℕ, zero, suc, ◌+◌, ◌-◌, ◌/◌, ◌%◌, Bool, ◌&&◌, ◌||◌, leb, ltb, ◌==◌, if◌then◌else◌, List,
  [], ◌∷◌, ◌++◌,
}

-- The bytes of an ASCII literal.
abbrev pub codes : String → List ℕ
codes String.[] = []
codes (String.◌∷◌ c s) = code c ∷ codes s

abbrev pub is_digit : ℕ → Bool
is_digit byte = leb 48 byte && leb byte 57

abbrev pub is_lower : ℕ → Bool
is_lower byte = leb 97 byte && leb byte 122

abbrev pub is_upper : ℕ → Bool
is_upper byte = leb 65 byte && leb byte 90

abbrev pub is_hex_digit : ℕ → Bool
is_hex_digit byte = is_digit byte || (leb 97 byte && leb byte 102) || (leb 65 byte && leb byte 70)

abbrev pub is_break : ℕ → Bool
is_break byte = (byte == 10) || (byte == 13)

-- `b' ' | b'\t' | 0x0b | 0x0c`
abbrev pub is_blank : ℕ → Bool
is_blank byte = (byte == 32) || (byte == 9) || (byte == 11) || (byte == 12)

-- `hex_value`, on a hex digit.
unfoldable pub hex_value : ℕ → ℕ
hex_value byte =
    if is_digit byte then byte - 48 else (if is_upper byte then byte + 32 else byte) - 97 + 10

-- `as u32`, which wraps around.
abbrev pub as_u32 : ℕ → ℕ
as_u32 n = n % 2 ^ 32

-- `is_name_start`
abbrev pub is_name_start : ℕ → Bool
is_name_start byte = is_lower byte || is_upper byte || (byte == 95)

-- `is_name_part`
abbrev pub is_name_part : ℕ → Bool
is_name_part byte = is_lower byte || is_upper byte || is_digit byte || (byte == 95)

-- A number as `format!` writes it, of at most `fuel` digits.
unfoldable pub decimal_in : ℕ → ℕ → List ℕ
decimal_in zero n = []
decimal_in (suc fuel) n =
    let front = decimal_in fuel (n / 10) in
    if ltb n 10 then (48 + n) ∷ [] else front ++ ((48 + n % 10) ∷ [])

abbrev pub decimal : ℕ → List ℕ
decimal n = decimal_in 20 n
