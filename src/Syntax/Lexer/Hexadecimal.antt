-- ===== src/Syntax/Lexer/Hexadecimal.antt =====
-- Hexadecimal numerals: the second half of crates/ruta-syntax/src/lexer/number.rs.
-- A `u64` and a count of bits are words; an `i32` exponent is an integer in range, whose sums wrap
-- around, as they do in a release build.
use ruta.Prelude.{
  ℕ, ◌+◌, ◌-◌, ◌*◌, ◌/◌, ◌%◌, ◌^◌, ◌==◌, ltb, leb, min, Bool, true, false, ◌&&◌, ◌||◌, not,
  if◌then◌else◌, Option, none, some, List, [], ◌∷◌,
}
use ruta.Prelude.Int.{ℤ, pos, negsuc, pos_part, sub_ℕ, ltb_ℤ, leb_ℤ, wrap_32, ◌+ℤ◌, ◌-ℤ◌}
use ruta.Runtime.Table.Size.{ilog2}
use ruta.Syntax.Text.{is_digit, is_hex_digit, hex_value}

abbrev pub all_bytes : (ℕ → Bool) → List ℕ → Bool
all_bytes test [] = true
all_bytes test (byte ∷ bytes) = test byte && all_bytes test bytes

-- The loop of `hexadecimal_value`.
unfoldable pub hex_digits : ℕ → List ℕ → ℕ
unfolding hex_value
hex_digits value [] = value
hex_digits value (byte ∷ bytes) = hex_digits ((value * 16 + hex_value byte) % 2 ^ 64) bytes

-- `drop_low_bits`
unfoldable pub drop_low_bits : ℕ → ℕ → ℕ × Bool × Bool
drop_low_bits value count =
    if count == 0
    then (value, false, false)
    else if leb 65 count
    then (0, false, not (value == 0))
    else if count == 64
    then (0, value / 2 ^ 63 % 2 == 1, not (value % 2 ^ 63 == 0))
    else (
      value / 2 ^ count,
      value / 2 ^ (count - 1) % 2 == 1,
      ltb 1 count && not (value % 2 ^ (count - 1) == 0),
    )

-- What `scaled` works on: the mantissa, the exponent, the bit below and whether any is set below it.
pub record Scaling : Type 0 where
  pub mantissa : ℕ
  pub exponent : ℤ
  pub round : Bool
  pub sticky : Bool

-- `64 - mantissa.leading_zeros()`, of a mantissa other than 0.
abbrev pub bit_count : ℕ → ℕ
bit_count mantissa = ilog2 mantissa + 1

-- The step of `scaled` to 53 bits.
unfoldable pub to_53_bits : ℕ → ℤ → Bool → Scaling
unfolding drop_low_bits wrap_32 ◌+ℤ◌ ◌-ℤ◌
to_53_bits mantissa scale sticky =
    let bits = bit_count mantissa in
    let (value, dropped, lost) = drop_low_bits mantissa (bits - 53) in
    if ltb 53 bits
    then record {
      mantissa = value;
      exponent = wrap_32 (scale +ℤ pos (bits - 53));
      round = dropped;
      sticky = sticky || lost;
    }
    else record {
      mantissa = mantissa * 2 ^ (53 - bits);
      exponent = wrap_32 (scale -ℤ pos (53 - bits));
      round = false;
      sticky = sticky;
    }

-- The step of `scaled` below the smallest normal.
unfoldable pub to_subnormal : Scaling → Scaling
unfolding drop_low_bits ◌-ℤ◌
to_subnormal s =
    let (value, dropped, lost) = drop_low_bits s.mantissa (pos_part (negsuc 1073 -ℤ s.exponent)) in
    if ltb_ℤ s.exponent (negsuc 1073)
    then record {
      mantissa = value;
      exponent = negsuc 1073;
      round = dropped;
      sticky = s.sticky || s.round || lost;
    }
    else s

-- The step of `scaled` that rounds, to even on a tie.
unfoldable pub round_up : Scaling → Scaling
unfolding wrap_32 ◌+ℤ◌
round_up s =
    let up = s.mantissa + 1 in
    if s.round && (s.sticky || (s.mantissa % 2 == 1))
    then (if up / 2 ^ 53 == 0
        then record s { mantissa = up }
        else record s { mantissa = up / 2; exponent = wrap_32 (s.exponent +ℤ pos 1) })
    else s

-- The end of `scaled`: the bits of the float.
unfoldable pub assemble : ℕ → ℤ → ℕ
unfolding wrap_32 ◌+ℤ◌
assemble mantissa exponent =
    if mantissa == 0
    then 0
    else if bit_count mantissa == 53
    then (let field = wrap_32 (exponent +ℤ pos 1075) in
        if leb_ℤ (pos 2047) field
        then 2047 * 2 ^ 52
        else pos_part field * 2 ^ 52 + mantissa % 2 ^ 52)
    else mantissa

-- `scaled`
unfoldable pub scaled : ℕ → ℤ → Bool → ℕ
unfolding to_53_bits to_subnormal round_up assemble
scaled mantissa scale sticky =
    let s = round_up (to_subnormal (to_53_bits mantissa scale sticky)) in
    if mantissa == 0 then 0 else assemble s.mantissa s.exponent

-- The loop of `binary_exponent`, which caps the value at 2^20.
unfoldable pub exponent_digits : ℕ → List ℕ → Option ℕ
exponent_digits value [] = some value
exponent_digits value (byte ∷ bytes) =
    let rest = exponent_digits (min (value * 10 + (byte - 48)) (2 ^ 20)) bytes in
    if is_digit byte then rest else none

abbrev pub signed : Bool → Option ℕ → Option ℤ
signed negative none = none
signed true (some value) = some (sub_ℕ 0 value)
signed false (some value) = some (pos value)

abbrev pub some_digits : List ℕ → Option ℕ
unfolding exponent_digits
some_digits [] = none
some_digits (byte ∷ bytes) = exponent_digits 0 (byte ∷ bytes)

-- `binary_exponent`
unfoldable pub binary_exponent : List ℕ → Option ℤ
unfolding exponent_digits
binary_exponent [] = none
binary_exponent (mark ∷ []) = none
binary_exponent (mark ∷ sign ∷ digits) =
    if not ((mark == 112) || (mark == 80))
    then none
    else if sign == 43
    then signed false (some_digits digits)
    else if sign == 45
    then signed true (some_digits digits)
    else signed false (some_digits (sign ∷ digits))

-- What the loop of `hexadecimal_float` keeps.
pub record Reading : Type 0 where
  pub mantissa : ℕ
  pub scale : ℤ
  pub sticky : Bool
  pub digits : ℕ
  pub fraction : Bool

-- One hex digit of `hexadecimal_float`.
unfoldable pub read_digit : Reading → ℕ → Reading
unfolding hex_value wrap_32 ◌+ℤ◌ ◌-ℤ◌
read_digit r byte =
    if leb r.mantissa ((2 ^ 64 - 1) / 2 ^ 4)
    then record r {
      mantissa = r.mantissa * 2 ^ 4 + hex_value byte;
      scale = (if r.fraction then wrap_32 (r.scale -ℤ pos 4) else r.scale);
      digits = r.digits + 1;
    }
    else record r {
      sticky = r.sticky || not (byte == 48);
      scale = (if r.fraction then r.scale else wrap_32 (r.scale +ℤ pos 4));
      digits = r.digits + 1;
    }

-- The loop of `hexadecimal_float`: what it read, and the text from the byte that ended it.
unfoldable pub read_digits : Reading → List ℕ → Option (Reading × List ℕ)
unfolding read_digit
read_digits r [] = some (r, [])
read_digits r (byte ∷ bytes) = elim (byte == 46) [
  | true ↦ elim r.fraction [
    | true ↦ none
    | false ↦ read_digits (record r { fraction = true }) bytes
  ]
  | false ↦ elim (is_hex_digit byte) [
    | true ↦ read_digits (read_digit r byte) bytes
    | false ↦ some (r, byte ∷ bytes)
  ]
]

abbrev pub nothing_read : Reading
nothing_read = record { mantissa = 0; scale = pos 0; sticky = false; digits = 0; fraction = false }

-- `checked_add` of two `i32`s.
unfoldable pub checked_add : ℤ → ℤ → Option ℤ
unfolding ◌+ℤ◌
checked_add a b =
    if leb_ℤ (negsuc (2 ^ 31 - 1)) (a +ℤ b) && ltb_ℤ (a +ℤ b) (pos (2 ^ 31))
    then some (a +ℤ b)
    else none

-- The end of `hexadecimal_float`.
unfoldable pub with_exponent : Reading → List ℕ → Option ℕ
unfolding scaled binary_exponent checked_add
with_exponent r [] = some (scaled r.mantissa r.scale r.sticky)
with_exponent r (byte ∷ bytes) = elim (binary_exponent (byte ∷ bytes)) [
  | none ↦ none
  | some exponent ↦ elim (checked_add r.scale exponent) [
    | none ↦ none
    | some scale ↦ some (scaled r.mantissa scale r.sticky)
  ]
]

-- `hexadecimal_float`
unfoldable pub hexadecimal_float : List ℕ → Option ℕ
unfolding read_digits with_exponent
hexadecimal_float text = elim (read_digits nothing_read text) [
  | none ↦ none
  | some (r, rest) ↦ if r.digits == 0 then none else with_exponent r rest
]
