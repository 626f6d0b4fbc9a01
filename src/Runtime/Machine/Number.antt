-- ===== src/Runtime/Machine/Number.antt =====
-- The text of a float: crates/ruta-runtime/src/number.rs.
use ruta.Prelude.{
  ℕ, ◌+◌, ◌-◌, ◌^◌, Bool, true, false, ◌&&◌, ◌||◌, not, ltb, leb, ◌==◌, if◌then◌else◌, Option, none,
  some, List, [], ◌∷◌, ◌++◌, ok, expect, ◌>>=◌,
}
use ruta.Prelude.Int.{ℤ, pos, negsuc}
use ruta.Runtime.Float.{exponent, is_nan}
use ruta.Runtime.Table.Key.{float_eq}
use ruta.Runtime.Heap.{Run}
use ruta.Syntax.Text.{codes, decimal, decimal_in, is_digit}
use ruta.Runtime.Machine.{Host}

-- `is_sign_negative`
abbrev pub is_sign_negative : ℕ → Bool
is_sign_negative bits = leb (2 ^ 63) bits

-- `is_infinite`
unfoldable pub is_infinite : ℕ → Bool
unfolding exponent is_nan
is_infinite bits = exponent bits == 2047 && not (is_nan bits)

-- `nan`
abbrev pub nan : ℕ → List ℕ
nan bits = if is_sign_negative bits then codes "-nan" else codes "nan"

-- `split_once` at a byte
unfoldable split_once : ℕ → List ℕ → Option (List ℕ × List ℕ)
split_once mark [] = none
split_once mark (byte ∷ bytes) =
    let later = split_once mark bytes in
    if byte == mark
    then some ([], bytes)
    else elim later [ none ↦ none | some (before, after) ↦ some (byte ∷ before, after) ]

-- `contains`
unfoldable has_byte : ℕ → List ℕ → Bool
has_byte mark [] = false
has_byte mark (byte ∷ bytes) = (byte == mark) || has_byte mark bytes

-- `trim_end_matches` of a byte
unfoldable trim_end : ℕ → List ℕ → List ℕ
trim_end mark [] = []
trim_end mark (byte ∷ bytes) = elim (trim_end mark bytes) [
  | [] ↦ if byte == mark then [] else byte ∷ []
  | next ∷ rest ↦ byte ∷ next ∷ rest
]

-- `trim`
unfoldable trim : List ℕ → List ℕ
unfolding has_byte trim_end
trim text = if has_byte 46 text then trim_end 46 (trim_end 48 text) else text

-- `{:02}`
unfoldable pub two_digits : ℕ → List ℕ
unfolding decimal_in
two_digits n = if ltb n 10 then 48 ∷ decimal n else decimal n

-- The choice of `general` between the two notations.
unfoldable notation : Host → ℕ → ℕ → List ℕ → ℤ → List ℕ
unfolding trim
notation host value digits mantissa (pos n) =
    if leb digits n
    then trim mantissa ++ (codes "e+" ++ two_digits n)
    else trim (host.fixed (digits - 1 - n) value)
notation host value digits mantissa (negsuc n) =
    if leb 4 n
    then trim mantissa ++ (codes "e-" ++ two_digits (n + 1))
    else trim (host.fixed (digits - 1 + (n + 1)) value)

-- `general`
unfoldable general : Host → ℕ → ℕ → Run (List ℕ)
unfolding split_once notation
general host value digits = do
  (mantissa, written) ← expect (split_once 101 (host.scientific (digits - 1) value))
  power ← expect (host.read_i32 written)
  ok (notation host value digits mantissa power)

-- `text.parse::<f64>() == Ok(value)`
unfoldable pub reads_back : Host → List ℕ → ℕ → Bool
unfolding float_eq
reads_back host text value = elim (host.read_f64 text) [
  | none ↦ false
  | some bits ↦ float_eq bits value
]

abbrev pub is_whole_text : List ℕ → Bool
is_whole_text [] = true
is_whole_text (byte ∷ bytes) = ((byte == 45) || is_digit byte) && is_whole_text bytes

abbrev pub pointed : List ℕ → List ℕ
pointed text = if is_whole_text text then text ++ codes ".0" else text

-- `float`
unfoldable pub float : Host → ℕ → Run (List ℕ)
unfolding is_nan general
float host value =
    if is_nan value
    then ok (nan value)
    else if is_infinite value
    then ok (if is_sign_negative value then codes "-inf" else codes "inf")
    else (general host value 15 >>= λ short.
        if reads_back host short value
        then ok (pointed short)
        else (general host value 17 >>= λ long. ok (pointed long)))

-- `to_string` of an `i64`
unfoldable pub integer : ℤ → List ℕ
unfolding decimal_in
integer (pos n) = decimal n
integer (negsuc n) = 45 ∷ decimal (n + 1)
