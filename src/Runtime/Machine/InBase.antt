-- ===== src/Runtime/Machine/InBase.antt =====
-- Numerals in a base: `in_base` of crates/ruta-runtime/src/vm/base.rs.
use ruta.Prelude.{
  ℕ, ◌-◌, Bool, true, false, ◌||◌, ltb, ◌==◌, if◌then◌else◌, Option, none, some, List, [], ◌∷◌,
}
use ruta.Prelude.Int.{ℤ, pos, wrap, ◌+ℤ◌, ◌*ℤ◌}
use ruta.Runtime.Arith.{wrapping_neg}
use ruta.Syntax.Text.{is_digit, is_lower, is_upper}

-- `space`
abbrev pub is_space : ℕ → Bool
is_space byte =
    (byte == 32) || (byte == 9) || (byte == 10) || (byte == 11) || (byte == 12) || (byte == 13)

-- From the first byte that is no space.
unfoldable pub trim_front : List ℕ → List ℕ
trim_front [] = []
trim_front (byte ∷ bytes) =
    let later = trim_front bytes in if is_space byte then later else byte ∷ bytes

-- To the last byte that is no space.
unfoldable pub trim_back : List ℕ → List ℕ
trim_back [] = []
trim_back (byte ∷ bytes) = elim (trim_back bytes) [
  | [] ↦ if is_space byte then [] else byte ∷ []
  | next ∷ rest ↦ byte ∷ next ∷ rest
]

abbrev pub sign_of : List ℕ → Bool × List ℕ
sign_of [] = (false, [])
sign_of (byte ∷ bytes) =
    if byte == 45
    then (true, bytes)
    else if byte == 43
    then (false, bytes)
    else (false, byte ∷ bytes)

-- `to_digit(36)`
abbrev pub to_digit : ℕ → Option ℕ
to_digit byte =
    if is_digit byte
    then some (byte - 48)
    else if is_lower byte
    then some (byte - 87)
    else if is_upper byte
    then some (byte - 55)
    else none

-- The loop of `in_base`.
unfoldable pub read_digits : ℕ → ℤ → List ℕ → Option ℤ
unfolding wrap ◌+ℤ◌ ◌*ℤ◌
read_digits base value [] = some value
read_digits base value (byte ∷ bytes) = elim (to_digit byte) [
  | none ↦ none
  | some digit ↦ elim (ltb digit base) [
    | false ↦ none
    | true ↦ read_digits base (wrap (wrap (value *ℤ pos base) +ℤ pos digit)) bytes
  ]
]

unfoldable pub negated : Bool → Option ℤ → Option ℤ
unfolding wrapping_neg
negated negative none = none
negated true (some value) = some (wrapping_neg value)
negated false (some value) = some value

unfoldable pub in_digits : ℕ → Bool → List ℕ → Option ℤ
unfolding read_digits wrapping_neg
in_digits base negative [] = none
in_digits base negative (byte ∷ bytes) = negated negative (read_digits base (pos 0) (byte ∷ bytes))

-- `in_base`
unfoldable pub in_base : List ℕ → ℕ → Option ℤ
unfolding trim_front trim_back read_digits wrapping_neg
in_base text base =
    let (negative, digits) = sign_of (trim_back (trim_front text)) in in_digits base negative digits
