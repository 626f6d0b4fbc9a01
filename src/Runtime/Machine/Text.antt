-- ===== src/Runtime/Machine/Text.antt =====
-- What `tostring` answers, and how a chunk names itself: crates/ruta-runtime/src/vm/text.rs and
-- vm/error.rs, with `to_number` and `message` of vm/state.rs.
use ruta.Prelude.{
  ℕ, zero, suc, ◌+◌, ◌-◌, ◌/◌, ◌%◌, true, false, ltb, leb, ◌==◌, if◌then◌else◌, Option, none, some,
  List, [], ◌∷◌, ◌++◌, length, take, drop, ok, panic, ◌>>=◌,
}
use ruta.Runtime.Value.{
  Value, nil, bool, int, float, str, table, func, user_data, thread, type_name,
}
use ruta.Runtime.Arith.{Num, int_num, float_num}
use ruta.Runtime.Heap.{Run, Heap}
use ruta.Runtime.Heap.Strings.{bytes_at}
use ruta.Syntax.Text.{codes}
use ruta.Syntax.Lexer.Numeral.{parse_number}
use ruta.Runtime.Machine.{Host, Vm}
use ruta.Runtime.Machine.Number as Number

-- `SHOWN`
abbrev pub shown : ℕ
shown = 59

-- `chunk`
unfoldable pub chunk : List ℕ → Run (List ℕ)
chunk [] = panic
chunk (mark ∷ rest) =
    if leb (length rest) shown
    then ok rest
    else if mark == 64
    then ok (codes "..." ++ drop (length rest - (shown - 3)) rest)
    else ok (take shown rest)

-- `address`
abbrev address : Value → ℕ
address (table handle) = handle
address (func handle) = handle
address (user_data handle) = handle
address (thread handle) = handle
address _ = 0

abbrev hex_digit : ℕ → ℕ
hex_digit n = if ltb n 10 then 48 + n else 87 + n

-- So many hexadecimal digits of a number.
unfoldable hex_digits : ℕ → ℕ → List ℕ
hex_digits zero n = []
hex_digits (suc count) n = hex_digits count (n / 16) ++ (hex_digit (n % 16) ∷ [])

-- `of`; a handle is a `u32`, so its digits fit in the width of `{:#014x}`.
unfoldable pub of : Host → Heap → Value → Run (List ℕ)
unfolding Number.float hex_digits type_name
of host heap nil = ok (codes "nil")
of host heap (bool true) = ok (codes "true")
of host heap (bool false) = ok (codes "false")
of host heap (int number) = ok (Number.integer number)
of host heap (float number) = Number.float host number
of host heap (str handle) = bytes_at heap handle
of host heap other = ok (codes (type_name other) ++ (codes ": 0x" ++ hex_digits 12 (address other)))

-- `message`, on the value of an error.
unfoldable pub message : Host → Vm → Value → Run (List ℕ)
unfolding of type_name
message host vm (str handle) = of host vm.heap (str handle)
message host vm (int number) = of host vm.heap (int number)
message host vm (float number) = of host vm.heap (float number)
message host vm other =
    ok (codes "(error object is a " ++ (codes (type_name other) ++ codes " value)"))

abbrev value_of : Option Num → Option Value
value_of none = none
value_of (some (int_num number)) = some (int number)
value_of (some (float_num number)) = some (float number)

-- `to_number`
unfoldable pub to_number : Host → Heap → Value → Run (Option Value)
unfolding parse_number
to_number host heap (int number) = ok (some (int number))
to_number host heap (float number) = ok (some (float number))
to_number host heap (str handle) =
    bytes_at heap handle >>= λ bytes. ok (value_of (parse_number host.read_f64 bytes))
to_number host heap _ = ok none
