-- ===== src/Runtime/Value.antt =====
-- One Lua value: crates/ruta-runtime/src/value.rs. A handle is its index.
use Prim.Native.String.{String}
use ruta.Prelude.{ℕ, Bool, true, false}
use ruta.Prelude.Int.{ℤ}

pub data Value : Type 0 where
  nil : Value
  bool : Bool → Value
  int : ℤ → Value
  float : ℕ → Value
  str table func user_data thread : ℕ → Value

-- `Value::type_name`
unfoldable pub type_name : Value → String
type_name nil = "nil"
type_name (bool flag) = "boolean"
type_name (int number) = "number"
type_name (float number) = "number"
type_name (str handle) = "string"
type_name (table handle) = "table"
type_name (func handle) = "function"
type_name (user_data handle) = "userdata"
type_name (thread handle) = "thread"

-- `Value::is_truthy`
unfoldable pub is_truthy : Value → Bool
is_truthy nil = false
is_truthy (bool false) = false
is_truthy _ = true

-- `matches!(value, Value::Nil)`
abbrev pub is_nil : Value → Bool
is_nil nil = true
is_nil _ = false
