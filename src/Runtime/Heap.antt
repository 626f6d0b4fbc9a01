-- ===== src/Runtime/Heap.antt =====
-- The arena of objects: crates/ruta-runtime/src/heap/arena.rs, with the objects of string.rs,
-- function.rs and proto.rs. A handle is its index.
pub mod Strings
pub mod Load
pub mod Probing
pub mod Interned
pub mod Growing
pub mod Finding
pub mod Room
pub mod Canonical
pub mod Many
pub mod Loading
pub mod LoadRuns
mod Tests
use ruta.Prelude.{
  ℕ, ◌+◌, ◌-◌, ◌%◌, ◌^◌, ◌==◌, Option, none, some, List, [], ◌∷◌, ◌++◌, length, get_elem?, set,
  take, Outcome, ok, err, panic, ◌>>=◌,
}
use ruta.Bytecode.Prototype.{Body}
use ruta.Runtime.Value.{Value}
use ruta.Runtime.Table.{Table, with_hints}

-- What a method of the heap answers: a value or a panic.
abbrev pub Run : Type 0 → Type 0
Run A = Outcome ⊥ A

-- Bytes and a NUL after them.
pub record LuaStr : Type 0 where
  pub storage : List ℕ
  pub hash : ℕ

-- A host function is the address it is called at.
pub data Function : Type 0 where
  lua : (proto : ℕ) (upvals : List ℕ) → Function
  native : (name : ℕ) (call : ℕ) → Function

pub data Upvalue : Type 0 where
  open_at : ℕ → Upvalue
  closed : Value → Upvalue

pub record Proto : Type 0 where
  pub body : Body
  pub constants : List Value
  pub children : List ℕ
  pub source : ℕ

pub data Object : Type 0 where
  str_object : LuaStr → Object
  table_object : Table → Object
  proto_object : Proto → Object
  func_object : Function → Object
  upval_object : Upvalue → Object

pub record Heap : Type 0 where
  pub objects : List Object
  pub interned : List (Option ℕ)
  pub interned_len : ℕ

-- `Heap::default()`
abbrev pub empty : Heap
empty = record { objects = []; interned = []; interned_len = 0 }

-- The handle of the object that was pushed last: `self.objects.len() as u32 - 1`.
abbrev pub last_handle : List Object → ℕ
last_handle objects = (length objects % 2 ^ 32 + (2 ^ 32 - 1)) % 2 ^ 32

-- `push_string`, `push_proto`, `push_func` and `push_upvalue`
abbrev pub push : Heap → Object → ℕ × Heap
push h object =
    let objects = h.objects ++ (object ∷ []) in
    (last_handle objects, record h { objects = objects })

-- `new_table`
unfoldable pub new_table : Heap → ℕ → ℕ → ℕ × Heap
unfolding with_hints
new_table h array_hint hash_hint = push h (table_object (with_hints array_hint hash_hint))

abbrev pub string_of : Option Object → Run LuaStr
string_of (some (str_object text)) = ok text
string_of _ = panic

-- `string`
abbrev pub string : Heap → ℕ → Run LuaStr
string h handle = string_of (get_elem? h.objects handle)

abbrev pub proto_of : Option Object → Run Proto
proto_of (some (proto_object body)) = ok body
proto_of _ = panic

-- `proto`
abbrev pub proto : Heap → ℕ → Run Proto
proto h handle = proto_of (get_elem? h.objects handle)

abbrev func_of : Option Object → Run Function
func_of (some (func_object function)) = ok function
func_of _ = panic

-- `func`
abbrev pub func : Heap → ℕ → Run Function
func h handle = func_of (get_elem? h.objects handle)

abbrev pub upvalue_of : Option Object → Run Upvalue
upvalue_of (some (upval_object cell)) = ok cell
upvalue_of _ = panic

-- `upvalue`
abbrev pub upvalue : Heap → ℕ → Run Upvalue
upvalue h handle = upvalue_of (get_elem? h.objects handle)

abbrev table_of : Option Object → Run Table
table_of (some (table_object body)) = ok body
table_of _ = panic

-- `table`
abbrev pub table : Heap → ℕ → Run Table
table h handle = table_of (get_elem? h.objects handle)

abbrev write : Heap → ℕ → Object → Heap
write h handle object = record h { objects = set h.objects handle object }

-- `take_table`, which leaves an empty table
unfoldable pub take_table : Heap → ℕ → Run (Table × Heap)
take_table h handle = table h handle >>= λ body.
    ok (body, write h handle (table_object (record { array = []; nodes = []; free = 0 })))

-- `put_table`
unfoldable pub put_table : Heap → ℕ → Table → Run Heap
put_table h handle body = table h handle >>= λ held. ok (write h handle (table_object body))

-- `put_upvalue`
unfoldable pub put_upvalue : Heap → ℕ → Upvalue → Run Heap
put_upvalue h handle cell = upvalue h handle >>= λ held. ok (write h handle (upval_object cell))
