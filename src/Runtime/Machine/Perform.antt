-- ===== src/Runtime/Machine/Perform.antt =====
-- What the longer instructions do: the arms of `step` in crates/ruta-runtime/src/vm/dispatch.rs, each
-- as a function of the frame's base and the operands.
use ruta.Prelude.{
  ◌^◌, expect, checked, ℕ, zero, suc, ◌+◌, ◌-◌, Bool, true, false, ltb, ◌==◌, if◌then◌else◌, ◌++◌,
  ok, panic, ◌>>=◌,
}
use ruta.Prelude.Int.{pos}
use ruta.Bytecode.OpCode.{multi}
use ruta.Runtime.Value.{Value, nil, int, str, table}
use ruta.Runtime.Heap.{Run, open_at, closed}
use ruta.Runtime.Heap.Load.{set_upvalue}
use ruta.Runtime.Heap.Strings.{bytes_at}
use ruta.Runtime.Stack as Stack
use ruta.Runtime.Stack.{Stack, Frame, Want, exactly, all, reserve, fill, shift}
use ruta.Syntax.Text.{codes}
use ruta.Runtime.Machine.{Host, Vm, Answer, lift, cell, upvalue, put, pending, settle_top}
use ruta.Runtime.Machine.Raise.{throw, fault}
use ruta.Runtime.Machine.Operators.{table_get, table_set, refused, store}

-- A difference of slots, which is not below 0.
abbrev pub minus : ℕ → ℕ → Run ℕ
minus a b = if ltb a b then panic else ok (a - b)

-- An operand that counts, or reaches up to the frame's top.
abbrev pub count_from : Vm → ℕ → ℕ → Run ℕ
count_from vm count from =
    if count == multi then (pending vm >>= λ top. minus top from) else ok count

abbrev pub want_of : ℕ → Want
want_of results = if results == multi then all else exactly results

-- `GetUpval`
unfoldable pub get_upval : Vm → ℕ → ℕ → Run Vm
unfolding Stack.put
get_upval vm to index = upvalue vm index >>= λ held. elim held [
  | open_at slot ↦ Stack.at vm.stack slot >>= λ value. put vm to value
  | closed value ↦ put vm to value
]

-- `SetUpval`
unfoldable pub set_upval : Vm → ℕ → ℕ → Run Vm
unfolding Stack.put
set_upval vm index from = Stack.at vm.stack from >>= λ value. upvalue vm index >>= λ held.
    elim held [
      | open_at slot ↦ put vm slot value
      | closed old ↦ do
        handle ← cell vm index
        heap ← set_upvalue vm.heap handle (closed value)
        ok (record vm { heap = heap })
    ]

unfoldable pub index_in : Vm → ℕ → Value → Value → ℕ → Answer Vm
unfolding table_get fault Stack.put
index_in vm object (table handle) key to =
    table_get vm handle key >>= λ value. lift (put vm to value)
index_in vm object other key to = fault vm "index" other object

-- `Index`
unfoldable pub index_op : Vm → ℕ → ℕ → ℕ → ℕ → Answer Vm
unfolding table_get fault Stack.put
index_op vm base dest object key = do
  target ← lift (Stack.at vm.stack (base + object))
  name ← lift (Stack.at vm.stack (base + key))
  index_in vm object target name (base + dest)

-- `SetIndex`
unfoldable pub set_index_op : Host → Vm → ℕ → ℕ → ℕ → ℕ → Answer Vm
unfolding store
set_index_op host vm base object key src = do
  target ← lift (Stack.at vm.stack (base + object))
  name ← lift (Stack.at vm.stack (base + key))
  value ← lift (Stack.at vm.stack (base + src))
  store host vm object target name value

-- Whether a global of that name is there, which holds no nil.
unfoldable pub is_defined : Vm → Value → Value → Answer Bool
unfolding table_get
is_defined vm (table handle) key = table_get vm handle key >>= λ value. ok (not_nil value)
  where
    not_nil : Value → Bool
    not_nil nil = false
    not_nil _ = true
is_defined vm _ key = ok false

unfoldable pub defined_error : Host → Vm → Value → Answer Vm
unfolding throw
defined_error host vm (str name) = lift (bytes_at vm.heap name) >>= λ bytes.
    throw vm (codes "global '" ++ (host.lossy bytes ++ codes "' already defined"))
defined_error host vm _ = panic

-- `DefineGlobal`
unfoldable pub define_global_op : Host → Vm → ℕ → ℕ → ℕ → ℕ → Answer Vm
unfolding table_get store throw
define_global_op host vm base env key src = do
  target ← lift (Stack.at vm.stack (base + env))
  name ← lift (Stack.at vm.stack (base + key))
  value ← lift (Stack.at vm.stack (base + src))
  taken ← is_defined vm target name
  if taken then defined_error host vm name else store host vm env target name value

-- The loop of `SetList`, which adds up its indices as `u32`s, and of `SetListSpread`, as `i64`s: they
-- overflow at `limit`.
unfoldable pub set_items : ℕ → ℕ → Host → Vm → ℕ → ℕ → ℕ → Answer Vm
unfolding table_set
set_items limit zero host vm handle from index = ok vm
set_items limit (suc count) host vm handle from index = do
  value ← lift (Stack.at vm.stack from)
  key ← lift (expect (checked limit index))
  after ← table_set host vm handle (int (pos key)) value refused
  set_items limit count host after handle (from + 1) (index + 1)

abbrev pub table_handle : Value → Run ℕ
table_handle (table handle) = ok handle
table_handle _ = panic

-- `SetList`
unfoldable pub set_list_op : Host → Vm → ℕ → ℕ → ℕ → ℕ → ℕ → Answer Vm
unfolding set_items
set_list_op host vm base reg first count first_index = do
  target ← lift (Stack.at vm.stack (base + reg))
  handle ← lift (table_handle target)
  set_items (2 ^ 32) count host vm handle (base + first) first_index

-- `SetListSpread`
unfoldable pub set_list_spread_op : Host → Vm → ℕ → ℕ → ℕ → ℕ → Answer Vm
unfolding set_items
set_list_spread_op host vm base reg first first_index = do
  target ← lift (Stack.at vm.stack (base + reg))
  handle ← lift (table_handle target)
  top ← lift (pending vm)
  count ← lift (minus top (base + first))
  after ← set_items (2 ^ 63) count host vm handle (base + first) first_index
  lift (settle_top after)
