-- ===== src/Runtime/Machine/Base.antt =====
-- The library a chunk finds in its globals: crates/ruta-runtime/src/vm/base.rs, with `Vm::new` of
-- vm/state.rs. A host function's address is its place in `base_functions`. What is written to the
-- standard output is taken to be written.
use ruta.Prelude.{
  ℕ, zero, suc, ◌+◌, ◌-◌, min, Bool, false, leb, ◌==◌, if◌then◌else◌, Option, none, some, List, [],
  ◌∷◌, ◌++◌, Outcome, ok, err, panic, ◌>>=◌,
}
use ruta.Prelude.Int.{ℤ, pos, negsuc, wrap, ◌+ℤ◌, sub_ℕ}
use ruta.Runtime.Value.{Value, nil, int, str, table, func, type_name, is_truthy, is_nil}
use ruta.Runtime.Arith as Arith
use ruta.Runtime.Arith.{wrapping_neg}
use ruta.Runtime.Heap as Heap
use ruta.Runtime.Heap.{Run, Heap, new_table}
use ruta.Runtime.Heap.Strings.{bytes_at}
use ruta.Runtime.Stack as Stack
use ruta.Runtime.Table.Access as Access
use ruta.Runtime.Table.Access.{Failure, key_error, invalid_key}
use ruta.Syntax.Text.{codes}
use ruta.Runtime.Machine.{Host, Vm, Answer, thrown, endless, lift}
use ruta.Runtime.Machine.Text.{of, to_number}
use ruta.Runtime.Machine.Raise.{throw, bare, bad_argument}
use ruta.Runtime.Machine.Operators.{strings_of, table_get}

-- `self.stack.push`
abbrev pub push : Vm → Value → Vm
push vm value = record vm { stack = Stack.push vm.stack value }

-- `arg`
abbrev pub arg : Vm → ℕ → ℕ → ℕ → Run (Option Value)
arg vm callee args index =
    if leb index args
    then (Stack.at vm.stack (callee + index) >>= λ value. ok (some value))
    else ok none

-- `got`
unfoldable pub got : Option Value → List ℕ
unfolding type_name
got none = codes "no value"
got (some value) = codes (type_name value)

abbrev pub or_nil : Option Value → Value
or_nil none = nil
or_nil (some value) = value

-- `any`
unfoldable pub any : Vm → ℕ → ℕ → ℕ → Answer Value
unfolding bad_argument
any vm callee args index = lift (arg vm callee args index) >>= λ given. elim given [
  | some value ↦ ok value
  | none ↦ bad_argument vm callee index (codes "value expected")
]

unfoldable pub as_number : Host → Vm → Option Value → Run (Option Value)
unfolding to_number
as_number host vm none = ok none
as_number host vm (some value) = to_number host vm.heap value

-- `integer`
unfoldable pub integer : Host → Vm → ℕ → ℕ → ℕ → Answer ℤ
unfolding to_number bad_argument Arith.integer
integer host vm callee args index = lift (arg vm callee args index) >>= λ given.
    lift (as_number host vm given) >>= λ found. elim found [
      | none ↦ bad_argument vm callee index (codes "number expected, got " ++ got given)
      | some number ↦ elim (Arith.integer number) [
        | some n ↦ ok n
        | none ↦ bad_argument vm callee index (codes "number has no integer representation")
      ]
    ]

-- The loop that pushes so many values of the stack again.
unfoldable pub push_again : ℕ → Vm → ℕ → Run Vm
push_again zero vm slot = ok vm
push_again (suc count) vm slot = do
  value ← Stack.at vm.stack slot
  push_again count (push vm value) (slot + 1)

-- What `assert` raises, by its second argument.
unfoldable pub assert_error : Vm → Option Value → Answer (ℕ × Vm)
unfolding throw
assert_error vm none = throw vm (codes "assertion failed!")
assert_error vm (some (str handle)) = lift (bytes_at vm.heap handle) >>= λ message. throw vm message
assert_error vm (some value) = err (thrown value vm)

-- `Native`, of one host function.
abbrev pub Native : Type 0
Native = Vm → ℕ → ℕ → Answer (ℕ × Vm)

-- `assert`
unfoldable pub assert : Native
unfolding any is_truthy push_again throw
assert vm callee args = do
  value ← any vm callee args 1
  message ← lift (arg vm callee args 2)
  if is_truthy value
      then (lift (push_again args vm (callee + 1)) >>= λ after. ok (args, after))
      else assert_error vm message

-- `ipairs`
unfoldable pub ipairs : Native
unfolding any
ipairs vm callee args = any vm callee args 1 >>= λ value.
    ok (3, push (push (push vm (func vm.ipairs_step)) value) (int (pos 0)))

unfoldable pub item_of : Vm → Value → ℤ → Answer Value
unfolding table_get bare type_name
item_of vm (table handle) index = table_get vm handle (int index)
item_of vm other index =
    bare vm (codes "attempt to index a " ++ (codes (type_name other) ++ codes " value"))

-- `step`
unfoldable pub step : Host → Native
unfolding integer table_get bare ◌+ℤ◌ wrap
step host vm callee args = do
  given ← lift (arg vm callee args 1)
  before ← integer host vm callee args 2
  let index = wrap (before +ℤ pos 1)
  value ← item_of vm (or_nil given) index
  if is_nil value then ok (1, push vm nil) else ok (2, push (push vm (int index)) value)

unfoldable pub next_entry : Vm → Outcome Failure (Option (Value × Value)) → Answer (ℕ × Vm)
unfolding bare
next_entry vm (ok none) = ok (1, push vm nil)
next_entry vm (ok (some (key, value))) = ok (2, push (push vm key) value)
next_entry vm (err Access.endless) = err endless
next_entry vm (err _) = bare vm (codes "invalid key to 'next'")
next_entry vm panic = panic

unfoldable pub next_in : Vm → ℕ → Option Value → Value → Answer (ℕ × Vm)
unfolding Access.table_next bare bad_argument
next_in vm callee (some (table handle)) key = lift (Heap.table vm.heap handle) >>= λ body.
    next_entry vm (Access.table_next (strings_of vm.heap) body key)
next_in vm callee given key = bad_argument vm callee 1 (codes "table expected, got " ++ got given)

-- `next`
unfoldable pub next : Native
unfolding Access.table_next bare bad_argument
next vm callee args = do
  given ← lift (arg vm callee args 1)
  key ← lift (arg vm callee args 2)
  next_in vm callee given (or_nil key)

-- `pairs`
unfoldable pub pairs : Native
unfolding any
pairs vm callee args =
    any vm callee args 1 >>= λ value. ok (3, push (push (push vm (func vm.next)) value) nil)

-- The loop of `print`.
unfoldable pub line_from : ℕ → Host → Vm → ℕ → Run (List ℕ)
unfolding of
line_from zero host vm slot = ok []
line_from (suc count) host vm slot = do
  value ← Stack.at vm.stack slot
  shown ← of host vm.heap value
  rest ← line_from count host vm (slot + 1)
  ok (if count == 0 then shown else shown ++ (9 ∷ rest))

-- `print`
unfoldable pub print : Host → Native
unfolding line_from
print host vm callee args = lift (line_from args host vm (callee + 1)) >>= λ line.
    ok (0, record vm { stdout = vm.stdout ++ (line ++ (10 ∷ [])) })

-- `from` of `select`, which is 0 where it would be below 1.
abbrev pub select_from : ℤ → ℕ → ℕ
select_from (pos n) args = min n args
select_from (negsuc n) args = args - (n + 1)

abbrev starts_with_hash : List ℕ → Bool
starts_with_hash [] = false
starts_with_hash (byte ∷ bytes) = byte == 35

abbrev pub asks_count : Vm → Option Value → Run Bool
asks_count vm (some (str handle)) = bytes_at vm.heap handle >>= λ bytes. ok (starts_with_hash bytes)
asks_count vm _ = ok false

-- `select`, of an index.
unfoldable pub select_values : Host → Native
unfolding integer bad_argument push_again
select_values host vm callee args = do
  asked ← integer host vm callee args 1
  let from = select_from asked args
  if from == 0
      then bad_argument vm callee 1 (codes "index out of range")
      else (lift (push_again (args - from) vm (callee + from + 1)) >>= λ after.
          ok (args - from, after))

-- `select`
unfoldable pub select : Host → Native
unfolding select_values
select host vm callee args = do
  given ← lift (arg vm callee args 1)
  counts ← lift (asks_count vm given)
  if counts then ok (1, push vm (int (sub_ℕ args 1))) else select_values host vm callee args
