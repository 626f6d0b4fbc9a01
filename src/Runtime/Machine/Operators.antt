-- ===== src/Runtime/Machine/Operators.antt =====
-- The operators, tables and counted loops of Arith, Table and Loops on the machine's heap and stack:
-- crates/ruta-runtime/src/vm/arith.rs, heap/table/access.rs and vm/loops.rs. A failure of theirs is
-- raised with its message.
use Prim.Native.String as Native
use ruta.Prelude.{
  ℕ, ◌+◌, ◌^◌, Bool, true, false, if◌then◌else◌, same_bytes, Option, none, some, List, [], ◌++◌,
  length, Outcome, ok, err, panic, ◌>>=◌,
}
use ruta.Prelude.Int.{pos, of_word}
use ruta.Runtime.Value.{Value, nil, int, float, bool, str, table, type_name}
use ruta.Runtime.Arith as Arith
use ruta.Runtime.Arith.{Num, Operand, ArithKind, Bitwise, Compare, throw, fault, no_integer}
use ruta.Runtime.Arith.Comparison.{Incomparable, incomparable}
use ruta.Runtime.Loops as Loops
use ruta.Runtime.Loops.{Registers, Message, step_is_zero, not_a_number}
use ruta.Runtime.Table.{Table}
use ruta.Runtime.Table.Access as Access
use ruta.Runtime.Table.Access.{Failure, key_error, invalid_key}
use ruta.Runtime.Table.Key.{KeyError, nil_key, nan_key}
use ruta.Runtime.Heap as Heap
use ruta.Runtime.Heap.{Run, Heap}
use ruta.Runtime.Heap.Strings.{bytes_at}
use ruta.Runtime.Stack as Stack
use ruta.Syntax.Text.{codes}
use ruta.Syntax.Lexer.Numeral.{parse_number}
use ruta.Runtime.Machine.{Host, Vm, Answer, endless, lift, intern, put}
use ruta.Runtime.Machine.Number as Number
use ruta.Runtime.Machine.Origin.{clause}
use ruta.Runtime.Machine.Trace.{operand_name}
use ruta.Runtime.Machine.Raise as Raise

abbrev pub bytes_or_none : Run (List ℕ) → List ℕ
bytes_or_none (ok bytes) = bytes
bytes_or_none _ = []

-- What the heap holds for a string's handle; a string's handle has one.
abbrev pub strings_of : Heap → ℕ → List ℕ
strings_of heap handle = bytes_or_none (bytes_at heap handle)

-- A value of the operators, or their error raised.
unfoldable pub raised : Vm → Outcome Arith.Error Value → Answer Value
unfolding Raise.throw Raise.fault operand_name clause
raised vm (ok value) = ok value
raised vm (err (throw text)) = Raise.throw vm (codes text)
raised vm (err (fault what operand)) = Raise.fault vm what operand.value operand.reg
raised vm (err (no_integer operand)) = do
  found ← lift (operand_name vm operand.reg)
  Raise.throw vm (codes "number" ++ (clause found ++ codes " has no integer representation"))
raised vm panic = panic

unfoldable pub same_name : Native.String → Native.String → Bool
unfolding same_bytes
same_name left right = same_bytes (codes left) (codes right)

unfoldable pub compared : Vm → Outcome Incomparable Bool → Answer Value
unfolding Raise.throw
compared vm (ok answer) = ok (bool answer)
compared vm (err (incomparable left right)) = Raise.throw vm (
    if same_name left right
    then codes "attempt to compare two " ++ (codes left ++ codes " values")
    else codes "attempt to compare " ++ (codes left ++ (codes " with " ++ codes right)))
compared vm panic = panic

-- `text`
unfoldable pub text : Host → Heap → Value → Run (Option (List ℕ))
unfolding Number.float
text host heap (str handle) = bytes_at heap handle >>= λ bytes. ok (some bytes)
text host heap (int number) = ok (some (Number.integer number))
text host heap (float number) = Number.float host number >>= λ bytes. ok (some bytes)
text host heap _ = ok none

unfoldable pub joined :
    Vm → Operand → Operand → Option (List ℕ) → Option (List ℕ) → Answer (Value × Vm)
unfolding Raise.fault intern
joined vm left right (some bytes) (some tail) =
    lift (intern vm (bytes ++ tail)) >>= λ (handle, after). ok (str handle, after)
joined vm left right (some bytes) none = Raise.fault vm "concatenate" right.value right.reg
joined vm left right none _ = Raise.fault vm "concatenate" left.value left.reg

-- `concat`
unfoldable pub concat : Host → Vm → Operand → Operand → Answer (Value × Vm)
unfolding text
concat host vm left right = do
  bytes ← lift (text host vm.heap left.value)
  tail ← lift (text host vm.heap right.value)
  joined vm left right bytes tail

-- A failure of a table's operation that has no error of its own here.
abbrev pub from_table {ℓ} : {A : Type ℓ} → Outcome Failure A → Answer A
from_table (ok a) = ok a
from_table (err (key_error e)) = panic
from_table (err invalid_key) = panic
from_table (err Access.endless) = err endless
from_table panic = panic

unfoldable pub length_of : Vm → Operand → Value → Answer Value
unfolding Raise.fault Access.table_length
length_of vm operand (str handle) =
    lift (bytes_at vm.heap handle) >>= λ bytes. ok (int (of_word (2 ^ 63) (length bytes)))
length_of vm operand (table handle) = lift (Heap.table vm.heap handle) >>= λ body.
    from_table (Access.table_length (strings_of vm.heap) body) >>= λ border. ok (int (pos border))
length_of vm operand other = Raise.fault vm "get length of" other operand.reg

-- `length`
unfoldable pub length_op : Vm → Operand → Answer Value
unfolding Raise.fault Access.table_length
length_op vm operand = length_of vm operand operand.value

-- `self.heap.table_get`
unfoldable pub table_get : Vm → ℕ → Value → Answer Value
unfolding Access.table_get
table_get vm handle key = do
  body ← lift (Heap.table vm.heap handle)
  from_table (Access.table_get (strings_of vm.heap) body key)

unfoldable pub stored : Vm → Heap → ℕ → (KeyError → Answer Vm) → Outcome Failure Table → Answer Vm
unfolding Heap.put_table
stored vm taken handle refuse (ok body) =
    lift (Heap.put_table taken handle body) >>= λ heap. ok (record vm { heap = heap })
stored vm taken handle refuse (err (key_error e)) = refuse e
stored vm taken handle refuse (err invalid_key) = panic
stored vm taken handle refuse (err Access.endless) = err endless
stored vm taken handle refuse panic = panic

-- `self.heap.table_set`, and what is done about a key that it refuses.
unfoldable pub table_set : Host → Vm → ℕ → Value → Value → (KeyError → Answer Vm) → Answer Vm
unfolding Heap.take_table Access.table_set
table_set host vm handle key value refuse = do
  (body, taken) ← lift (Heap.take_table vm.heap handle)
  stored vm taken handle refuse
      (Access.table_set (strings_of vm.heap) host.rebuilds host.layout body key value)

-- `expect` on what `table_set` answers.
abbrev pub refused : KeyError → Answer Vm
refused e = panic

abbrev pub key_message : KeyError → List ℕ
key_message nil_key = codes "table index is nil"
key_message nan_key = codes "table index is NaN"

unfoldable pub store_to : Host → Vm → ℕ → Value → Value → Value → Answer Vm
unfolding table_set Raise.throw Raise.fault
store_to host vm reg (table handle) key value =
    table_set host vm handle key value (λ e. Raise.throw vm (key_message e))
store_to host vm reg object key value = Raise.fault vm "index" object reg

-- `store` of vm/dispatch.rs
unfoldable pub store : Host → Vm → ℕ → Value → Value → Value → Answer Vm
unfolding table_set Raise.throw Raise.fault
store host vm reg object key value = store_to host vm reg object key value

-- A loop's message.
unfoldable pub loop_message : Message → List ℕ
unfolding type_name
loop_message step_is_zero = codes "'for' step is zero"
loop_message (not_a_number what value) =
    codes "bad 'for' "
    ++ (codes what ++ (codes " (number expected, got " ++ (codes (type_name value) ++ codes ")")))

-- The registers of a loop; the last one is only written.
abbrev pub loop_registers : Vm → ℕ → Run Registers
loop_registers vm control = do
  index ← Stack.at vm.stack control
  limit ← Stack.at vm.stack (control + 1)
  step ← Stack.at vm.stack (control + 2)
  ok (record { control = index; limit = limit; step = step; var = nil })

unfoldable pub write_loop : Vm → ℕ → Outcome Message (Bool × Registers) → Answer (Bool × Vm)
unfolding Raise.throw Stack.put
write_loop vm control (ok (false, at)) = ok (false, vm)
write_loop vm control (ok (true, at)) = do
  first ← lift (put vm control at.control)
  second ← lift (put first (control + 1) at.limit)
  third ← lift (put second (control + 2) at.step)
  fourth ← lift (put third (control + 3) at.var)
  ok (true, fourth)
write_loop vm control (err e) = Raise.throw vm (loop_message e)
write_loop vm control panic = panic

unfoldable pub parse_at : Host → Vm → ℕ → Option Num
unfolding parse_number
parse_at host vm handle = parse_number host.read_f64 (strings_of vm.heap handle)

-- `prepare` of vm/loops.rs
unfoldable pub prepare : Host → Vm → ℕ → Answer (Bool × Vm)
unfolding Loops.prepare
prepare host vm control = do
  at ← lift (loop_registers vm control)
  write_loop vm control (Loops.prepare (parse_at host vm) host.rounding at)

-- `advance` of vm/loops.rs
unfoldable pub advance : Host → Vm → ℕ → Answer (Bool × Vm)
unfolding Loops.advance
advance host vm control = do
  at ← lift (loop_registers vm control)
  write_loop vm control (Loops.advance host.rounding at)
