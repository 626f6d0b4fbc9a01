-- ===== src/Runtime/Machine/Dispatch.antt =====
-- What each instruction does: `step` of crates/ruta-runtime/src/vm/dispatch.rs.
use ruta.Prelude.{ℕ, ◌+◌, ◌-◌, ◌^◌, Bool, true, false, not, ltb, if◌then◌else◌, ok, panic, ◌>>=◌}
use ruta.Prelude.Int.{ℤ, pos, negsuc}
use ruta.Bytecode.Op.{Op}
use ruta.Runtime.Value.{Value, nil, bool, table, is_truthy}
use ruta.Runtime.Arith as Arith
use ruta.Runtime.Arith.{ArithKind, Bitwise, Compare, Operand}
use ruta.Runtime.Arith.Comparison as Comparison
use ruta.Runtime.Heap.{Run, new_table}
use ruta.Runtime.Stack as Stack
use ruta.Runtime.Stack.{exactly, reserve}
use ruta.Runtime.Machine.{Host, Vm, Answer, lift, constant, put, set_current, close}
use ruta.Runtime.Machine.Raise as Raise
use ruta.Runtime.Machine.Operators.{
  strings_of, raised, compared, concat, length_op, prepare, advance,
}
use ruta.Runtime.Machine.Call.{Natives}
use ruta.Runtime.Machine.Perform.{
  get_upval, set_upval, index_op, set_index_op, define_global_op, set_list_op, set_list_spread_op,
}
use ruta.Runtime.Machine.Leave.{call_op, tail_call_op, return_op, vararg_op, closure_op}

pub data Kind : Type 0 where
  arith : ArithKind → Kind
  bits : Bitwise → Kind
  order : Compare → Kind
  same : Bool → Kind
  join : Kind

-- `checked_add_signed` on a `u32`
abbrev pub moved_pc : ℕ → ℤ → Run ℕ
moved_pc pc (pos n) = if ltb (pc + n) (2 ^ 32) then ok (pc + n) else panic
moved_pc pc (negsuc n) = if ltb n pc then ok (pc - (n + 1)) else panic

-- `jump`
unfoldable pub jump : Vm → ℤ → Run Vm
jump vm offset = do
  frame ← Stack.current vm.stack
  target ← moved_pc frame.pc offset
  set_current vm (λ held. record held { pc = target })

unfoldable pub jump_if : Bool → Vm → ℤ → Run Vm
unfolding jump
jump_if true vm offset = jump vm offset
jump_if false vm offset = ok vm

abbrev pub operand : Vm → ℕ → ℕ → Run Operand
operand vm base reg =
    Stack.at vm.stack (base + reg) >>= λ value. ok (record { value = value; reg = reg })

abbrev pub same_as : Bool → Bool → Bool
same_as true wanted = wanted
same_as false wanted = not wanted

-- The match of `binary`.
unfoldable pub operate : Host → Vm → Kind → Operand → Operand → Answer (Value × Vm)
unfolding Arith.arithmetic Arith.bitwise Comparison.compare Comparison.equal concat Raise.throw
operate host vm (arith kind) left right =
    raised vm (Arith.arithmetic host.rounding kind left right) >>= λ value. ok (value, vm)
operate host vm (bits kind) left right =
    raised vm (Arith.bitwise kind left right) >>= λ value. ok (value, vm)
operate host vm (order kind) left right =
    compared vm (Comparison.compare (strings_of vm.heap) kind left.value right.value) >>= λ value.
    ok (value, vm)
operate host vm (same wanted) left right =
    ok (bool (same_as (Comparison.equal (strings_of vm.heap) left.value right.value) wanted), vm)
operate host vm join left right = concat host vm left right

-- `binary`
unfoldable pub binary : Host → Vm → ℕ → ℕ → ℕ → ℕ → Kind → Answer Vm
unfolding operate Stack.put
binary host vm base dest left right kind = do
  first ← lift (operand vm base left)
  second ← lift (operand vm base right)
  (value, after) ← operate host vm kind first second
  lift (put after (base + dest) value)

-- An instruction that reads one operand and changes nothing else.
unfoldable pub unary : Vm → ℕ → ℕ → ℕ → (Operand → Answer Value) → Answer Vm
unfolding Stack.put
unary vm base dest reg compute = do
  read ← lift (operand vm base reg)
  value ← compute read
  lift (put vm (base + dest) value)

unfoldable pub jump_on : Bool → Vm → ℕ → ℤ → Run Vm
unfolding jump is_truthy
jump_on wanted vm slot offset =
    Stack.at vm.stack slot >>= λ value. jump_if (same_as (is_truthy value) wanted) vm offset

-- The match of `step`, where the pc is past the instruction.
unfoldable pub perform : Host → Natives → Vm → ℕ → Op → Answer Vm
unfolding Stack.put binary Raise.throw Arith.negate Arith.complement length_op is_truthy get_upval
    set_upval index_op set_index_op define_global_op set_list_op set_list_spread_op call_op
    tail_call_op return_op vararg_op closure_op jump prepare advance close new_table
perform host natives vm base (Op.load_nil dest) = lift (put vm (base + dest) nil)
perform host natives vm base (Op.load_true dest) = lift (put vm (base + dest) (bool true))
perform host natives vm base (Op.load_false dest) = lift (put vm (base + dest) (bool false))
perform host natives vm base (Op.load_const dest index) =
    lift (constant vm index >>= λ value. put vm (base + dest) value)
perform host natives vm base (Op.move dest src) =
    lift (Stack.at vm.stack (base + src) >>= λ value. put vm (base + dest) value)
perform host natives vm base (Op.get_upval dest index) = lift (get_upval vm (base + dest) index)
perform host natives vm base (Op.set_upval index src) = lift (set_upval vm index (base + src))
perform host natives vm base (Op.close_upvals from) = lift (close vm (base + from))
perform host natives vm base (Op.closure dest child) = lift (closure_op vm base dest child)
perform host natives vm base (Op.vararg first count) = vararg_op vm base first count
perform host natives vm base (Op.new_table dest array_hint hash_hint) =
    let (handle, heap) = new_table vm.heap array_hint hash_hint in
    lift (put (record vm { heap = heap }) (base + dest) (table handle))
perform host natives vm base (Op.index dest object key) = index_op vm base dest object key
perform host natives vm base (Op.set_index object key src) =
    set_index_op host vm base object key src
perform host natives vm base (Op.define_global env key src) =
    define_global_op host vm base env key src
perform host natives vm base (Op.set_list reg first count first_index) =
    set_list_op host vm base reg first count first_index
perform host natives vm base (Op.set_list_spread reg first first_index) =
    set_list_spread_op host vm base reg first first_index
perform host natives vm base (Op.neg dest reg) =
    unary vm base dest reg (λ read. raised vm (Arith.negate read))
perform host natives vm base (Op.not dest reg) =
    unary vm base dest reg (λ read. ok (bool (not (is_truthy read.value))))
perform host natives vm base (Op.len dest reg) = unary vm base dest reg (λ read. length_op vm read)
perform host natives vm base (Op.b_not dest reg) =
    unary vm base dest reg (λ read. raised vm (Arith.complement read))
perform host natives vm base (Op.add dest left right) =
    binary host vm base dest left right (arith Arith.add)
perform host natives vm base (Op.sub dest left right) =
    binary host vm base dest left right (arith Arith.sub)
perform host natives vm base (Op.mul dest left right) =
    binary host vm base dest left right (arith Arith.mul)
perform host natives vm base (Op.div dest left right) =
    binary host vm base dest left right (arith Arith.div)
perform host natives vm base (Op.i_div dest left right) =
    binary host vm base dest left right (arith Arith.i_div)
perform host natives vm base (Op.modulo dest left right) =
    binary host vm base dest left right (arith Arith.modulo)
perform host natives vm base (Op.pow dest left right) =
    binary host vm base dest left right (arith Arith.pow)
perform host natives vm base (Op.concat dest left right) = binary host vm base dest left right join
perform host natives vm base (Op.eq dest left right) =
    binary host vm base dest left right (same true)
perform host natives vm base (Op.ne dest left right) =
    binary host vm base dest left right (same false)
perform host natives vm base (Op.lt dest left right) =
    binary host vm base dest left right (order Arith.lt)
perform host natives vm base (Op.le dest left right) =
    binary host vm base dest left right (order Arith.le)
perform host natives vm base (Op.gt dest left right) =
    binary host vm base dest left right (order Arith.gt)
perform host natives vm base (Op.ge dest left right) =
    binary host vm base dest left right (order Arith.ge)
perform host natives vm base (Op.b_and dest left right) =
    binary host vm base dest left right (bits Arith.and)
perform host natives vm base (Op.b_or dest left right) =
    binary host vm base dest left right (bits Arith.or)
perform host natives vm base (Op.b_xor dest left right) =
    binary host vm base dest left right (bits Arith.xor)
perform host natives vm base (Op.shl dest left right) =
    binary host vm base dest left right (bits Arith.shl)
perform host natives vm base (Op.shr dest left right) =
    binary host vm base dest left right (bits Arith.shr)
perform host natives vm base (Op.call callee args results) =
    call_op host natives vm base callee args results
perform host natives vm base (Op.tail_call callee args) =
    tail_call_op host natives vm base callee args
perform host natives vm base (Op.return first count) = lift (return_op vm base first count)
perform host natives vm base (Op.jump offset) = lift (jump vm offset)
perform host natives vm base (Op.jump_if_true cond offset) =
    lift (jump_on true vm (base + cond) offset)
perform host natives vm base (Op.jump_if_false cond offset) =
    lift (jump_on false vm (base + cond) offset)
perform host natives vm base (Op.for_prep control offset) =
    prepare host vm (base + control) >>= λ (runs, after). lift (jump_if (not runs) after offset)
perform host natives vm base (Op.for_loop control offset) =
    advance host vm (base + control) >>= λ (runs, after). lift (jump_if runs after offset)
