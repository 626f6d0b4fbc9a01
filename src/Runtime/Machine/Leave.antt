-- ===== src/Runtime/Machine/Leave.antt =====
-- The instructions that call, return, spread arguments and make closures: the arms of `step` in
-- crates/ruta-runtime/src/vm/dispatch.rs, each as a function of the frame's base and the operands.
use ruta.Prelude.{
  ℕ, zero, suc, ◌+◌, ◌^◌, min, ltb, ◌==◌, if◌then◌else◌, Option, none, some, List, [], ◌∷◌,
  get_elem?, ok, expect, ◌>>=◌,
}
use ruta.Prelude.Int.{pos}
use ruta.Bytecode.OpCode.{multi}
use ruta.Bytecode.Prototype as Code
use ruta.Bytecode.Prototype.{Vararg, UpvalDesc, UpvalSource, parent_local, parent_upval}
use ruta.Runtime.Value.{Value, nil, int, str, func}
use ruta.Runtime.Heap as Heap
use ruta.Runtime.Heap.{Run, Function, lua, native, Upvalue, open_at, closed}
use ruta.Runtime.Heap.Load.{new_closure}
use ruta.Runtime.Stack as Stack
use ruta.Runtime.Stack.{Stack, Frame, Want, exactly, all, reserve, fill, shift}
use ruta.Syntax.Text.{codes}
use ruta.Runtime.Machine.{
  Host, Vm, Answer, lift, running_proto, cell, intern, put, set_current, capture, close, pending,
  settle_top,
}
use ruta.Runtime.Machine.Raise.{throw, fault_call}
use ruta.Runtime.Machine.Operators.{table_get}
use ruta.Runtime.Machine.Call.{Natives, call, settle, height_limit}
use ruta.Runtime.Machine.Perform.{minus, count_from, want_of, table_handle}

-- `leave`, where a frame was running
abbrev pub leave : Vm → Run (Frame × Vm)
leave vm =
    let (left, stack) = Stack.leave vm.stack in
    expect left >>= λ frame. ok (frame, record vm { stack = stack })

-- `finish`
unfoldable pub finish : Vm → ℕ → ℕ → ℕ → Run Vm
unfolding close settle
finish vm base from produced = do
  shut ← close vm base
  (frame, left) ← leave shut
  (end, after) ← settle left from frame.ret_to produced frame.want
  ok after

-- `Call`
unfoldable pub call_op : Host → Natives → Vm → ℕ → ℕ → ℕ → ℕ → Answer Vm
unfolding call
call_op host natives vm base callee args results = do
  count ← lift (count_from vm args (base + callee + 1))
  settled ← lift (settle_top vm)
  (entered, after) ← call host natives settled (base + callee) count (want_of results)
  ok after

unfoldable pub tail_to : Host → Natives → Vm → ℕ → ℕ → ℕ → Function → Answer Vm
unfolding call close shift finish
tail_to host natives vm base from count (native name address) = do
  (entered, after) ← call host natives vm from count all
  top ← lift (pending after)
  produced ← lift (minus top from)
  lift (finish after base from produced)
tail_to host natives vm base from count (lua proto upvals) = do
  shut ← lift (close vm base)
  (frame, left) ← lift (leave shut)
  stack ← lift (shift left.stack from frame.ret_to (count + 1))
  (entered, after) ← call host natives (record left { stack = stack }) frame.ret_to count frame.want
  ok after

unfoldable pub tail_value : Host → Natives → Vm → ℕ → ℕ → ℕ → Value → Answer Vm
unfolding call close shift finish fault_call
tail_value host natives vm base from count (func handle) =
    lift (Heap.func vm.heap handle) >>= λ function. tail_to host natives vm base from count function
tail_value host natives vm base from count other = fault_call vm other from

-- `TailCall`
unfoldable pub tail_call_op : Host → Natives → Vm → ℕ → ℕ → ℕ → Answer Vm
unfolding call close shift finish fault_call
tail_call_op host natives vm base callee args = do
  count ← lift (count_from vm args (base + callee + 1))
  target ← lift (Stack.at vm.stack (base + callee))
  tail_value host natives vm base (base + callee) count target

-- `Return`
unfoldable pub return_op : Vm → ℕ → ℕ → ℕ → Run Vm
unfolding finish
return_op vm base first count = do
  produced ← count_from vm count (base + first)
  finish vm base (base + first) produced

-- The reading of `table_count`.
unfoldable pub proper_count : Vm → Value → Answer (ℕ × Vm)
unfolding throw
proper_count vm (int (pos count)) =
    if ltb count (2 ^ 30) then ok (count, vm) else throw vm (codes "vararg table has no proper 'n'")
proper_count vm _ = throw vm (codes "vararg table has no proper 'n'")

-- `table_count`
unfoldable pub table_count : Vm → ℕ → Answer (ℕ × Vm)
unfolding intern table_get throw
table_count vm reg = do
  value ← lift (Stack.at vm.stack reg)
  handle ← lift (table_handle value)
  (n, named) ← lift (intern vm (codes "n"))
  count ← table_get named handle (str n)
  proper_count named count

-- The loop of `Vararg` over a named vararg's table.
unfoldable pub copy_items : ℕ → Vm → ℕ → ℕ → ℕ → Answer Vm
unfolding table_get Stack.put
copy_items zero vm handle to index = ok vm
copy_items (suc count) vm handle to index = do
  value ← table_get vm handle (int (pos (index + 1)))
  after ← lift (put vm (to + index) value)
  copy_items count after handle to (index + 1)

-- The register of a named vararg's table.
abbrev pub named_reg : Vararg → ℕ → Option ℕ
named_reg Code.table reg = some reg
named_reg _ reg = none

unfoldable pub available_in : Vm → Option ℕ → Answer (ℕ × Vm)
unfolding table_count
available_in vm (some reg) = table_count vm reg
available_in vm none = lift (Stack.current vm.stack) >>= λ frame. ok (frame.varargs, vm)

unfoldable pub copy_varargs : Vm → ℕ → Option ℕ → ℕ → ℕ → Answer Vm
unfolding copy_items shift
copy_varargs vm base (some reg) to copied = lift (Stack.at vm.stack reg) >>= λ value.
    lift (table_handle value) >>= λ handle. copy_items copied vm handle to 0
copy_varargs vm base none to copied = lift (Stack.current vm.stack) >>= λ frame.
    lift (minus base frame.varargs) >>= λ from.
    lift (shift vm.stack from to copied) >>= λ stack. ok (record vm { stack = stack })

-- `Vararg`, once it is known where the values are and how many.
unfoldable pub spread : Vm → ℕ → Option ℕ → ℕ → ℕ → ℕ → Answer Vm
unfolding copy_items shift fill reserve throw
spread vm base reg to count available =
    let wanted = if count == multi then available else count in
    let copied = min wanted available in
    if ltb height_limit (to + wanted)
    then throw vm (codes "stack overflow")
    else (copy_varargs (record vm { stack = reserve vm.stack (to + wanted) }) base reg to copied
        >>= λ copies. lift (fill copies.stack (to + copied) (to + wanted) nil) >>= λ filled.
            let after = record copies { stack = filled } in
            if count == multi
            then lift (set_current after (λ frame. record frame { top = to + wanted }))
            else ok after)

-- `Vararg`
unfoldable pub vararg_op : Vm → ℕ → ℕ → ℕ → Answer Vm
unfolding table_count spread
vararg_op vm base first count = do
  proto ← lift (running_proto vm)
  let reg = named_reg proto.body.vararg (base + proto.body.params)
  (available, after) ← available_in vm reg
  spread after base reg (base + first) count available

-- One upvalue of a closure.
unfoldable pub capture_one : Vm → ℕ → UpvalSource → Run (ℕ × Vm)
unfolding capture
capture_one vm base (parent_local reg) = capture vm (base + reg)
capture_one vm base (parent_upval index) = cell vm index >>= λ handle. ok (handle, vm)

-- The loop of `Closure`.
unfoldable pub capture_all : Vm → ℕ → List UpvalDesc → Run (List ℕ × Vm)
unfolding capture
capture_all vm base [] = ok ([], vm)
capture_all vm base (desc ∷ descs) = do
  (handle, after) ← capture_one vm base desc.source
  (handles, done) ← capture_all after base descs
  ok (handle ∷ handles, done)

-- `Closure`
unfoldable pub closure_op : Vm → ℕ → ℕ → ℕ → Run Vm
unfolding capture_all Stack.put
closure_op vm base dest index = do
  parent ← running_proto vm
  child ← expect (get_elem? parent.children index)
  proto ← Heap.proto vm.heap child
  (upvals, captured) ← capture_all vm base proto.body.upvals
  let (closure, heap) = new_closure captured.heap child upvals
  put (record captured { heap = heap }) (base + dest) (func closure)
