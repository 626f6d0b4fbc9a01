-- ===== src/Runtime/Machine/Call.antt =====
-- Entering and leaving a frame: crates/ruta-runtime/src/vm/call.rs.
-- `natives` is what the host function at an address does with the machine, the callee's slot and
-- the number of arguments: how many values it has pushed.
use ruta.Prelude.{
  ℕ, zero, suc, ◌+◌, ◌-◌, min, max, Bool, true, false, leb, ◌==◌, if◌then◌else◌, ok, panic, ◌>>=◌,
}
use ruta.Prelude.Int.{pos}
use ruta.Bytecode.Prototype as Code
use ruta.Bytecode.Prototype.{Vararg, no_vararg, anonymous}
use ruta.Runtime.Value.{Value, nil, int, str, table, func}
use ruta.Runtime.Heap as Heap
use ruta.Runtime.Heap.{Run, Proto, Function, lua, native, new_table}
use ruta.Runtime.Stack as Stack
use ruta.Runtime.Stack.{Stack, Frame, Want, exactly, all, reserve, fill, shift}
use ruta.Syntax.Text.{codes}
use ruta.Runtime.Machine.{Host, Vm, Answer, lift, closure_of, intern, put, set_current}
use ruta.Runtime.Machine.Raise.{throw, fault_call}
use ruta.Runtime.Machine.Operators.{table_set, refused}

-- `HEIGHT`
abbrev pub height_limit : ℕ
height_limit = 1_000_000

-- `DEPTH`
abbrev pub depth_limit : ℕ
depth_limit = 200_000

abbrev pub kept_of : Want → ℕ → ℕ
kept_of all produced = produced
kept_of (exactly count) produced = count

-- The end of `settle`, where a row of all results moves the caller's top.
abbrev pub topped : Want → ℕ → Vm → Run Vm
topped all end vm = set_current vm (λ frame. record frame { top = end })
topped (exactly count) end vm = ok vm

-- `settle`
unfoldable pub settle : Vm → ℕ → ℕ → ℕ → Want → Run (ℕ × Vm)
unfolding reserve shift fill
settle vm from to produced want =
    let kept = kept_of want produced in
    let moved = min produced kept in
    shift (reserve vm.stack (to + kept)) from to moved >>= λ shifted.
    fill shifted (to + moved) (to + kept) nil >>= λ filled.
    topped want (to + kept) (record vm { stack = filled }) >>= λ after. ok (to + kept, after)

-- Where the frame's registers begin, and how many arguments stay below them.
abbrev pub base_of : Vararg → ℕ → ℕ → ℕ → ℕ × ℕ
base_of no_vararg first args params = (first, 0)
base_of anonymous first args params = (first + args, args - params)
base_of Code.table first args params = (first + args, args - params)

abbrev pub fixed_of : Vararg → ℕ → ℕ
fixed_of Code.table params = params + 1
fixed_of _ params = params

-- The parameters of `enter`: moved up to the base, or already there.
unfoldable pub place_params : Stack → ℕ → ℕ → ℕ → ℕ → Run Stack
unfolding shift fill
place_params stack first base args params =
    if base == first
    then fill stack (first + min args params) (base + params) nil
    else (shift stack first base (min params args) >>= λ shifted.
        fill shifted (base + min params args) (base + params) nil)

-- The loop that fills a named vararg's table.
unfoldable pub fill_table : ℕ → Host → Vm → ℕ → ℕ → ℕ → Answer Vm
unfolding table_set
fill_table zero host vm handle from index = ok vm
fill_table (suc count) host vm handle from index = do
  value ← lift (Stack.at vm.stack (from + index))
  after ← table_set host vm handle (int (pos (index + 1))) value refused
  fill_table count host after handle from (index + 1)

-- The table of a named vararg.
unfoldable pub make_table : Host → Vm → ℕ → ℕ → ℕ → Answer Vm
unfolding new_table intern fill_table table_set Stack.put
make_table host vm base params varargs =
    let (handle, heap) = new_table vm.heap varargs 1 in
    lift (intern (record vm { heap = heap }) (codes "n")) >>= λ (n, named).
    fill_table varargs host named handle (base - varargs) 0 >>= λ filled.
    table_set host filled handle (str n) (int (pos varargs)) refused >>= λ counted.
    lift (put counted (base + params) (table handle))

unfoldable pub named_table : Vararg → Host → Vm → ℕ → ℕ → ℕ → Answer Vm
unfolding make_table
named_table Code.table host vm base params varargs = make_table host vm base params varargs
named_table _ host vm base params varargs = ok vm

-- `enter` on a function's prototype, where the frames are not too deep.
unfoldable pub enter_proto : Host → Vm → ℕ → ℕ → ℕ → Want → Proto → Answer Vm
unfolding reserve shift fill make_table
enter_proto host vm callee handle args want proto =
    let params = proto.body.params in
    let registers = proto.body.max_registers in
    let kind = proto.body.vararg in
    let first = callee + 1 in
    let (base, varargs) = base_of kind first args params in
    let fixed = fixed_of kind params in
    lift (place_params (reserve vm.stack (base + max registers fixed)) first base args params)
    >>= λ placed.
        named_table kind host (record vm { stack = placed }) base params varargs >>= λ named.
        lift (fill named.stack (base + fixed) (base + registers) nil) >>= λ cleared.
        ok (record named {
          stack = Stack.enter cleared (record {
            func = handle;
            base = base;
            top = base + registers;
            pc = 0;
            want = want;
            ret_to = callee;
            varargs = varargs;
          });
        })

abbrev pub handle_of : Value → Run ℕ
handle_of (func handle) = ok handle
handle_of _ = panic

-- `enter`
unfoldable pub enter : Host → Vm → ℕ → ℕ → Want → Answer Vm
unfolding enter_proto throw
enter host vm callee args want =
    if leb depth_limit (Stack.depth vm.stack) then throw vm (codes "stack overflow") else do
      value ← lift (Stack.at vm.stack callee)
      handle ← lift (handle_of value)
      function ← lift (Heap.func vm.heap handle)
      (index, upvals) ← lift (closure_of function)
      proto ← lift (Heap.proto vm.heap index)
      enter_proto host vm callee handle args want proto

abbrev pub Natives : Type 0
Natives = ℕ → Vm → ℕ → ℕ → Answer (ℕ × Vm)

-- A host function's results, moved to where the caller wants them.
unfoldable pub take_results : Vm → ℕ → ℕ → ℕ → Want → Run Vm
unfolding settle
take_results vm mark callee produced want = settle vm mark callee produced want >>= λ (end, after).
    ok (record after { stack = Stack.truncate after.stack (max mark end) })

unfoldable pub call_function : Host → Natives → Vm → ℕ → ℕ → Want → Function → Answer (Bool × Vm)
unfolding enter take_results
call_function host natives vm callee args want (lua proto upvals) =
    enter host vm callee args want >>= λ after. ok (true, after)
call_function host natives vm callee args want (native name address) =
    natives address vm callee args >>= λ (produced, after).
    lift (take_results after (Stack.height vm.stack) callee produced want) >>= λ taken.
    ok (false, taken)

unfoldable pub call_value : Host → Natives → Vm → ℕ → ℕ → Want → Value → Answer (Bool × Vm)
unfolding enter take_results fault_call
call_value host natives vm callee args want (func handle) =
    lift (Heap.func vm.heap handle) >>= λ function.
    call_function host natives vm callee args want function
call_value host natives vm callee args want other = fault_call vm other callee

-- `call`
unfoldable pub call : Host → Natives → Vm → ℕ → ℕ → Want → Answer (Bool × Vm)
unfolding enter take_results fault_call
call host natives vm callee args want = do
  value ← lift (Stack.at vm.stack callee)
  call_value host natives vm callee args want value
