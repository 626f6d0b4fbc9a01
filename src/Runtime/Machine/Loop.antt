-- ===== src/Runtime/Machine/Loop.antt =====
-- The loop over instructions: crates/ruta-runtime/src/vm/dispatch.rs, with `Vm::run` of vm/state.rs.
-- A program need not stop, so the loop runs on fuel: no answer means that the fuel has run out.
use ruta.Prelude.{
  ◌^◌, expect, checked, ℕ, zero, suc, ◌+◌, true, false, ltb, if◌then◌else◌, Option, none, some, [],
  ◌∷◌, ok, err, panic, ◌>>=◌,
}
use ruta.Bytecode.Op.{Op}
use ruta.Bytecode.Decode.{decode}
use ruta.Bytecode.Prototype.{Prototype}
use ruta.Runtime.Value.{table, func}
use ruta.Runtime.Heap.{Run, closed}
use ruta.Runtime.Heap.Load.{load, new_upvalue, new_closure}
use ruta.Runtime.Stack as Stack
use ruta.Runtime.Stack.{exactly, reserve}
use ruta.Runtime.Machine.{Host, Vm, Answer, lift, running_proto, put, set_current}
use ruta.Runtime.Machine.Call.{Natives, enter}
use ruta.Runtime.Machine.Dispatch.{perform}

-- `fetch`, of code that the emitter wrote
unfoldable pub fetch : Vm → Run (Op × ℕ)
unfolding decode
fetch vm = do
  frame ← Stack.current vm.stack
  proto ← running_proto vm
  elim (decode proto.body.code frame.pc) [ ok found ↦ ok found | _ ↦ panic ]

-- `advance`
abbrev pub advance_pc : Vm → ℕ → Run Vm
advance_pc vm len = do
  frame ← Stack.current vm.stack
  pc ← expect (checked (2 ^ 32) (frame.pc + len))
  set_current vm (λ current. record current { pc = pc })

-- `step`
unfoldable pub step : Host → Natives → Vm → Op → ℕ → Answer Vm
unfolding perform
step host natives vm op len = do
  frame ← lift (Stack.current vm.stack)
  moved ← lift (advance_pc vm len)
  perform host natives moved frame.base op

-- One round of the loop of `run`.
unfoldable pub round : Host → Natives → Vm → Answer Vm
unfolding fetch step
round host natives vm = do (op, len) ← lift (fetch vm); step host natives vm op len

-- `run` of vm/dispatch.rs
unfoldable pub run : ℕ → Host → Natives → Vm → Option (Answer Vm)
unfolding round
run zero host natives vm = if ltb 0 (Stack.depth vm.stack) then none else some (ok vm)
run (suc fuel) host natives vm = elim (ltb 0 (Stack.depth vm.stack)) [
  | false ↦ some (ok vm)
  | true ↦ elim (round host natives vm) [
    | ok next ↦ run fuel host natives next
    | err e ↦ some (err e)
    | panic ↦ some panic
  ]
]

-- The first part of `Vm::run`: the chunk's closure at the top of the stack, entered.
unfoldable pub start : Host → Vm → Prototype → Answer Vm
unfolding load reserve Stack.put enter
start host vm chunk = do
  (proto, loaded) ← lift (load vm.heap chunk)
  let (env, celled) = new_upvalue loaded (closed (table vm.globals))
  let (main, closed_over) = new_closure celled proto (env ∷ [])
  let at = Stack.height vm.stack
  let roomy = record vm { heap = closed_over; stack = reserve vm.stack (at + 1) }
  ready ← lift (put roomy at (func main))
  enter host ready at 0 (exactly 0)

-- `Vm::run`
unfoldable pub run_chunk : ℕ → Host → Natives → Vm → Prototype → Option (Answer Vm)
unfolding start run
run_chunk fuel host natives vm chunk = elim (start host vm chunk) [
  | ok entered ↦ run fuel host natives entered
  | err e ↦ some (err e)
  | panic ↦ some panic
]
