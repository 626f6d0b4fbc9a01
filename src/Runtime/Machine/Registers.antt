-- ===== src/Runtime/Machine/Registers.antt =====
-- Which registers an instruction leaves alone: the arms of `step` in
-- crates/ruta-runtime/src/vm/dispatch.rs beside `writes` of vm/origin.rs.
use ruta.Prelude.{
  ℕ, ◌+◌, ◌≤◌, ◌<◌, ◌≡◌, ◌≢◌, ◌⊎◌, refl, arith, ◌==◌, Bool, true, false, Outcome, ok, err, panic,
}
use ruta.Prelude.Int.{ℤ}
use ruta.Runtime.Arith.{Operand}
use ruta.Runtime.Loops.{Registers, Message}
use ruta.Runtime.Value.{Value}
use ruta.Runtime.Heap.{open_at, closed}
use ruta.Runtime.Stack as Stack
use ruta.Runtime.Stack.{Stack, Frame, reserve, fill, shift}
use ruta.Runtime.Machine.{Host, Vm, Answer, lift, upvalue, put, set_current}
use ruta.Runtime.Machine.Operators.{
  raised, compared, loop_registers, write_loop, loop_message, prepare, advance,
}
use ruta.Runtime.Machine.Perform.{get_upval}
use ruta.Runtime.Machine.Dispatch.{Kind, jump, jump_if, operand, operate, binary, unary, moved_pc}
use ruta.Runtime.Machine.Ends.{
  Ends, Ends-ok, Ends-panic, Ends-weaken, Ends-then, Ends-after, Ends-lift, throw-Ends,
}
use ruta.Runtime.Machine.Keeping.{Keeps-refl, Keeps-trans, set_current-Keeps}
use ruta.Runtime.Machine.Quiet.{Still, Holds, concat-Still, put-Holds}

pub Holds-trans :
    (slot : ℕ) (vm next : Vm) {o : Outcome ⊥ Vm}
    → Holds slot vm next
    → Ends (Holds slot next) o
    → Ends (Holds slot vm) o
Holds-trans slot vm next h g =
    Ends-weaken (Holds slot vm) (Holds slot next) _ g
      (λ after k. Keeps-trans slot vm.stack next.stack after.stack h k)

-- Two registers are two slots.
pub apart : (base dest reg : ℕ) → (dest == reg) ≡ false → base + dest ≢ base + reg
apart base dest reg h = ground (arith, h)

pub set_current-Holds :
    (slot : ℕ) (vm : Vm) (change : Frame → Frame) → Ends (Holds slot vm) (set_current vm change)
set_current-Holds slot vm change =
    Ends-then (set_current-Keeps slot vm.stack change) (λ s k. Ends-ok _ _ k)

pub jump-Holds : (slot : ℕ) (vm : Vm) (offset : ℤ) → Ends (Holds slot vm) (jump vm offset)
unfolding jump
jump-Holds slot vm offset =
    Ends-after (Stack.current vm.stack)
      (λ frame. Ends-after (moved_pc frame.pc offset) (λ target. set_current-Holds slot vm _))

pub jump_if-Holds :
    (slot : ℕ) (taken : Bool) (vm : Vm) (offset : ℤ)
    → Ends (Holds slot vm) (jump_if taken vm offset)
unfolding jump_if
jump_if-Holds slot true vm offset = jump-Holds slot vm offset
jump_if-Holds slot false vm offset = Ends-ok _ _ (Keeps-refl slot vm.stack)

-- The write that ends many an instruction.
pub put_reg-Holds :
    (vm after : Vm) (base dest reg : ℕ) (value : Value)
    → (dest == reg) ≡ false
    → Still vm after
    → Ends (Holds (base + reg) vm) (put after (base + dest) value)
put_reg-Holds vm after base dest reg value h e =
    put-Holds (base + reg) vm after (base + dest) value (apart base dest reg h) e

pub get_upval-Holds :
    (vm : Vm) (base dest index reg : ℕ)
    → (dest == reg) ≡ false
    → Ends (Holds (base + reg) vm) (get_upval vm (base + dest) index)
unfolding get_upval
get_upval-Holds vm base dest index reg h = Ends-after (upvalue vm index) (elim [
  | open_at slot ↦
      Ends-after (Stack.at vm.stack slot) (λ value. put_reg-Holds vm vm base dest reg value h refl)
  | closed value ↦ put_reg-Holds vm vm base dest reg value h refl
])

pub unary-Holds :
    (vm : Vm) (base dest from reg : ℕ) (compute : Operand → Answer Value)
    → (dest == reg) ≡ false
    → Ends (Holds (base + reg) vm) (unary vm base dest from compute)
unfolding unary
unary-Holds vm base dest from reg compute h = Ends-after (lift (operand vm base from)) (λ read.
    Ends-after (compute read) (λ value. Ends-lift (put_reg-Holds vm vm base dest reg value h refl)))

operate-Still :
    (host : Host) (vm : Vm) (kind : Kind) (left right : Operand)
    → Ends (λ (p : Value × Vm). Still vm p.1) (operate host vm kind left right)
unfolding operate
operate-Still host vm (Kind.arith kind) left right =
    Ends-after (raised vm _) (λ value. Ends-ok _ _ refl)
operate-Still host vm (Kind.bits kind) left right =
    Ends-after (raised vm _) (λ value. Ends-ok _ _ refl)
operate-Still host vm (Kind.order kind) left right =
    Ends-after (compared vm _) (λ value. Ends-ok _ _ refl)
operate-Still host vm (Kind.same wanted) left right = Ends-ok _ _ refl
operate-Still host vm Kind.join left right = concat-Still host vm left right

pub binary-Holds :
    (host : Host) (vm : Vm) (base dest left right reg : ℕ) (kind : Kind)
    → (dest == reg) ≡ false
    → Ends (Holds (base + reg) vm) (binary host vm base dest left right kind)
unfolding binary
binary-Holds host vm base dest left right reg kind h =
    Ends-after (lift (operand vm base left)) (λ first.
      Ends-after (lift (operand vm base right)) (λ second.
        Ends-then (operate-Still host vm kind first second)
          (λ p e. Ends-lift (put_reg-Holds vm p.1 base dest reg p.0 h e))))

-- The four registers of a loop.
abbrev pub Outside : ℕ → ℕ → ℕ → Type 0
Outside from count slot = (slot < from) ⊎ (from + count ≤ slot)

write_loop-Holds :
    (slot : ℕ) (vm : Vm) (control : ℕ) (o : Outcome Message (Bool × Registers))
    → Outside control 4 slot
    → Ends (λ (p : Bool × Vm). Holds slot vm p.1) (write_loop vm control o)
unfolding write_loop
write_loop-Holds slot vm control (ok (false, at)) out = Ends-ok _ _ (Keeps-refl slot vm.stack)
write_loop-Holds slot vm control (ok (true, at)) out =
    let first : control ≢ slot = ground (arith, out) in
    let second : control + 1 ≢ slot = ground (arith, out) in
    let third : control + 2 ≢ slot = ground (arith, out) in
    let fourth : control + 3 ≢ slot = ground (arith, out) in
    Ends-then (Ends-lift (put-Holds slot vm vm control at.control first refl)) (λ a h.
      Ends-then
        (Ends-lift
          (Holds-trans slot vm a h (put-Holds slot a a (control + 1) at.limit second refl)))
        (λ b g.
          Ends-then
            (Ends-lift
              (Holds-trans slot vm b g (put-Holds slot b b (control + 2) at.step third refl)))
            (λ c f.
              Ends-then
                (Ends-lift
                  (Holds-trans slot vm c f (put-Holds slot c c (control + 3) at.var fourth refl)))
                (λ d k. Ends-ok _ _ k))))
write_loop-Holds slot vm control (err e) out = throw-Ends _ vm (loop_message e)
write_loop-Holds slot vm control panic out = Ends-panic _

pub prepare-Holds :
    (slot : ℕ) (host : Host) (vm : Vm) (control : ℕ)
    → Outside control 4 slot
    → Ends (λ (p : Bool × Vm). Holds slot vm p.1) (prepare host vm control)
unfolding prepare
prepare-Holds slot host vm control out =
    Ends-after (lift (loop_registers vm control)) (λ at. write_loop-Holds slot vm control _ out)

pub advance-Holds :
    (slot : ℕ) (host : Host) (vm : Vm) (control : ℕ)
    → Outside control 4 slot
    → Ends (λ (p : Bool × Vm). Holds slot vm p.1) (advance host vm control)
unfolding advance
advance-Holds slot host vm control out =
    Ends-after (lift (loop_registers vm control)) (λ at. write_loop-Holds slot vm control _ out)
