-- ===== src/Runtime/Machine/Reached.antt =====
-- The states that a run goes through: the loop of crates/ruta-runtime/src/vm/dispatch.rs.
use ruta.Prelude.{
  ◌^◌, expect, checked, ℕ, ◌+◌, ◌==◌, length, ◌≡◌, inr, refl, ap, ◌∙◌, arith, false, ok,
}
use ruta.Bytecode.Op.{Op}
use ruta.Runtime.Stack as Stack
use ruta.Runtime.Stack.{Stack}
use ruta.Runtime.Machine.{Host, Vm, lift, running_proto}
use ruta.Runtime.Machine.Origin.{writes, within}
use ruta.Runtime.Machine.Call.{Natives}
use ruta.Runtime.Machine.Leave.{named_reg, vararg_op}
use ruta.Runtime.Machine.Dispatch.{perform}
use ruta.Runtime.Machine.Loop.{advance_pc, fetch, step, round}
use ruta.Runtime.Machine.Ends.{Ends, Ends-weaken, Ends-then, Ends-after, Ends-lift}
use ruta.Runtime.Machine.Spreading.{available-Still, wanted_of, spread-Holds}
use ruta.Runtime.Machine.Writes.{IsPlain, perform-Holds}
use ruta.Runtime.Machine.Depth.{Level, Shallow, set_current-Level}
use ruta.Runtime.Machine.Bounded.{
  KeepFrames, call_op-Shallow, tail_call_op-Shallow, return_op-Shallow, set_upval-Level,
}

-- A register that an instruction does not write.
abbrev spare : Op → ℕ
spare (Op.load_nil dest) = dest + 1
spare (Op.load_true dest) = dest + 1
spare (Op.load_false dest) = dest + 1
spare (Op.load_const dest _) = dest + 1
spare (Op.move dest _) = dest + 1
spare (Op.get_upval dest _) = dest + 1
spare (Op.closure dest _) = dest + 1
spare (Op.new_table dest _ _) = dest + 1
spare (Op.index dest _ _) = dest + 1
spare (Op.neg dest _) = dest + 1
spare (Op.not dest _) = dest + 1
spare (Op.len dest _) = dest + 1
spare (Op.b_not dest _) = dest + 1
spare (Op.add dest _ _) = dest + 1
spare (Op.sub dest _ _) = dest + 1
spare (Op.mul dest _ _) = dest + 1
spare (Op.div dest _ _) = dest + 1
spare (Op.i_div dest _ _) = dest + 1
spare (Op.modulo dest _ _) = dest + 1
spare (Op.pow dest _ _) = dest + 1
spare (Op.concat dest _ _) = dest + 1
spare (Op.eq dest _ _) = dest + 1
spare (Op.ne dest _ _) = dest + 1
spare (Op.lt dest _ _) = dest + 1
spare (Op.le dest _ _) = dest + 1
spare (Op.gt dest _ _) = dest + 1
spare (Op.ge dest _ _) = dest + 1
spare (Op.b_and dest _ _) = dest + 1
spare (Op.b_or dest _ _) = dest + 1
spare (Op.b_xor dest _ _) = dest + 1
spare (Op.shl dest _ _) = dest + 1
spare (Op.shr dest _ _) = dest + 1
spare (Op.for_prep control _) = control + 4
spare (Op.for_loop control _) = control + 4
spare _ = 0

abbrev IsVararg : Op → Type 0
IsVararg (Op.vararg _ _) = Unit
IsVararg _ = ⊥

past : (n : ℕ) → (n == n + 1) ≡ false
past n = ground arith

past_loop : (n : ℕ) → within n 4 (n + 4) ≡ false
past_loop n = ground arith

spare_unwritten : (op : Op) → IsPlain op → (IsVararg op → ⊥) → writes op (spare op) ≡ false
unfolding writes
spare_unwritten (Op.load_nil dest) p v = past dest
spare_unwritten (Op.load_true dest) p v = past dest
spare_unwritten (Op.load_false dest) p v = past dest
spare_unwritten (Op.load_const dest _) p v = past dest
spare_unwritten (Op.move dest _) p v = past dest
spare_unwritten (Op.get_upval dest _) p v = past dest
spare_unwritten (Op.closure dest _) p v = past dest
spare_unwritten (Op.new_table dest _ _) p v = past dest
spare_unwritten (Op.index dest _ _) p v = past dest
spare_unwritten (Op.neg dest _) p v = past dest
spare_unwritten (Op.not dest _) p v = past dest
spare_unwritten (Op.len dest _) p v = past dest
spare_unwritten (Op.b_not dest _) p v = past dest
spare_unwritten (Op.add dest _ _) p v = past dest
spare_unwritten (Op.sub dest _ _) p v = past dest
spare_unwritten (Op.mul dest _ _) p v = past dest
spare_unwritten (Op.div dest _ _) p v = past dest
spare_unwritten (Op.i_div dest _ _) p v = past dest
spare_unwritten (Op.modulo dest _ _) p v = past dest
spare_unwritten (Op.pow dest _ _) p v = past dest
spare_unwritten (Op.concat dest _ _) p v = past dest
spare_unwritten (Op.eq dest _ _) p v = past dest
spare_unwritten (Op.ne dest _ _) p v = past dest
spare_unwritten (Op.lt dest _ _) p v = past dest
spare_unwritten (Op.le dest _ _) p v = past dest
spare_unwritten (Op.gt dest _ _) p v = past dest
spare_unwritten (Op.ge dest _ _) p v = past dest
spare_unwritten (Op.b_and dest _ _) p v = past dest
spare_unwritten (Op.b_or dest _ _) p v = past dest
spare_unwritten (Op.b_xor dest _ _) p v = past dest
spare_unwritten (Op.shl dest _ _) p v = past dest
spare_unwritten (Op.shr dest _ _) p v = past dest
spare_unwritten (Op.for_prep control offset) p v = past_loop control
spare_unwritten (Op.for_loop control offset) p v = past_loop control
spare_unwritten (Op.vararg first count) p v = absurd (v tt)
spare_unwritten (Op.call callee args results) p v = elim p [ ]
spare_unwritten _ p v = refl

plain-Level :
    (host : Host) (natives : Natives) (vm : Vm) (base : ℕ) (op : Op)
    → IsPlain op
    → (IsVararg op → ⊥)
    → Ends (λ after. Level vm.stack after.stack) (perform host natives vm base op)
plain-Level host natives vm base op p v =
    Ends-weaken _ _ _ (perform-Holds host natives vm base op (spare op) p (spare_unwritten op p v))
      (λ after k. k.depth)

vararg-Level :
    (vm : Vm) (base first count : ℕ)
    → Ends (λ after. Level vm.stack after.stack) (vararg_op vm base first count)
unfolding vararg_op
vararg-Level vm base first count = Ends-after (lift (running_proto vm)) (λ proto.
    let named = named_reg proto.body.vararg (base + proto.body.params) in
    Ends-then (available-Still vm named) (λ p e.
      let slot = base + first + wanted_of count p.0 in
      Ends-weaken _ _ _
        (spread-Holds slot p.1 base named (base + first) count p.0 (inr (omega arith)))
        (λ after k. k.depth ∙ ap (λ (s : Stack). length s.frames) e)))

module _ (host : Host) (natives : Natives) (tame : KeepFrames natives) where
  perform-Shallow :
      (vm : Vm) (base : ℕ) (op : Op) → Shallow vm → Ends Shallow (perform host natives vm base op)
  unfolding perform
  perform-Shallow vm base (Op.call callee args results) room =
      call_op-Shallow host natives tame vm base callee args results room
  perform-Shallow vm base (Op.tail_call callee args) room =
      tail_call_op-Shallow host natives tame vm base callee args room
  perform-Shallow vm base (Op.return first count) room =
      Ends-lift (return_op-Shallow host natives tame vm base first count room)
  perform-Shallow vm base (Op.set_upval index src) room =
      Ends-weaken Shallow _ _ (Ends-lift (set_upval-Level host natives tame vm index (base + src)))
        (λ after e. omega (arith, room, e))
  perform-Shallow vm base (Op.vararg first count) room =
      Ends-weaken Shallow _ _ (vararg-Level vm base first count) (λ after e. omega (arith, room, e))
  perform-Shallow vm base op room =
      Ends-weaken Shallow _ _ (plain-Level host natives vm base op tt (λ v. v))
        (λ after e. omega (arith, room, e))

  advance_pc-Level :
      (vm : Vm) (len : ℕ) → Ends (λ (after : Vm). Level vm.stack after.stack) (advance_pc vm len)
  advance_pc-Level vm len = Ends-after (Stack.current vm.stack) (λ frame.
      Ends-after (expect (checked (2 ^ 32) (frame.pc + len)))
        (λ pc. set_current-Level vm (λ current. record current { pc = pc })))

  round-Shallow : (vm : Vm) → Shallow vm → Ends Shallow (round host natives vm)
  unfolding round step
  round-Shallow vm room = Ends-after (lift (fetch vm)) (λ p.
      Ends-after (lift (Stack.current vm.stack)) (λ frame.
        Ends-then (Ends-lift (advance_pc-Level vm p.1))
          (λ moved e. perform-Shallow moved frame.base p.0 (omega (arith, room, e)))))

-- The states that rounds of the loop lead to.
pub data Reaches (host : Host) (natives : Natives) : Vm → Vm → Type 0 where
  here : {vm : Vm} → Reaches host natives vm vm
  then :
      {vm next after : Vm}
      → round host natives vm ≡ ok next
      → Reaches host natives next after
      → Reaches host natives vm after

-- Where host functions leave as many frames as they find, no state that a run reaches from one with at
-- most 200,000 frames has more than 200,000.
pub Reaches-Shallow :
    (host : Host) (natives : Natives) (vm after : Vm)
    → KeepFrames natives
    → Shallow vm
    → Reaches host natives vm after
    → Shallow after
Reaches-Shallow host natives vm after tame room here = room
Reaches-Shallow host natives vm after tame room (then {next = next} e later) =
    Reaches-Shallow host natives next after tame
      ((round-Shallow host natives tame vm room).holds next e) later
