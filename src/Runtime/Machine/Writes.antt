-- ===== src/Runtime/Machine/Writes.antt =====
-- What an instruction may write: `writes` of crates/ruta-runtime/src/vm/origin.rs beside `step` of
-- vm/dispatch.rs.
use ruta.Prelude.{ℕ, ◌+◌, ◌≡◌, inl, inr, refl, arith, ◌==◌, leb, true, false, not, Bool-cases}
use ruta.Bytecode.Op.{Op}
use ruta.Bytecode.OpCode.{multi}
use ruta.Runtime.Value.{nil, bool}
use ruta.Runtime.Stack as Stack
use ruta.Runtime.Stack.{Stack, Frame, reserve, fill, shift}
use ruta.Runtime.Machine.{Host, Vm, lift, running_proto, constant}
use ruta.Runtime.Machine.Origin.{writes, within}
use ruta.Runtime.Machine.Call.{Natives}
use ruta.Runtime.Machine.Perform.{index_op}
use ruta.Runtime.Machine.Leave.{named_reg, vararg_op}
use ruta.Runtime.Machine.Dispatch.{jump_on, perform}
use ruta.Runtime.Arith as Arith
use ruta.Runtime.Machine.Dispatch.{Kind, bits, order, same, join}
use ruta.Runtime.Machine.Ends.{Ends, Ends-weaken, Ends-then, Ends-after, Ends-lift}
use ruta.Runtime.Machine.Keeping.{Keeps-trans}
use ruta.Runtime.Machine.Quiet.{Holds, Still-Holds, close-Still}
use ruta.Runtime.Machine.Registers.{
  Outside, Holds-trans, put_reg-Holds, jump-Holds, jump_if-Holds, get_upval-Holds, unary-Holds,
  binary-Holds, prepare-Holds, advance-Holds,
}
use ruta.Runtime.Machine.Arms.{
  index_in-Holds, define_global-Still, set_index-Still, set_list-Still, set_list_spread-Holds,
  closure-Holds,
}
use ruta.Runtime.Machine.Spreading.{available-Still, wanted_of, spread-Holds}

-- What `writes` leaves out for `Vararg` lies outside of what it fills.
spread-Outside :
    (base first count available reg : ℕ)
    → writes (Op.vararg first count) reg ≡ false
    → Outside (base + first) (wanted_of count available) (base + reg)
unfolding writes
spread-Outside base first count available reg h = elim (Bool-cases (leb first reg)) [
  | inr t ↦ inl (ground (arith, t))
  | inl t ↦ elim (Bool-cases (count == multi)) [
    | inl u ↦ absurd (ground (arith, t, u, h))
    | inr u ↦ rw u (inr (ground (arith, t, u, h)))
  ]
]

vararg-Holds :
    (vm : Vm) (base first count reg : ℕ)
    → writes (Op.vararg first count) reg ≡ false
    → Ends (Holds (base + reg) vm) (vararg_op vm base first count)
unfolding vararg_op
vararg-Holds vm base first count reg h = Ends-after (lift (running_proto vm)) (λ proto.
    let named = named_reg proto.body.vararg (base + proto.body.params) in
    Ends-then (available-Still vm named) (λ p e.
      Ends-weaken (Holds (base + reg) vm) (Holds (base + reg) p.1) _
        (spread-Holds (base + reg) p.1 base named (base + first) count p.0
          (spread-Outside base first count p.0 reg h))
        (λ after k.
          Keeps-trans (base + reg) vm.stack p.1.stack after.stack
            (Still-Holds (base + reg) vm p.1 e) k)))

-- Every instruction but those that call, return, or write an upvalue.
abbrev pub IsPlain : Op → Type 0
IsPlain (Op.call _ _ _) = ⊥
IsPlain (Op.tail_call _ _) = ⊥
IsPlain (Op.return _ _) = ⊥
IsPlain (Op.set_upval _ _) = ⊥
IsPlain _ = Unit

loop-Outside :
    (base control reg : ℕ) → within control 4 reg ≡ false → Outside (base + control) 4 (base + reg)
loop-Outside base control reg h = ground (arith, h)

-- After an instruction that neither calls nor returns nor writes an upvalue, and that answers, a
-- register that `writes` does not name and that was in the stack holds what it held, the frames are as
-- many as before, and the stack is no shorter.
pub perform-Holds :
    (host : Host) (natives : Natives) (vm : Vm) (base : ℕ) (op : Op) (reg : ℕ)
    → IsPlain op
    → writes op reg ≡ false
    → Ends (Holds (base + reg) vm) (perform host natives vm base op)
unfolding perform writes jump_on index_op
perform-Holds host natives vm base (Op.load_nil dest) reg p h =
    Ends-lift (put_reg-Holds vm vm base dest reg nil h refl)
perform-Holds host natives vm base (Op.load_true dest) reg p h =
    Ends-lift (put_reg-Holds vm vm base dest reg (bool true) h refl)
perform-Holds host natives vm base (Op.load_false dest) reg p h =
    Ends-lift (put_reg-Holds vm vm base dest reg (bool false) h refl)
perform-Holds host natives vm base (Op.load_const dest index) reg p h =
    Ends-lift
      (Ends-after (constant vm index) (λ value. put_reg-Holds vm vm base dest reg value h refl))
perform-Holds host natives vm base (Op.move dest src) reg p h = Ends-lift (
    Ends-after (Stack.at vm.stack (base + src))
      (λ value. put_reg-Holds vm vm base dest reg value h refl))
perform-Holds host natives vm base (Op.get_upval dest index) reg p h =
    Ends-lift (get_upval-Holds vm base dest index reg h)
perform-Holds host natives vm base (Op.set_upval index src) reg p h = elim p [ ]
perform-Holds host natives vm base (Op.close_upvals from) reg p h =
    Ends-lift (Ends-weaken _ _ _ (close-Still vm (base + from)) (Still-Holds (base + reg) vm))
perform-Holds host natives vm base (Op.closure dest child) reg p h =
    Ends-lift (closure-Holds vm base dest child reg h)
perform-Holds host natives vm base (Op.vararg first count) reg p h =
    vararg-Holds vm base first count reg h
perform-Holds host natives vm base (Op.new_table dest array_hint hash_hint) reg p h =
    Ends-lift (put_reg-Holds vm _ base dest reg _ h refl)
perform-Holds host natives vm base (Op.index dest object key) reg p h =
    Ends-after (lift (Stack.at vm.stack (base + object))) (λ target.
      Ends-after (lift (Stack.at vm.stack (base + key)))
        (λ name. index_in-Holds vm base object dest reg target name h))
perform-Holds host natives vm base (Op.set_index object key src) reg p h =
    Ends-weaken _ _ _ (set_index-Still host vm base object key src) (Still-Holds (base + reg) vm)
perform-Holds host natives vm base (Op.define_global env key src) reg p h =
    Ends-weaken _ _ _ (define_global-Still host vm base env key src) (Still-Holds (base + reg) vm)
perform-Holds host natives vm base (Op.set_list from first count index) reg p h =
    Ends-weaken _ _ _ (set_list-Still host vm base from first count index)
      (Still-Holds (base + reg) vm)
perform-Holds host natives vm base (Op.set_list_spread from first index) reg p h =
    set_list_spread-Holds (base + reg) host vm base from first index
perform-Holds host natives vm base (Op.neg dest from) reg p h =
    unary-Holds vm base dest from reg _ h
perform-Holds host natives vm base (Op.not dest from) reg p h =
    unary-Holds vm base dest from reg _ h
perform-Holds host natives vm base (Op.len dest from) reg p h =
    unary-Holds vm base dest from reg _ h
perform-Holds host natives vm base (Op.b_not dest from) reg p h =
    unary-Holds vm base dest from reg _ h
perform-Holds host natives vm base (Op.add dest left right) reg p h =
    binary-Holds host vm base dest left right reg (Kind.arith Arith.add) h
perform-Holds host natives vm base (Op.sub dest left right) reg p h =
    binary-Holds host vm base dest left right reg (Kind.arith Arith.sub) h
perform-Holds host natives vm base (Op.mul dest left right) reg p h =
    binary-Holds host vm base dest left right reg (Kind.arith Arith.mul) h
perform-Holds host natives vm base (Op.div dest left right) reg p h =
    binary-Holds host vm base dest left right reg (Kind.arith Arith.div) h
perform-Holds host natives vm base (Op.i_div dest left right) reg p h =
    binary-Holds host vm base dest left right reg (Kind.arith Arith.i_div) h
perform-Holds host natives vm base (Op.modulo dest left right) reg p h =
    binary-Holds host vm base dest left right reg (Kind.arith Arith.modulo) h
perform-Holds host natives vm base (Op.pow dest left right) reg p h =
    binary-Holds host vm base dest left right reg (Kind.arith Arith.pow) h
perform-Holds host natives vm base (Op.concat dest left right) reg p h =
    binary-Holds host vm base dest left right reg join h
perform-Holds host natives vm base (Op.eq dest left right) reg p h =
    binary-Holds host vm base dest left right reg (same true) h
perform-Holds host natives vm base (Op.ne dest left right) reg p h =
    binary-Holds host vm base dest left right reg (same false) h
perform-Holds host natives vm base (Op.lt dest left right) reg p h =
    binary-Holds host vm base dest left right reg (order Arith.lt) h
perform-Holds host natives vm base (Op.le dest left right) reg p h =
    binary-Holds host vm base dest left right reg (order Arith.le) h
perform-Holds host natives vm base (Op.gt dest left right) reg p h =
    binary-Holds host vm base dest left right reg (order Arith.gt) h
perform-Holds host natives vm base (Op.ge dest left right) reg p h =
    binary-Holds host vm base dest left right reg (order Arith.ge) h
perform-Holds host natives vm base (Op.b_and dest left right) reg p h =
    binary-Holds host vm base dest left right reg (bits Arith.and) h
perform-Holds host natives vm base (Op.b_or dest left right) reg p h =
    binary-Holds host vm base dest left right reg (bits Arith.or) h
perform-Holds host natives vm base (Op.b_xor dest left right) reg p h =
    binary-Holds host vm base dest left right reg (bits Arith.xor) h
perform-Holds host natives vm base (Op.shl dest left right) reg p h =
    binary-Holds host vm base dest left right reg (bits Arith.shl) h
perform-Holds host natives vm base (Op.shr dest left right) reg p h =
    binary-Holds host vm base dest left right reg (bits Arith.shr) h
perform-Holds host natives vm base (Op.call callee args results) reg p h = elim p [ ]
perform-Holds host natives vm base (Op.tail_call callee args) reg p h = elim p [ ]
perform-Holds host natives vm base (Op.return first count) reg p h = elim p [ ]
perform-Holds host natives vm base (Op.jump offset) reg p h =
    Ends-lift (jump-Holds (base + reg) vm offset)
perform-Holds host natives vm base (Op.jump_if_true cond offset) reg p h =
    Ends-lift (
      Ends-after (Stack.at vm.stack (base + cond))
        (λ value. jump_if-Holds (base + reg) _ vm offset))
perform-Holds host natives vm base (Op.jump_if_false cond offset) reg p h =
    Ends-lift (
      Ends-after (Stack.at vm.stack (base + cond))
        (λ value. jump_if-Holds (base + reg) _ vm offset))
perform-Holds host natives vm base (Op.for_prep control offset) reg p h =
    Ends-then
      (prepare-Holds (base + reg) host vm (base + control) (loop-Outside base control reg h))
      (λ r k.
        Ends-lift
          (Holds-trans (base + reg) vm r.1 k (jump_if-Holds (base + reg) (not r.0) r.1 offset)))
perform-Holds host natives vm base (Op.for_loop control offset) reg p h =
    Ends-then
      (advance-Holds (base + reg) host vm (base + control) (loop-Outside base control reg h))
      (λ r k.
        Ends-lift (Holds-trans (base + reg) vm r.1 k (jump_if-Holds (base + reg) r.0 r.1 offset)))
