-- ===== src/Runtime/Machine/Bounded.antt =====
-- No run gets deeper than the limit: crates/ruta-runtime/src/vm/call.rs and vm/dispatch.rs.
use ruta.Prelude.{
  ℕ, suc, ◌+◌, ◌-◌, ◌≤◌, ◌≡◌, inl, inr, refl, sym, ap, subst, arith, ltb, leb, Bool, Bool-cases,
  List, [], ◌∷◌, ◌++◌, length,
}
use ruta.Runtime.Value.{
  Value, nil, bool, int, float, str, table, func, user_data, thread, type_name,
}
use ruta.Runtime.Heap as Heap
use ruta.Runtime.Heap.Load.{set_upvalue}
use ruta.Runtime.Heap.{Run, Proto, Function, lua, native, open_at, closed, new_table}
use ruta.Runtime.Stack as Stack
use ruta.Runtime.Stack.{Stack, Frame, Want, exactly, all, reserve, fill, shift}
use ruta.Syntax.Text.{codes}
use ruta.Runtime.Machine.{Host, Vm, lift, cell, upvalue, running_proto, pending, settle_top}
use ruta.Runtime.Machine.Raise.{fault_call}
use ruta.Runtime.Machine.Call.{Natives, depth_limit, take_results, call_function, call_value, call}
use ruta.Runtime.Machine.Ends.{
  Ends, Ends-ok, Ends-panic, Ends-then, Ends-after, Ends-lift, throw-Ends,
}
use ruta.Runtime.Machine.Trace.{callee_name}
use ruta.Runtime.Machine.Origin.{clause}
use ruta.Runtime.Machine.Perform.{minus, count_from, want_of, set_upval}
use ruta.Runtime.Machine.Leave.{
  leave, finish, call_op, tail_to, tail_value, tail_call_op, return_op,
}
use ruta.Runtime.Machine.Quiet.{close-Still}
use ruta.Runtime.Machine.Depth.{
  Level, Shallow, put-Level, shift-Level, set_current-Level, settle-Level, enter-Shallow,
}

-- Host functions leave as many frames as they find.
abbrev pub KeepFrames : Natives → Type 0
KeepFrames natives =
    (address : ℕ) (vm : Vm) (callee args : ℕ)
    → Ends (λ (p : ℕ × Vm). Level vm.stack p.1.stack) (natives address vm callee args)

fault_call-Ends {ℓ} :
    {A : Type ℓ} (P : A → Type 0) (vm : Vm) (value : Value) (callee : ℕ)
    → Ends P (fault_call {A = A} vm value callee)
unfolding fault_call
fault_call-Ends P vm value callee = Ends-after (lift (Stack.current vm.stack)) (λ frame.
    elim (Bool-cases (ltb callee frame.base)) [
      | inl t ↦ rw t (Ends-panic P)
      | inr t ↦ elim (Bool-cases (leb 256 (callee - frame.base))) [
        | inl u ↦ rw (t, u) (Ends-panic P)
        | inr u ↦
            rw (t, u)
              (Ends-after (lift (callee_name vm (callee - frame.base))) (λ found. throw-Ends P vm (
                codes "attempt to call a "
                ++ (codes (type_name value) ++ (codes " value" ++ clause found)))))
      ]
    ])

take_results-Level :
    (vm : Vm) (mark callee produced : ℕ) (want : Want)
    → Ends (λ after. Level vm.stack after.stack) (take_results vm mark callee produced want)
unfolding take_results
take_results-Level vm mark callee produced want =
    Ends-then (settle-Level vm mark callee produced want) (λ p h. Ends-ok _ _ h)

module _ (host : Host) (natives : Natives) (tame : KeepFrames natives) where
  call_function-Shallow :
      (vm : Vm) (callee args : ℕ) (want : Want) (function : Function)
      → Shallow vm
      → Ends
          (λ (p : Bool × Vm). Shallow p.1)
          (call_function host natives vm callee args want function)
  unfolding call_function
  call_function-Shallow vm callee args want (lua proto upvals) room =
      Ends-then (enter-Shallow host vm callee args want) (λ after h. Ends-ok _ _ h)
  call_function-Shallow vm callee args want (native name address) room =
      Ends-then (tame address vm callee args) (λ p h.
        Ends-then (Ends-lift (take_results-Level p.1 (Stack.height vm.stack) callee p.0 want))
          (λ taken g. Ends-ok _ _ (omega (arith, room, h, g))))

  call_value-Shallow :
      (vm : Vm) (callee args : ℕ) (want : Want) (value : Value)
      → Shallow vm
      → Ends (λ (p : Bool × Vm). Shallow p.1) (call_value host natives vm callee args want value)
  unfolding call_value
  call_value-Shallow vm callee args want (func handle) room =
      Ends-after (lift (Heap.func vm.heap handle))
        (λ function. call_function-Shallow vm callee args want function room)
  call_value-Shallow vm callee args want nil room = fault_call-Ends _ vm nil callee
  call_value-Shallow vm callee args want (bool b) room = fault_call-Ends _ vm (bool b) callee
  call_value-Shallow vm callee args want (int n) room = fault_call-Ends _ vm (int n) callee
  call_value-Shallow vm callee args want (float n) room = fault_call-Ends _ vm (float n) callee
  call_value-Shallow vm callee args want (str n) room = fault_call-Ends _ vm (str n) callee
  call_value-Shallow vm callee args want (table n) room = fault_call-Ends _ vm (table n) callee
  call_value-Shallow vm callee args want (user_data n) room =
      fault_call-Ends _ vm (user_data n) callee
  call_value-Shallow vm callee args want (thread n) room = fault_call-Ends _ vm (thread n) callee

  call-Shallow :
      (vm : Vm) (callee args : ℕ) (want : Want)
      → Shallow vm
      → Ends (λ (p : Bool × Vm). Shallow p.1) (call host natives vm callee args want)
  unfolding call
  call-Shallow vm callee args want room =
      Ends-after (lift (Stack.at vm.stack callee))
        (λ value. call_value-Shallow vm callee args want value room)

  settle_top-Level : (vm : Vm) → Ends (λ after. Level vm.stack after.stack) (settle_top vm)
  settle_top-Level vm = Ends-after (running_proto vm) (λ proto. set_current-Level vm _)

  pub call_op-Shallow :
      (vm : Vm) (base callee args results : ℕ)
      → Shallow vm
      → Ends Shallow (call_op host natives vm base callee args results)
  unfolding call_op
  call_op-Shallow vm base callee args results room =
      Ends-after (lift (count_from vm args (base + callee + 1))) (λ count.
        Ends-then (Ends-lift (settle_top-Level vm)) (λ settled e.
          Ends-then
            (call-Shallow settled (base + callee) count (want_of results) (omega (arith, room, e)))
            (λ p h. Ends-ok _ _ h)))

  leave-Shallow : (vm : Vm) → Shallow vm → Ends (λ (p : Frame × Vm). Shallow p.1) (leave vm)
  leave-Shallow vm room = by_frames vm.stack.frames refl
    where
      by_frames :
          (frames : List Frame)
          → vm.stack.frames ≡ frames
          → Ends (λ (p : Frame × Vm). Shallow p.1) (leave vm)
      by_frames [] e = rw e (Ends-panic _)
      by_frames (frame ∷ frames) e =
          let size : length vm.stack.frames ≡ suc (length frames) =
            ap (λ (l : List Frame). length l) e in
          rw e (Ends-ok _ _ (omega (arith, size, room)))

  finish-Shallow :
      (vm : Vm) (base from produced : ℕ) → Shallow vm → Ends Shallow (finish vm base from produced)
  unfolding finish
  finish-Shallow vm base from produced room = Ends-then (close-Still vm base) (λ shut e.
      Ends-then
        (leave-Shallow shut (subst (λ (s : Stack). length s.frames ≤ depth_limit) (sym e) room))
        (λ p h.
          Ends-then (settle-Level p.1 from p.0.ret_to produced p.0.want)
            (λ q g. Ends-ok _ _ (omega (arith, h, g)))))

  tail_to-Shallow :
      (vm : Vm) (base from count : ℕ) (function : Function)
      → Shallow vm
      → Ends Shallow (tail_to host natives vm base from count function)
  unfolding tail_to
  tail_to-Shallow vm base from count (native name address) room =
      Ends-then (call-Shallow vm from count all room) (λ p h.
        Ends-after (lift (pending p.1)) (λ top.
          Ends-after (lift (minus top from))
            (λ produced. Ends-lift (finish-Shallow p.1 base from produced h))))
  tail_to-Shallow vm base from count (lua proto upvals) room =
      Ends-then (Ends-lift (close-Still vm base)) (λ shut e.
        let still = subst (λ (s : Stack). length s.frames ≤ depth_limit) (sym e) room in
        Ends-then (Ends-lift (leave-Shallow shut still)) (λ p h.
          Ends-then (Ends-lift (shift-Level p.1.stack from p.0.ret_to (count + 1))) (λ s g.
            Ends-then
              (call-Shallow (record p.1 { stack = s }) p.0.ret_to count p.0.want
                (omega (arith, h, g)))
              (λ q f. Ends-ok _ _ f))))

  tail_value-Shallow :
      (vm : Vm) (base from count : ℕ) (value : Value)
      → Shallow vm
      → Ends Shallow (tail_value host natives vm base from count value)
  unfolding tail_value
  tail_value-Shallow vm base from count (func handle) room =
      Ends-after (lift (Heap.func vm.heap handle))
        (λ function. tail_to-Shallow vm base from count function room)
  tail_value-Shallow vm base from count nil room = fault_call-Ends _ vm nil from
  tail_value-Shallow vm base from count (bool b) room = fault_call-Ends _ vm (bool b) from
  tail_value-Shallow vm base from count (int n) room = fault_call-Ends _ vm (int n) from
  tail_value-Shallow vm base from count (float n) room = fault_call-Ends _ vm (float n) from
  tail_value-Shallow vm base from count (str n) room = fault_call-Ends _ vm (str n) from
  tail_value-Shallow vm base from count (table n) room = fault_call-Ends _ vm (table n) from
  tail_value-Shallow vm base from count (user_data n) room = fault_call-Ends _ vm (user_data n) from
  tail_value-Shallow vm base from count (thread n) room = fault_call-Ends _ vm (thread n) from

  pub set_upval-Level :
      (vm : Vm) (index from : ℕ)
      → Ends (λ after. Level vm.stack after.stack) (set_upval vm index from)
  unfolding set_upval
  set_upval-Level vm index from = Ends-after (Stack.at vm.stack from) (λ value.
      Ends-after (upvalue vm index) (elim [
        | open_at slot ↦ Ends-then (put-Level vm.stack slot value) (λ s e. Ends-ok _ _ e)
        | closed old ↦ Ends-after (cell vm index) (λ handle.
            Ends-after (set_upvalue vm.heap handle (closed value)) (λ heap. Ends-ok _ _ refl))
      ]))

  pub tail_call_op-Shallow :
      (vm : Vm) (base callee args : ℕ)
      → Shallow vm
      → Ends Shallow (tail_call_op host natives vm base callee args)
  unfolding tail_call_op
  tail_call_op-Shallow vm base callee args room =
      Ends-after (lift (count_from vm args (base + callee + 1))) (λ count.
        Ends-after (lift (Stack.at vm.stack (base + callee)))
          (λ target. tail_value-Shallow vm base (base + callee) count target room))

  pub return_op-Shallow :
      (vm : Vm) (base first count : ℕ) → Shallow vm → Ends Shallow (return_op vm base first count)
  unfolding return_op
  return_op-Shallow vm base first count room =
      Ends-after (count_from vm count (base + first))
        (λ produced. finish-Shallow vm base (base + first) produced room)
