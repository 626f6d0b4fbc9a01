-- ===== src/Runtime/Machine/Spreading.antt =====
-- The slots that `Vararg` keeps: crates/ruta-runtime/src/vm/dispatch.rs.
use ruta.Prelude.{
  ℕ, zero, suc, ◌+◌, ◌^◌, ◌≤◌, ◌<◌, ◌≢◌, ◌⊎◌, inl, inr, refl, ◌∙◌, arith, ◌==◌, ltb, min, Bool,
  true, false, Bool-cases, if◌then◌else◌, Option, none, some, ok,
}
use ruta.Prelude.Int.{pos}
use ruta.Bytecode.OpCode.{multi}
use ruta.Runtime.Value.{Value, nil, int, str}
use ruta.Runtime.Stack as Stack
use ruta.Runtime.Stack.{Stack, Frame, reserve, fill, shift}
use ruta.Syntax.Text.{codes}
use ruta.Runtime.Machine.{Vm, lift, set_current}
use ruta.Runtime.Machine.Operators.{table_get}
use ruta.Runtime.Machine.Call.{height_limit}
use ruta.Runtime.Machine.Perform.{minus, table_handle}
use ruta.Runtime.Machine.Leave.{
  proper_count, table_count, available_in, copy_items, copy_varargs, spread,
}
use ruta.Runtime.Machine.Ends.{
  Ends, Ends-ok, Ends-weaken, Ends-then, Ends-after, Ends-lift, throw-Ends,
}
use ruta.Runtime.Machine.Keeping.{Keeps-refl, Keeps-trans, fill-Keeps, reserve-Keeps, shift-Keeps}
use ruta.Runtime.Machine.Quiet.{Still, Holds, intern-Still, put-Holds}
use ruta.Runtime.Machine.Registers.{Outside, set_current-Holds}

proper_count-Still :
    (vm : Vm) (value : Value) → Ends (λ (p : ℕ × Vm). Still vm p.1) (proper_count vm value)
unfolding proper_count
proper_count-Still vm (int (pos count)) = elim (Bool-cases (ltb count (2 ^ 30))) [
  | inl t ↦ rw t (Ends-ok _ _ refl)
  | inr t ↦ rw t (throw-Ends _ vm (codes "vararg table has no proper 'n'"))
]
proper_count-Still vm _ = throw-Ends _ vm (codes "vararg table has no proper 'n'")

pub available-Still :
    (vm : Vm) (reg : Option ℕ) → Ends (λ (p : ℕ × Vm). Still vm p.1) (available_in vm reg)
unfolding available_in table_count
available-Still vm none = Ends-after (lift (Stack.current vm.stack)) (λ frame. Ends-ok _ _ refl)
available-Still vm (some reg) = Ends-after (lift (Stack.at vm.stack reg)) (λ value.
    Ends-after (lift (table_handle value)) (λ handle.
      Ends-then (Ends-lift (intern-Still vm (codes "n"))) (λ p e.
        Ends-after (table_get p.1 handle (str p.0))
          (λ count. Ends-weaken _ _ _ (proper_count-Still p.1 count) (λ q f. f ∙ e)))))

copy_items-Holds :
    (slot count : ℕ) (vm : Vm) (handle to index : ℕ)
    → (slot < to + index) ⊎ (to + index + count ≤ slot)
    → Ends (Holds slot vm) (copy_items count vm handle to index)
unfolding copy_items
copy_items-Holds slot zero vm handle to index out = Ends-ok _ _ (Keeps-refl slot vm.stack)
copy_items-Holds slot (suc count) vm handle to index out =
    let other : to + index ≢ slot = ground (arith, out) in
    let later : (slot < to + (index + 1)) ⊎ (to + (index + 1) + count ≤ slot) =
      ground (arith, out) in
    Ends-after (table_get vm handle (int (pos (index + 1)))) (λ value.
      Ends-then (Ends-lift (put-Holds slot vm vm (to + index) value other refl)) (λ after h.
        Ends-weaken (Holds slot vm) (Holds slot after) _
          (copy_items-Holds slot count after handle to (index + 1) later)
          (λ t k. Keeps-trans slot vm.stack after.stack t.stack h k)))

copy_varargs-Holds :
    (slot : ℕ) (vm : Vm) (base : ℕ) (reg : Option ℕ) (to copied : ℕ)
    → Outside to copied slot
    → Ends (Holds slot vm) (copy_varargs vm base reg to copied)
unfolding copy_varargs
copy_varargs-Holds slot vm base (some reg) to copied out =
    let items : (slot < to + 0) ⊎ (to + 0 + copied ≤ slot) = ground (arith, out) in
    Ends-after (lift (Stack.at vm.stack reg)) (λ value.
      Ends-after (lift (table_handle value))
        (λ handle. copy_items-Holds slot copied vm handle to 0 items))
copy_varargs-Holds slot vm base none to copied out =
    Ends-after (lift (Stack.current vm.stack)) (λ frame.
      Ends-after (lift (minus base frame.varargs)) (λ from.
        Ends-then (Ends-lift (shift-Keeps slot vm.stack from to copied out))
          (λ s k. Ends-ok _ _ k)))

abbrev pub wanted_of : ℕ → ℕ → ℕ
wanted_of count available = if count == multi then available else count

topped-Holds :
    (slot : ℕ) (vm : Vm) (many : Bool) (top : ℕ)
    → Ends
        (Holds slot vm)
        (if many then lift (set_current vm (λ frame. record frame { top = top })) else ok vm)
topped-Holds slot vm true top = Ends-lift (set_current-Holds slot vm _)
topped-Holds slot vm false top = Ends-ok _ _ (Keeps-refl slot vm.stack)

pub spread-Holds :
    (slot : ℕ) (vm : Vm) (base : ℕ) (reg : Option ℕ) (to count available : ℕ)
    → Outside to (wanted_of count available) slot
    → Ends (Holds slot vm) (spread vm base reg to count available)
unfolding spread
spread-Holds slot vm base reg to count available out =
    let wanted = wanted_of count available in
    let copied = min wanted available in
    elim (Bool-cases (ltb height_limit (to + wanted))) [
      | inl t ↦ rw t (throw-Ends _ vm (codes "stack overflow"))
      | inr t ↦
          let roomy = record vm { stack = reserve vm.stack (to + wanted) } in
          let copies_out : Outside to copied slot = ground (arith, out) in
          let rest_out : (slot < to + copied) ⊎ (to + wanted ≤ slot) = ground (arith, out) in
          rw t (
            Ends-then (copy_varargs-Holds slot roomy base reg to copied copies_out) (λ copies h.
              Ends-then
                (Ends-lift (fill-Keeps slot copies.stack (to + copied) (to + wanted) nil rest_out))
                (λ s k.
                  let before =
                    Keeps-trans slot vm.stack roomy.stack copies.stack
                      (reserve-Keeps slot vm.stack (to + wanted)) h in
                  let held = Keeps-trans slot vm.stack copies.stack s before k in
                  Ends-weaken (Holds slot vm) (Holds slot (record copies { stack = s })) _
                    (topped-Holds slot (record copies { stack = s }) (count == multi) (to + wanted))
                    (λ after g. Keeps-trans slot vm.stack s after.stack held g))))
    ]
