-- ===== src/Runtime/Machine/Depth.antt =====
-- How many frames there are: crates/ruta-runtime/src/vm/call.rs and the loop of vm/dispatch.rs.
use ruta.Prelude.{
  ℕ, zero, suc, ◌+◌, ◌-◌, ◌≤◌, ◌<◌, ◌≡◌, inl, inr, refl, ap, ◌∙◌, arith, ◌==◌, leb, min, max,
  Bool-cases, length,
}
use ruta.Prelude.Int.{pos}
use ruta.Bytecode.Prototype as Code
use ruta.Bytecode.Prototype.{Vararg, Body, no_vararg, anonymous}
use ruta.Runtime.Value.{Value, nil, int, str, table}
use ruta.Runtime.Heap as Heap
use ruta.Runtime.Heap.{Run, Proto, Function, lua, native, open_at, closed, new_table}
use ruta.Runtime.Stack as Stack
use ruta.Runtime.Stack.{Stack, Frame, Want, exactly, all, reserve, fill, shift}
use ruta.Syntax.Text.{codes}
use ruta.Runtime.Machine.{Host, Vm, lift, closure_of, set_current}
use ruta.Runtime.Machine.Operators.{refused}
use ruta.Runtime.Machine.Call.{
  depth_limit, kept_of, topped, settle, base_of, fixed_of, place_params, fill_table, make_table,
  named_table, enter_proto, handle_of, enter,
}
use ruta.Runtime.Machine.Ends.{
  Ends, Ends-ok, Ends-panic, Ends-weaken, Ends-then, Ends-after, Ends-lift, throw-Ends,
}
use ruta.Runtime.Machine.Keeping.{
  put-Keeps, fill-Keeps, reserve-Keeps, shift-Keeps, set_current-Keeps,
}
use ruta.Runtime.Machine.Quiet.{Still, intern-Still, table_set-Still}

-- As many frames.
abbrev pub Level : Stack → Stack → Type 0
Level s t = length t.frames ≡ length s.frames

-- As many frames as the limit, at most.
abbrev pub Shallow : Vm → Type 0
Shallow vm = Stack.depth vm.stack ≤ depth_limit

pub put-Level : (s : Stack) (index : ℕ) (value : Value) → Ends (Level s) (Stack.put s index value)
put-Level s index value =
    Ends-weaken _ _ _ (put-Keeps (index + 1) s index value (omega arith)) (λ t k. k.depth)

fill-Level : (s : Stack) (from to : ℕ) (value : Value) → Ends (Level s) (fill s from to value)
fill-Level s from to value =
    Ends-weaken _ _ _ (fill-Keeps to s from to value (inr (omega arith))) (λ t k. k.depth)

pub shift-Level : (s : Stack) (from to count : ℕ) → Ends (Level s) (shift s from to count)
shift-Level s from to count =
    Ends-weaken _ _ _ (shift-Keeps (to + count) s from to count (inr (omega arith)))
      (λ t k. k.depth)

reserve-Level : (s : Stack) (height : ℕ) → Level s (reserve s height)
reserve-Level s height = (reserve-Keeps 0 s height).depth

pub set_current-Level :
    (vm : Vm) (change : Frame → Frame)
    → Ends (λ after. Level vm.stack after.stack) (set_current vm change)
set_current-Level vm change =
    Ends-then (set_current-Keeps 0 vm.stack change) (λ s k. Ends-ok _ _ k.depth)

topped-Level :
    (want : Want) (end : ℕ) (vm : Vm)
    → Ends (λ after. Level vm.stack after.stack) (topped want end vm)
topped-Level all end vm = set_current-Level vm _
topped-Level (exactly count) end vm = Ends-ok _ _ refl

pub settle-Level :
    (vm : Vm) (from to produced : ℕ) (want : Want)
    → Ends (λ (p : ℕ × Vm). Level vm.stack p.1.stack) (settle vm from to produced want)
unfolding settle
settle-Level vm from to produced want =
    let kept = kept_of want produced in
    let roomy = reserve vm.stack (to + kept) in
    Ends-then (shift-Level roomy from to (min produced kept)) (λ shifted h.
      Ends-then (fill-Level shifted (to + min produced kept) (to + kept) nil) (λ filled g.
        Ends-then (topped-Level want (to + kept) (record vm { stack = filled }))
          (λ after f. Ends-ok _ _ (f ∙ g ∙ h ∙ reserve-Level vm.stack (to + kept)))))

place_params-Level :
    (s : Stack) (first base args params : ℕ)
    → Ends (Level s) (place_params s first base args params)
unfolding place_params
place_params-Level s first base args params = elim (Bool-cases (base == first)) [
  | inl t ↦ rw t (fill-Level s (first + min args params) (base + params) nil)
  | inr t ↦ rw t (
      Ends-then (shift-Level s first base (min params args)) (λ shifted h.
        Ends-weaken _ _ _ (fill-Level shifted (base + min params args) (base + params) nil)
          (λ u g. g ∙ h)))
]

fill_table-Still :
    (count : ℕ) (host : Host) (vm : Vm) (handle from index : ℕ)
    → Ends (Still vm) (fill_table count host vm handle from index)
unfolding fill_table
fill_table-Still zero host vm handle from index = Ends-ok _ _ refl
fill_table-Still (suc count) host vm handle from index =
    Ends-after (lift (Stack.at vm.stack (from + index))) (λ value.
      Ends-then
        (table_set-Still host vm handle (int (pos (index + 1))) value refused (λ e. Ends-panic _))
        (λ after e.
          Ends-weaken (Still vm) (Still after) _
            (fill_table-Still count host after handle from (index + 1)) (λ t f. f ∙ e)))

make_table-Level :
    (host : Host) (vm : Vm) (base params varargs : ℕ)
    → Ends (λ after. Level vm.stack after.stack) (make_table host vm base params varargs)
unfolding make_table
make_table-Level host vm base params varargs =
    let (handle, heap) = new_table vm.heap varargs 1 in
    let made = record vm { heap = heap } in
    Ends-then (Ends-lift (intern-Still made (codes "n"))) (λ p e.
      Ends-then (fill_table-Still varargs host p.1 handle (base - varargs) 0) (λ filled f.
        Ends-then
          (table_set-Still host filled handle (str p.0) (int (pos varargs)) refused
            (λ x. Ends-panic _))
          (λ counted g.
            let same : counted.stack ≡ vm.stack = g ∙ f ∙ e in
            Ends-lift (
              Ends-then (put-Level counted.stack (base + params) (table handle))
                (λ s l. Ends-ok _ _ (l ∙ ap (λ (t : Stack). length t.frames) same))))))

named_table-Level :
    (kind : Vararg) (host : Host) (vm : Vm) (base params varargs : ℕ)
    → Ends (λ after. Level vm.stack after.stack) (named_table kind host vm base params varargs)
unfolding named_table
named_table-Level no_vararg host vm base params varargs = Ends-ok _ _ refl
named_table-Level anonymous host vm base params varargs = Ends-ok _ _ refl
named_table-Level Code.table host vm base params varargs =
    make_table-Level host vm base params varargs

enter_proto-deeper :
    (host : Host) (vm : Vm) (callee handle args : ℕ) (want : Want) (proto : Proto)
    → Ends
        (λ after. length after.stack.frames ≡ suc (length vm.stack.frames))
        (enter_proto host vm callee handle args want proto)
unfolding enter_proto
enter_proto-deeper host vm callee handle args want proto =
    let params = proto.body.params in
    let registers = proto.body.max_registers in
    let kind = proto.body.vararg in
    let first = callee + 1 in
    let (base, varargs) = base_of kind first args params in
    let fixed = fixed_of kind params in
    let height = base + max registers fixed in
    Ends-then (Ends-lift (place_params-Level (reserve vm.stack height) first base args params))
      (λ placed h.
        Ends-then (named_table-Level kind host (record vm { stack = placed }) base params varargs)
          (λ named g.
            Ends-then (Ends-lift (fill-Level named.stack (base + fixed) (base + registers) nil))
              (λ cleared f.
                Ends-ok _ _ (ap (λ n. suc n) (f ∙ g ∙ h ∙ reserve-Level vm.stack height)))))

-- `enter` adds a frame where there is room for one, or fails.
pub enter-Shallow :
    (host : Host) (vm : Vm) (callee args : ℕ) (want : Want)
    → Ends Shallow (enter host vm callee args want)
unfolding enter
enter-Shallow host vm callee args want =
    elim (Bool-cases (leb depth_limit (Stack.depth vm.stack))) [
      | inl t ↦ rw t (throw-Ends _ vm (codes "stack overflow"))
      | inr t ↦
          let room : Stack.depth vm.stack < depth_limit = ground (arith, t) in
          rw t (
            Ends-after (lift (Stack.at vm.stack callee)) (λ value.
              Ends-after (lift (handle_of value)) (λ handle.
                Ends-after (lift (Heap.func vm.heap handle)) (λ function.
                  Ends-after (lift (closure_of function)) (λ p.
                    Ends-after (lift (Heap.proto vm.heap p.0)) (λ proto.
                      Ends-weaken _ _ _ (enter_proto-deeper host vm callee handle args want proto)
                        (λ after e. omega (arith, e, room))))))))
    ]
