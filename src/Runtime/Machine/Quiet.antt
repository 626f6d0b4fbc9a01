-- ===== src/Runtime/Machine/Quiet.antt =====
-- What works on the heap leaves the stacks alone: crates/ruta-runtime/src/vm/state.rs and dispatch.rs.
use ruta.Prelude.{
  expect, checked, ℕ, zero, suc, ◌+◌, ◌≡◌, ◌≢◌, ◌⊎◌, inl, inr, refl, sym, subst, ◌∙◌, Option, none,
  some, List, [], ◌∷◌, ◌++◌, drop, get_elem?, expect, Outcome, ok, err, panic,
}
use ruta.Prelude.Int.{pos}
use ruta.Bytecode.Debug.{Found, hit, miss, search}
use ruta.Bytecode.Prototype.{UpvalDesc, UpvalSource, parent_local, parent_upval}
use ruta.Runtime.Arith.{Operand}
use ruta.Runtime.Value.{Value, nil, bool, int, float, str, table, func, user_data, thread}
use ruta.Runtime.Heap.{Heap, take_table, put_table}
use ruta.Runtime.Heap.Strings.{new_string}
use ruta.Runtime.Table.{Table}
use ruta.Runtime.Table.Access as Access
use ruta.Runtime.Table.Access.{Failure, key_error, invalid_key}
use ruta.Runtime.Table.Key.{KeyError}
use ruta.Runtime.Stack as Stack
use ruta.Runtime.Machine.{
  Host, Vm, Answer, lift, cell, intern, put, capture, partition_point, close_cells, close,
}
use ruta.Runtime.Machine.Operators.{
  table_set, stored, refused, key_message, store, store_to, text, joined, concat,
}
use ruta.Runtime.Machine.Perform.{set_items}
use ruta.Runtime.Machine.Leave.{capture_one, capture_all}
use ruta.Runtime.Machine.Ends.{
  Ends, Ends-ok, Ends-err, Ends-panic, Ends-weaken, Ends-then, Ends-after, Ends-lift, throw-Ends,
  fault-Ends,
}
use ruta.Runtime.Machine.Keeping.{Keeps, Keeps-refl, put-Keeps}

-- The stacks are the same.
abbrev pub Still : Vm → Vm → Type 0
Still vm after = after.stack ≡ vm.stack

-- A slot, and the depth of frames, is kept.
abbrev pub Holds : ℕ → Vm → Vm → Type 0
Holds slot vm after = Keeps slot vm.stack after.stack

pub Still-Holds : (slot : ℕ) (vm after : Vm) → Still vm after → Holds slot vm after
Still-Holds slot vm after e = subst (λ s. Keeps slot vm.stack s) (sym e) (Keeps-refl slot vm.stack)

pub intern-Still :
    (vm : Vm) (bytes : List ℕ) → Ends (λ (p : ℕ × Vm). Still vm p.1) (intern vm bytes)
unfolding intern
intern-Still vm bytes = Ends-after (new_string vm.heap bytes) (λ p. Ends-ok _ _ refl)

stored-Still :
    (vm : Vm) (taken : Heap) (handle : ℕ) (refuse : KeyError → Answer Vm)
    (o : Outcome Failure Table)
    → ((e : KeyError) → Ends (Still vm) (refuse e))
    → Ends (Still vm) (stored vm taken handle refuse o)
unfolding stored
stored-Still vm taken handle refuse (ok body) h =
    Ends-after (lift (put_table taken handle body)) (λ heap. Ends-ok _ _ refl)
stored-Still vm taken handle refuse (err (key_error e)) h = h e
stored-Still vm taken handle refuse (err invalid_key) h = Ends-panic _
stored-Still vm taken handle refuse (err Access.endless) h = Ends-err _ _
stored-Still vm taken handle refuse panic h = Ends-panic _

pub table_set-Still :
    (host : Host) (vm : Vm) (handle : ℕ) (key value : Value) (refuse : KeyError → Answer Vm)
    → ((e : KeyError) → Ends (Still vm) (refuse e))
    → Ends (Still vm) (table_set host vm handle key value refuse)
unfolding table_set
table_set-Still host vm handle key value refuse h =
    Ends-after (lift (take_table vm.heap handle)) (λ p. stored-Still vm p.1 handle refuse _ h)

pub set_items-Still :
    (limit count : ℕ) (host : Host) (vm : Vm) (handle from index : ℕ)
    → Ends (Still vm) (set_items limit count host vm handle from index)
unfolding set_items
set_items-Still limit zero host vm handle from index = Ends-ok _ _ refl
set_items-Still limit (suc count) host vm handle from index =
    Ends-after (lift (Stack.at vm.stack from)) (λ value.
      Ends-after (lift (expect (checked limit index))) (λ key.
        Ends-then (table_set-Still host vm handle (int (pos key)) value refused (λ e. Ends-panic _))
          (λ after e.
            Ends-weaken (Still vm) (Still after) _
              (set_items-Still limit count host after handle (from + 1) (index + 1))
              (λ t f. f ∙ e))))

pub store-Still :
    (host : Host) (vm : Vm) (reg : ℕ) (object key value : Value)
    → Ends (Still vm) (store host vm reg object key value)
unfolding store store_to
store-Still host vm reg (table handle) key value =
    table_set-Still host vm handle key value _ (λ e. throw-Ends _ vm (key_message e))
store-Still host vm reg nil key value = fault-Ends _ vm "index" nil reg
store-Still host vm reg (bool b) key value = fault-Ends _ vm "index" (bool b) reg
store-Still host vm reg (int n) key value = fault-Ends _ vm "index" (int n) reg
store-Still host vm reg (float n) key value = fault-Ends _ vm "index" (float n) reg
store-Still host vm reg (str n) key value = fault-Ends _ vm "index" (str n) reg
store-Still host vm reg (func n) key value = fault-Ends _ vm "index" (func n) reg
store-Still host vm reg (user_data n) key value = fault-Ends _ vm "index" (user_data n) reg
store-Still host vm reg (thread n) key value = fault-Ends _ vm "index" (thread n) reg

joined-Still :
    (vm : Vm) (left right : Operand) (first second : Option (List ℕ))
    → Ends (λ (p : Value × Vm). Still vm p.1) (joined vm left right first second)
unfolding joined
joined-Still vm left right (some bytes) (some tail) =
    Ends-then (Ends-lift (intern-Still vm (bytes ++ tail))) (λ p e. Ends-ok _ _ e)
joined-Still vm left right (some bytes) none = fault-Ends _ vm "concatenate" right.value right.reg
joined-Still vm left right none second = fault-Ends _ vm "concatenate" left.value left.reg

pub concat-Still :
    (host : Host) (vm : Vm) (left right : Operand)
    → Ends (λ (p : Value × Vm). Still vm p.1) (concat host vm left right)
unfolding concat
concat-Still host vm left right = Ends-after (lift (text host vm.heap left.value)) (λ first.
    Ends-after (lift (text host vm.heap right.value))
      (λ second. joined-Still vm left right first second))

pub close-Still : (vm : Vm) (from : ℕ) → Ends (Still vm) (close vm from)
unfolding close
close-Still vm from =
    Ends-after
      (close_cells vm.stack vm.heap (drop (partition_point vm.open_upvals from) vm.open_upvals))
      (λ heap. Ends-ok _ _ refl)

Found-cases :
    (found : Found) → ((index : ℕ) × (found ≡ hit index)) ⊎ ((index : ℕ) × (found ≡ miss index))
Found-cases (hit index) = inl (index, refl)
Found-cases (miss index) = inr (index, refl)

capture-Still : (vm : Vm) (slot : ℕ) → Ends (λ (p : ℕ × Vm). Still vm p.1) (capture vm slot)
unfolding capture
capture-Still vm slot = elim (Found-cases (search vm.open_upvals slot)) [
  | inl (index, e) ↦
      rw (capture, e)
        (Ends-after (expect (get_elem? vm.open_upvals index)) (λ entry. Ends-ok _ _ refl))
  | inr (index, e) ↦ rw (capture, e) (Ends-ok _ _ refl)
]

capture_one-Still :
    (vm : Vm) (base : ℕ) (source : UpvalSource)
    → Ends (λ (p : ℕ × Vm). Still vm p.1) (capture_one vm base source)
unfolding capture_one
capture_one-Still vm base (parent_local reg) = capture-Still vm (base + reg)
capture_one-Still vm base (parent_upval index) =
    Ends-after (cell vm index) (λ handle. Ends-ok _ _ refl)

pub capture_all-Still :
    (vm : Vm) (base : ℕ) (descs : List UpvalDesc)
    → Ends (λ (p : List ℕ × Vm). Still vm p.1) (capture_all vm base descs)
unfolding capture_all
capture_all-Still vm base [] = Ends-ok _ _ refl
capture_all-Still vm base (desc ∷ descs) =
    Ends-then (capture_one-Still vm base desc.source)
      (λ p e. Ends-then (capture_all-Still p.1 base descs) (λ q f. Ends-ok _ _ (f ∙ e)))

-- A write to another slot.
pub put-Holds :
    (slot : ℕ) (vm after : Vm) (index : ℕ) (value : Value)
    → index ≢ slot
    → Still vm after
    → Ends (Holds slot vm) (put after index value)
put-Holds slot vm after index value other e =
    Ends-then (put-Keeps slot after.stack index value other)
      (λ s k. Ends-ok _ _ (subst (λ t. Keeps slot t s) e k))
