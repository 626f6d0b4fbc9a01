-- ===== src/Runtime/Machine/Arms.antt =====
-- The longer arms of `step` in crates/ruta-runtime/src/vm/dispatch.rs, and the slots they keep.
use ruta.Prelude.{◌^◌, ℕ, ◌+◌, ◌≡◌, refl, ◌==◌, true, false, get_elem?, expect}
use ruta.Runtime.Value.{Value, nil, bool, int, float, str, table, func, user_data, thread}
use ruta.Runtime.Heap as Heap
use ruta.Runtime.Heap.{Run, new_table}
use ruta.Runtime.Stack as Stack
use ruta.Runtime.Stack.{Stack, Frame, reserve, fill, shift}
use ruta.Runtime.Machine.{Host, Vm, lift, running_proto, pending, settle_top}
use ruta.Runtime.Machine.Operators.{table_get}
use ruta.Runtime.Machine.Perform.{
  minus, table_handle, index_in, set_index_op, is_defined, defined_error, define_global_op,
  set_list_op, set_list_spread_op,
}
use ruta.Runtime.Machine.Leave.{closure_op}
use ruta.Runtime.Machine.Ends.{
  Ends, Ends-panic, Ends-then, Ends-after, Ends-lift, throw-Ends, fault-Ends,
}
use ruta.Runtime.Machine.Quiet.{
  Still, Holds, Still-Holds, set_items-Still, store-Still, capture_all-Still,
}
use ruta.Runtime.Machine.Registers.{Holds-trans, put_reg-Holds, set_current-Holds}

pub index_in-Holds :
    (vm : Vm) (base object dest reg : ℕ) (target key : Value)
    → (dest == reg) ≡ false
    → Ends (Holds (base + reg) vm) (index_in vm object target key (base + dest))
unfolding index_in
index_in-Holds vm base object dest reg (table handle) key h =
    Ends-after (table_get vm handle key)
      (λ value. Ends-lift (put_reg-Holds vm vm base dest reg value h refl))
index_in-Holds vm base object dest reg nil key h = fault-Ends _ vm "index" nil object
index_in-Holds vm base object dest reg (bool b) key h = fault-Ends _ vm "index" (bool b) object
index_in-Holds vm base object dest reg (int n) key h = fault-Ends _ vm "index" (int n) object
index_in-Holds vm base object dest reg (float n) key h = fault-Ends _ vm "index" (float n) object
index_in-Holds vm base object dest reg (str n) key h = fault-Ends _ vm "index" (str n) object
index_in-Holds vm base object dest reg (func n) key h = fault-Ends _ vm "index" (func n) object
index_in-Holds vm base object dest reg (user_data n) key h =
    fault-Ends _ vm "index" (user_data n) object
index_in-Holds vm base object dest reg (thread n) key h = fault-Ends _ vm "index" (thread n) object

defined_error-Ends :
    (host : Host) (vm : Vm) (name : Value) (P : Vm → Type 0) → Ends P (defined_error host vm name)
unfolding defined_error
defined_error-Ends host vm (str name) P = Ends-after (lift _) (λ bytes. throw-Ends P vm _)
defined_error-Ends host vm _ P = Ends-panic P

pub define_global-Still :
    (host : Host) (vm : Vm) (base env key src : ℕ)
    → Ends (Still vm) (define_global_op host vm base env key src)
unfolding define_global_op
define_global-Still host vm base env key src =
    Ends-after (lift (Stack.at vm.stack (base + env))) (λ target.
      Ends-after (lift (Stack.at vm.stack (base + key))) (λ name.
        Ends-after (lift (Stack.at vm.stack (base + src))) (λ value.
          Ends-after (is_defined vm target name) (elim [
            | true ↦ defined_error-Ends host vm name (Still vm)
            | false ↦ store-Still host vm env target name value
          ]))))

pub set_index-Still :
    (host : Host) (vm : Vm) (base object key src : ℕ)
    → Ends (Still vm) (set_index_op host vm base object key src)
unfolding set_index_op
set_index-Still host vm base object key src =
    Ends-after (lift (Stack.at vm.stack (base + object))) (λ target.
      Ends-after (lift (Stack.at vm.stack (base + key))) (λ name.
        Ends-after (lift (Stack.at vm.stack (base + src)))
          (λ value. store-Still host vm object target name value)))

pub set_list-Still :
    (host : Host) (vm : Vm) (base reg first count index : ℕ)
    → Ends (Still vm) (set_list_op host vm base reg first count index)
unfolding set_list_op
set_list-Still host vm base reg first count index =
    Ends-after (lift (Stack.at vm.stack (base + reg))) (λ target.
      Ends-after (lift (table_handle target))
        (λ handle. set_items-Still (2 ^ 32) count host vm handle (base + first) index))

pub settle_top-Holds : (slot : ℕ) (vm : Vm) → Ends (Holds slot vm) (settle_top vm)
settle_top-Holds slot vm = Ends-after (running_proto vm) (λ proto. set_current-Holds slot vm _)

pub set_list_spread-Holds :
    (slot : ℕ) (host : Host) (vm : Vm) (base reg first index : ℕ)
    → Ends (Holds slot vm) (set_list_spread_op host vm base reg first index)
unfolding set_list_spread_op
set_list_spread-Holds slot host vm base reg first index =
    Ends-after (lift (Stack.at vm.stack (base + reg))) (λ target.
      Ends-after (lift (table_handle target)) (λ handle. Ends-after (lift (pending vm)) (λ top.
        Ends-after (lift (minus top (base + first))) (λ count.
          Ends-then (set_items-Still (2 ^ 63) count host vm handle (base + first) index) (λ after e.
            Ends-lift (
              Holds-trans slot vm after (Still-Holds slot vm after e)
                (settle_top-Holds slot after)))))))

pub closure-Holds :
    (vm : Vm) (base dest child reg : ℕ)
    → (dest == reg) ≡ false
    → Ends (Holds (base + reg) vm) (closure_op vm base dest child)
unfolding closure_op
closure-Holds vm base dest child reg h = Ends-after (running_proto vm) (λ parent.
    Ends-after (expect (get_elem? parent.children child)) (λ index.
      Ends-after (Heap.proto vm.heap index) (λ proto.
        Ends-then (capture_all-Still vm base proto.body.upvals)
          (λ p e. put_reg-Holds vm _ base dest reg _ h e))))
