-- ===== src/Runtime/Machine/Raise.antt =====
-- Raising an error: the messages of crates/ruta-runtime/src/vm/state.rs.
-- The source answers an `Error` that the caller returns at once; here it is raised.
use Prim.Native.String.{String}
use ruta.Prelude.{ℕ, ◌-◌, ltb, leb, if◌then◌else◌, none, some, List, ◌++◌, ok, err, panic, ◌>>=◌}
use ruta.Runtime.Value.{Value, str, func, type_name}
use ruta.Runtime.Heap as Heap
use ruta.Runtime.Heap.{Run, Function, lua, native}
use ruta.Runtime.Heap.Strings.{bytes_at}
use ruta.Runtime.Stack as Stack
use ruta.Syntax.Text.{codes, decimal, decimal_in}
use ruta.Runtime.Machine.{Vm, Answer, lift, thrown, source, line, intern}
use ruta.Runtime.Machine.Text.{chunk}
use ruta.Runtime.Machine.Origin.{clause}
use ruta.Runtime.Machine.Trace.{operand_name, callee_name, called_name}

-- `bare`
unfoldable pub bare {ℓ} : {A : Type ℓ} → Vm → List ℕ → Answer A
unfolding intern
bare vm message = lift (intern vm message) >>= λ (handle, after). err (thrown (str handle) after)

-- `throw`
unfoldable pub throw {ℓ} : {A : Type ℓ} → Vm → List ℕ → Answer A
unfolding chunk line bare decimal_in
throw vm message = do
  name ← lift (source vm)
  shown ← lift (chunk name)
  at ← lift (line vm)
  bare vm (shown ++ (codes ":" ++ (decimal at ++ (codes ": " ++ message))))

-- `fault`
unfoldable pub fault {ℓ} : {A : Type ℓ} → Vm → String → Value → ℕ → Answer A
unfolding throw operand_name clause type_name
fault vm what value reg = do
  found ← lift (operand_name vm reg)
  throw vm (
      codes "attempt to "
      ++ (codes what
          ++ (codes " a " ++ (codes (type_name value) ++ (codes " value" ++ clause found)))))

-- `fault_call`
unfoldable pub fault_call {ℓ} : {A : Type ℓ} → Vm → Value → ℕ → Answer A
unfolding throw callee_name clause type_name
fault_call vm value callee = do
  frame ← lift (Stack.current vm.stack)
  if ltb callee frame.base
      then panic
      else if leb 256 (callee - frame.base)
      then panic
      else (lift (callee_name vm (callee - frame.base)) >>= λ found. throw vm (
          codes "attempt to call a "
          ++ (codes (type_name value) ++ (codes " value" ++ clause found))))

abbrev pub native_name : Vm → Function → Run (List ℕ)
native_name vm (native name call) = bytes_at vm.heap name
native_name vm (lua proto upvals) = ok (codes "?")

abbrev pub function_name : Vm → Value → Run (List ℕ)
function_name vm (func handle) = Heap.func vm.heap handle >>= λ held. native_name vm held
function_name vm _ = ok (codes "?")

-- `registered`
unfoldable pub registered : Vm → ℕ → Run (List ℕ)
registered vm callee = Stack.at vm.stack callee >>= λ value. function_name vm value

-- The name that `bad_argument` shows.
unfoldable pub argument_of : Vm → ℕ → ℕ → Run (List ℕ)
unfolding registered called_name
argument_of vm callee reg =
    if ltb reg 256
    then (called_name vm reg >>= λ found. elim found [
      | some name ↦ ok name
      | none ↦ registered vm callee
    ])
    else registered vm callee

-- `bad_argument`
unfoldable pub bad_argument {ℓ} : {A : Type ℓ} → Vm → ℕ → ℕ → List ℕ → Answer A
unfolding throw argument_of decimal_in
bad_argument vm callee index problem = do
  frame ← lift (Stack.current vm.stack)
  if ltb callee frame.base
      then panic
      else (lift (argument_of vm callee (callee - frame.base)) >>= λ name. throw vm (
          codes "bad argument #"
          ++ (decimal index
              ++ (codes " to '" ++ (name ++ (codes "' (" ++ (problem ++ codes ")")))))))
