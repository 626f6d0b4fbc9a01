-- ===== src/Runtime/Machine/Library.antt =====
-- The rest of the library, its installation and `Vm::new`: crates/ruta-runtime/src/vm/base.rs and
-- vm/state.rs. A host function's address is its place in `functions`.
use Prim.Native.String.{String}
use ruta.Prelude.{
  ℕ, ◌&&◌, leb, if◌then◌else◌, Option, none, some, List, [], ◌∷◌, ◌++◌, get_elem?, ok, panic, ◌>>=◌,
}
use ruta.Prelude.Int.{ℤ, pos, negsuc}
use ruta.Runtime.Value.{Value, nil, int, str, func, type_name}
use ruta.Runtime.Heap as Heap
use ruta.Runtime.Heap.{Run, Heap, new_table}
use ruta.Runtime.Heap.Load.{new_native}
use ruta.Runtime.Heap.Strings.{bytes_at}
use ruta.Syntax.Text.{codes}
use ruta.Runtime.Machine.{Host, Vm, Answer, lift, intern}
use ruta.Runtime.Machine.Text.{of, to_number}
use ruta.Runtime.Machine.Raise.{bad_argument}
use ruta.Runtime.Machine.Operators.{table_set, refused}
use ruta.Runtime.Machine.Call.{Natives}
use ruta.Runtime.Machine.Base.{
  push, arg, got, or_nil, any, integer, Native, assert, ipairs, step, next, pairs, print, select,
}
use ruta.Runtime.Machine.InBase.{in_base}

abbrev pub in_range : ℤ → Option ℕ
in_range (pos n) = if leb 2 n && leb n 36 then some n else none
in_range (negsuc n) = none

abbrev int_or_nil : Option ℤ → Value
int_or_nil none = nil
int_or_nil (some n) = int n

-- `tonumber` of a string in a base.
unfoldable pub number_in : Vm → ℕ → Option Value → ℤ → Answer Value
unfolding bad_argument in_base type_name
number_in vm callee (some (str text)) base = elim (in_range base) [
  | none ↦ bad_argument vm callee 2 (codes "base out of range")
  | some radix ↦ lift (bytes_at vm.heap text) >>= λ bytes. ok (int_or_nil (in_base bytes radix))
]
number_in vm callee given base =
    bad_argument vm callee 1 (codes "string expected, got " ++ got given)

unfoldable pub plain_number : Host → Vm → ℕ → ℕ → Answer Value
unfolding any to_number
plain_number host vm callee args = do
  value ← any vm callee args 1
  number ← lift (to_number host vm.heap value)
  ok (or_nil number)

unfoldable pub number_of : Host → Vm → ℕ → ℕ → Option Value → Answer Value
unfolding any to_number integer bad_argument in_base type_name
number_of host vm callee args none = plain_number host vm callee args
number_of host vm callee args (some nil) = plain_number host vm callee args
number_of host vm callee args (some _) = do
  base ← integer host vm callee args 2
  given ← lift (arg vm callee args 1)
  number_in vm callee given base

-- `tonumber`
unfoldable pub tonumber : Host → Native
unfolding any to_number integer bad_argument in_base type_name
tonumber host vm callee args = do
  given ← lift (arg vm callee args 2)
  number ← number_of host vm callee args given
  ok (1, push vm number)

-- `tostring`
unfoldable pub tostring : Host → Native
unfolding any of intern
tostring host vm callee args = do
  value ← any vm callee args 1
  shown ← lift (of host vm.heap value)
  (handle, after) ← lift (intern vm shown)
  ok (1, push after (str handle))

-- `type`
unfoldable pub type_of : Native
unfolding any type_name intern
type_of vm callee args = do
  value ← any vm callee args 1
  (handle, after) ← lift (intern vm (codes (type_name value)))
  ok (1, push after (str handle))

-- The host functions, at their addresses.
unfoldable pub functions : Host → List Native
unfolding assert ipairs step next pairs print select tonumber tostring type_of
functions host =
    next
    ∷ step host
    ∷ assert
    ∷ ipairs
    ∷ pairs
    ∷ print host
    ∷ select host
    ∷ tonumber host
    ∷ tostring host
    ∷ type_of
    ∷ []

abbrev pub at_address : Option Native → Native
at_address none vm callee args = panic
at_address (some native) vm callee args = native vm callee args

-- What the host function at an address does.
unfoldable pub base_functions : Host → Natives
unfolding assert ipairs step next pairs print select tonumber tostring type_of
base_functions host address = at_address (get_elem? (functions host) address)

-- `iterators`
unfoldable pub iterators : Heap → Run (ℕ × ℕ × Heap)
unfolding new_native
iterators heap = do
  (next_handle, named) ← new_native heap (codes "next") 0
  (step_handle, both) ← new_native named (codes "for iterator") 1
  ok (next_handle, step_handle, both)

-- `set`
unfoldable pub set_global : Host → Vm → String → ℕ → Answer Vm
unfolding intern table_set
set_global host vm name handle = do
  (key, named) ← lift (intern vm (codes name))
  table_set host named named.globals (str key) (func handle) refused

-- `define`
unfoldable pub define : Host → Vm → String → ℕ → Answer Vm
unfolding new_native set_global
define host vm name address = do
  (handle, heap) ← lift (new_native vm.heap (codes name) address)
  set_global host (record vm { heap = heap }) name handle

unfoldable pub define_all : Host → Vm → List (String × ℕ) → Answer Vm
unfolding define
define_all host vm [] = ok vm
define_all host vm ((name, address) ∷ entries) = do
  after ← define host vm name address
  define_all host after entries

-- `install`
unfoldable pub install : Host → Vm → Answer Vm
unfolding set_global define_all
install host vm = do
  first ← set_global host vm "next" vm.next
  define_all host first (
      ("assert", 2)
      ∷ ("ipairs", 3)
      ∷ ("pairs", 4)
      ∷ ("print", 5)
      ∷ ("select", 6)
      ∷ ("tonumber", 7)
      ∷ ("tostring", 8)
      ∷ ("type", 9)
      ∷ [])

-- `Vm::new`
unfoldable pub new : Host → Answer Vm
unfolding new_table iterators install
new host = do
  let (globals, heap) = new_table Heap.empty 0 0
  (next_handle, step_handle, held) ← lift (iterators heap)
  install host (record {
    heap = held;
    stack = record { values = []; frames = [] };
    globals = globals;
    open_upvals = [];
    next = next_handle;
    ipairs_step = step_handle;
    stdout = [];
  })
