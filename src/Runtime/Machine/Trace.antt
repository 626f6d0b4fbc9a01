-- ===== src/Runtime/Machine/Trace.antt =====
-- Following a register back through the code: crates/ruta-runtime/src/vm/origin.rs.
-- A trace goes back to an earlier pc each time, so that it has one step more than its pc; what the
-- machine gives it is the running function's prototype and the heap.
use ruta.Prelude.{
  ℕ, zero, suc, ◌+◌, Bool, true, false, ◌&&◌, ltb, leb, ◌==◌, if◌then◌else◌, same_bytes, Option,
  none, some, List, [], ◌∷◌, get_elem?, ok, err, panic, expect, ◌>>=◌,
}
use ruta.Bytecode.Op.{Op}
use ruta.Bytecode.Walk.{Code, code_of}
use ruta.Bytecode.Prototype.{LocalVar}
use ruta.Runtime.Value.{Value, str, int}
use ruta.Runtime.Heap.{Run, Heap, Proto}
use ruta.Runtime.Heap.Strings.{bytes_at}
use ruta.Syntax.Text.{codes}
use ruta.Runtime.Stack as Stack
use ruta.Runtime.Machine.{Vm, running_proto}
use ruta.Runtime.Machine.Origin.{
  Origin, local, upvalue, constant, global, field, method, render, name_of, setter, current,
}

pub data Key : Type 0 where
  name : List ℕ → Key
  small other : Key

-- The last local that lives in a register at a pc.
unfoldable pub find_local : List LocalVar → ℕ → ℕ → Option (List ℕ)
find_local [] reg at = none
find_local (held ∷ locals) reg at = elim (find_local locals reg at) [
  | some text ↦ some text
  | none ↦
      if (held.register == reg) && (leb held.start_pc at && ltb at held.end_pc)
      then some held.name
      else none
]

-- `local`
abbrev pub local_at : Proto → ℕ → ℕ → Option (List ℕ)
local_at proto reg at = find_local proto.body.locals reg at

abbrev pub loaded : Option (ℕ × Op) → Option ℕ
loaded (some (pc, Op.load_const dest index)) = some index
loaded _ = none

abbrev pub key_named : Heap → Value → Run Key
key_named heap (str handle) = bytes_at heap handle >>= λ bytes. ok (name bytes)
key_named heap (int number) = ok small
key_named heap _ = ok other

-- `key_of`
unfoldable pub key_of : Heap → Proto → Code → ℕ → ℕ → Run Key
unfolding setter
key_of heap proto code key at = elim (local_at proto key at) [
  | some held ↦ ok other
  | none ↦ elim (loaded (setter code key at)) [
    | none ↦ ok other
    | some index ↦ expect (get_elem? proto.constants index) >>= λ value. key_named heap value
  ]
]

-- The test of `env`.
unfoldable pub is_env : Option Origin → Bool
unfolding same_bytes
is_env (some (local text)) = same_bytes text (codes "_ENV")
is_env (some (upvalue text)) = same_bytes text (codes "_ENV")
is_env _ = false

abbrev pub field_of : Key → Bool → Origin
field_of (name text) true = global text
field_of (name text) false = field text
field_of small env = field (codes "integer index")
field_of other env = field (codes "?")

abbrev pub constant_origin : Heap → Value → Run (Option Origin)
constant_origin heap (str handle) = bytes_at heap handle >>= λ bytes. ok (some (constant bytes))
constant_origin heap _ = ok none

-- What a trace answers: nothing where no step is left, which no answer of the code is.
abbrev pub Traced : Type 0
Traced = Option (Run (Option Origin))

-- The name of a field, where what the object was traced to says whether it is a global.
abbrev pub through : Traced → Key → Traced
through none (name text) = none
through (some traced) (name text) =
    some (traced >>= λ held. ok (some (field_of (name text) (is_env held))))
through traced small = some (ok (some (field_of small false)))
through traced other = some (ok (some (field_of other false)))

-- The match of `trace` on what set a register, where `go` traces another register at its pc; `env`
-- traces the object only where the key is a name.
unfoldable pub follow : Heap → Proto → Code → (ℕ → ℕ → Traced) → Option (ℕ × Op) → Traced
unfolding key_of
follow heap proto code go none = some (ok none)
follow heap proto code go (some (pc, Op.move dest src)) = go src pc
follow heap proto code go (some (pc, Op.get_upval dest index)) =
    some (expect (get_elem? proto.body.upvals index) >>= λ desc. ok (some (upvalue desc.name)))
follow heap proto code go (some (pc, Op.load_const dest index)) =
    some (expect (get_elem? proto.constants index) >>= λ value. constant_origin heap value)
follow heap proto code go (some (pc, Op.index dest object key)) =
    elim (key_of heap proto code key pc) [
      | ok found ↦ through (go object pc) found
      | err e ↦ some (err e)
      | panic ↦ some panic
    ]
follow heap proto code go (some (pc, _)) = some (ok none)

-- `trace`
unfoldable pub trace : ℕ → Heap → Proto → Code → ℕ → ℕ → Traced
unfolding setter follow
trace zero heap proto code reg at = none
trace (suc fuel) heap proto code reg at = elim (local_at proto reg at) [
  | some held ↦ some (ok (some (local held)))
  | none ↦ follow heap proto code (λ r pc. trace fuel heap proto code r pc) (setter code reg at)
]

abbrev ended : Traced → Run (Option Origin)
ended none = panic
ended (some answer) = answer

abbrev pub named_method : Key → Option (ℕ × Op) → ℕ → Option Origin
named_method (name text) (some (pc, Op.move dest src)) object =
    if src == object then some (method text) else none
named_method _ _ object = none

-- `method`; `checked_add` ends at the last register.
unfoldable pub method_at : Heap → Proto → Code → ℕ → ℕ → Run (Option Origin)
unfolding setter key_of
method_at heap proto code reg at = elim (setter code reg at) [
  | some (index_at, Op.index dest object key) ↦ key_of heap proto code key index_at >>= λ found.
      ok (if ltb (reg + 1) 256 then named_method found (setter code (reg + 1) at) object else none)
  | _ ↦ ok none
]

-- `Code::of` the running function, where the code that the emitter wrote decodes.
unfoldable pub running_code : Proto → Run Code
unfolding code_of
running_code proto = elim (code_of proto.body.code) [ ok code ↦ ok code | _ ↦ panic ]

-- `trace` from the instruction now running.
unfoldable traced : Vm → ℕ → Run (Option Origin)
unfolding current trace
traced vm reg = do
  frame ← Stack.current vm.stack
  proto ← running_proto vm
  code ← running_code proto
  let at = current code frame.pc
  ended (trace (at + 1) vm.heap proto code reg at)

unfoldable called_origin : Vm → ℕ → Run (Option Origin)
unfolding current trace method_at
called_origin vm reg = do
  frame ← Stack.current vm.stack
  proto ← running_proto vm
  code ← running_code proto
  let at = current code frame.pc
  found ← method_at vm.heap proto code reg at
  elim found [
    | some origin ↦ ok (some origin)
    | none ↦ ended (trace (at + 1) vm.heap proto code reg at)
  ]

abbrev pub shown_as : (Origin → List ℕ) → Option Origin → Option (List ℕ)
shown_as show none = none
shown_as show (some origin) = some (show origin)

-- `name`
unfoldable pub operand_name : Vm → ℕ → Run (Option (List ℕ))
unfolding traced render
operand_name vm reg = traced vm reg >>= λ found. ok (shown_as render found)

-- `callee`
unfoldable pub callee_name : Vm → ℕ → Run (Option (List ℕ))
unfolding called_origin render
callee_name vm reg = called_origin vm reg >>= λ found. ok (shown_as render found)

-- `called`
unfoldable pub called_name : Vm → ℕ → Run (Option (List ℕ))
unfolding called_origin name_of
called_name vm reg = called_origin vm reg >>= λ found. ok (shown_as name_of found)
