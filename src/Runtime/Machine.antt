-- ===== src/Runtime/Machine.antt =====
-- The machine: crates/ruta-runtime/src/vm/state.rs.
-- A method that changes the machine answers the new one. What it raises is a value together with
-- the machine as it is then, since the value may be a handle into its heap.
pub mod Number
pub mod Text
pub mod Origin
pub mod Trace
pub mod Raise
pub mod Operators
pub mod Call
pub mod Perform
pub mod Leave
pub mod Dispatch
pub mod Loop
pub mod Base
pub mod InBase
pub mod Library
pub mod Cells
pub mod Closing
pub mod Capturing
pub mod Naming
pub mod Tracing
pub mod Landing
pub mod Settling
pub mod Ends
pub mod Keeping
pub mod Quiet
pub mod Registers
pub mod Arms
pub mod Spreading
pub mod Writes
pub mod Depth
pub mod Bounded
pub mod Reached
pub mod Tame
mod Tests
use ruta.Prelude.{
  ℕ, zero, suc, ◌+◌, ◌-◌, Bool, true, false, ltb, leb, if◌then◌else◌, Option, none, some, List, [],
  ◌∷◌, ◌++◌, length, get_elem?, take, drop, Outcome, ok, err, panic, expect, ◌>>=◌,
}
use ruta.Prelude.Int.{ℤ}
use ruta.Bytecode.Debug.{hit, miss, search, line_at}
use ruta.Bytecode.Prototype.{Body}
use ruta.Runtime.Value.{Value}
use ruta.Runtime.Float.{Rounding}
use ruta.Runtime.Table.Size.{Layout}
use ruta.Runtime.Heap as Heap
use ruta.Runtime.Heap.{Run, Heap, Proto, Function, lua, native, Upvalue, open_at, closed}
use ruta.Runtime.Heap.Strings.{bytes_at, new_string}
use ruta.Runtime.Heap.Load.{new_upvalue, set_upvalue}
use ruta.Runtime.Stack as Stack
use ruta.Runtime.Stack.{Stack, Frame}

-- `Vm`. `stdout` is what has been written to the standard output.
pub record Vm : Type 0 where
  pub heap : Heap
  pub stack : Stack
  pub globals : ℕ
  pub open_upvals : List (ℕ × ℕ)
  pub next : ℕ
  pub ipairs_step : ℕ
  pub stdout : List ℕ

-- What the machine takes from the standard library and the compiler: floats that round, the sizes
-- of types, `parse` of an `f64` and of an `i32`, `from_utf8_lossy`, and `format!` of a float with a
-- number of digits after the point, in scientific and in fixed notation. `rebuilds` bounds how deep
-- the rebuilding of a table may nest.
pub record Host : Type 0 where
  pub rounding : Rounding
  pub layout : Layout
  pub rebuilds : ℕ
  pub read_f64 : List ℕ → Option ℕ
  pub read_i32 : List ℕ → Option ℤ
  pub lossy : List ℕ → List ℕ
  pub scientific : ℕ → ℕ → List ℕ
  pub fixed : ℕ → ℕ → List ℕ

-- `Error`, or a walk along a table's chain that does not end.
pub data Raised : Type 0 where
  thrown : (value : Value) → (vm : Vm) → Raised
  endless : Raised

abbrev pub Answer {ℓ} : Type ℓ → Type ℓ
Answer A = Outcome Raised A

-- A method that raises nothing.
abbrev pub lift {ℓ} : {A : Type ℓ} → Outcome ⊥ A → Answer A
lift (ok a) = ok a
lift (err e) = panic
lift panic = panic

abbrev pub closure_of : Function → Run (ℕ × List ℕ)
closure_of (lua proto upvals) = ok (proto, upvals)
closure_of (native name call) = panic

-- `running`
abbrev pub running : Vm → Run ℕ
running vm = do
  frame ← Stack.current vm.stack
  function ← Heap.func vm.heap frame.func
  (proto, upvals) ← closure_of function
  ok proto

-- `self.heap.proto(self.running())`
abbrev pub running_proto : Vm → Run Proto
running_proto vm = do handle ← running vm; Heap.proto vm.heap handle

-- `cell`
abbrev pub cell : Vm → ℕ → Run ℕ
cell vm index = do
  frame ← Stack.current vm.stack
  function ← Heap.func vm.heap frame.func
  (proto, upvals) ← closure_of function
  expect (get_elem? upvals index)

-- `constant`
abbrev pub constant : Vm → ℕ → Run Value
constant vm index = do proto ← running_proto vm; expect (get_elem? proto.constants index)

-- `upvalue`
abbrev pub upvalue : Vm → ℕ → Run Upvalue
upvalue vm index = do handle ← cell vm index; Heap.upvalue vm.heap handle

-- `intern`
unfoldable pub intern : Vm → List ℕ → Run (ℕ × Vm)
unfolding new_string
intern vm bytes = do
  (handle, heap) ← new_string vm.heap bytes
  ok (handle, record vm { heap = heap })

-- `self.stack.put`
abbrev pub put : Vm → ℕ → Value → Run Vm
put vm slot value = do stack ← Stack.put vm.stack slot value; ok (record vm { stack = stack })

-- `self.stack.current_mut`, with what is written through it
abbrev pub set_current : Vm → (Frame → Frame) → Run Vm
set_current vm change = do
  stack ← Stack.set_current vm.stack change
  ok (record vm { stack = stack })

abbrev insert_at : List (ℕ × ℕ) → ℕ → ℕ × ℕ → List (ℕ × ℕ)
insert_at entries index entry = take index entries ++ (entry ∷ drop index entries)

-- `capture`, by `binary_search_by_key` on slots that increase.
unfoldable pub capture : Vm → ℕ → Run (ℕ × Vm)
unfolding search
capture vm slot = elim (search vm.open_upvals slot) [
  | hit index ↦ expect (get_elem? vm.open_upvals index) >>= λ (held, handle). ok (handle, vm)
  | miss index ↦
      let (handle, heap) = new_upvalue vm.heap (open_at slot) in
      ok (
        handle,
        record vm { heap = heap; open_upvals = insert_at vm.open_upvals index (slot, handle) },
      )
]

-- `partition_point` with `slot < from`, on slots that increase.
unfoldable pub partition_point : List (ℕ × ℕ) → ℕ → ℕ
partition_point [] from = 0
partition_point ((slot, handle) ∷ cells) from =
    let later = partition_point cells from in if ltb slot from then suc later else 0

-- The loop of `close`.
unfoldable pub close_cells : Stack → Heap → List (ℕ × ℕ) → Run Heap
close_cells stack heap [] = ok heap
close_cells stack heap ((slot, handle) ∷ cells) = do
  value ← Stack.at stack slot
  shut ← set_upvalue heap handle (closed value)
  close_cells stack shut cells

-- `close`
unfoldable pub close : Vm → ℕ → Run Vm
unfolding partition_point close_cells
close vm from =
    let index = partition_point vm.open_upvals from in
    close_cells vm.stack vm.heap (drop index vm.open_upvals) >>= λ heap.
    ok (record vm { heap = heap; open_upvals = take index vm.open_upvals })

-- `pending`
abbrev pub pending : Vm → Run ℕ
pending vm = Stack.current vm.stack >>= λ frame. ok frame.top

-- `settle_top`
abbrev pub settle_top : Vm → Run Vm
settle_top vm = do
  proto ← running_proto vm
  set_current vm (λ frame. record frame { top = frame.base + proto.body.max_registers })

-- `source`
abbrev pub source : Vm → Run (List ℕ)
source vm = do proto ← running_proto vm; bytes_at vm.heap proto.source

-- `line`
unfoldable pub line : Vm → Run ℕ
unfolding line_at
line vm = do
  frame ← Stack.current vm.stack
  proto ← running_proto vm
  if ltb 0 frame.pc then ok (line_at proto.body.lines (frame.pc - 1)) else panic
