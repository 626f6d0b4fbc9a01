-- ===== src/Runtime/Heap/Load.antt =====
-- Closures, upvalues, and the path of a chunk onto the heap: crates/ruta-runtime/src/heap/function.rs
-- and proto.rs.
use ruta.Prelude.{ℕ, List, [], ◌∷◌, ok, ◌>>=◌}
use ruta.Bytecode.Prototype as Code
use ruta.Bytecode.Prototype.{Constant, Body, Prototype, Prototypes, prototype, no_children, child}
use ruta.Runtime.Value.{Value, int, float, str}
use ruta.Runtime.Heap.{
  Run, Heap, lua, native, Upvalue, func_object, upval_object, proto_object, push, put_upvalue,
}
use ruta.Runtime.Heap.Strings.{new_string}

-- `new_closure`
abbrev pub new_closure : Heap → ℕ → List ℕ → ℕ × Heap
new_closure h proto upvals = push h (func_object (lua proto upvals))

-- `new_native`
unfoldable pub new_native : Heap → List ℕ → ℕ → Run (ℕ × Heap)
unfolding new_string
new_native h name call =
    new_string h name >>= λ (handle, named). ok (push named (func_object (native handle call)))

-- `new_upvalue`
abbrev pub new_upvalue : Heap → Upvalue → ℕ × Heap
new_upvalue h cell = push h (upval_object cell)

-- `set_upvalue`; the barrier does nothing.
abbrev pub set_upvalue : Heap → ℕ → Upvalue → Run Heap
set_upvalue h handle cell = put_upvalue h handle cell

-- `resolve`
unfoldable pub resolve : Heap → Constant → Run (Value × Heap)
unfolding new_string
resolve h (Code.int number) = ok (int number, h)
resolve h (Code.float number) = ok (float number, h)
resolve h (Code.str bytes) = new_string h bytes >>= λ (handle, after). ok (str handle, after)

unfoldable pub resolve_all : Heap → List Constant → Run (List Value × Heap)
unfolding resolve
resolve_all h [] = ok ([], h)
resolve_all h (constant ∷ constants) = do
  (value, first) ← resolve h constant
  (values, after) ← resolve_all first constants
  ok (value ∷ values, after)

-- `load_child`, and its walk over the children.
unfoldable mutual
  unfolding resolve_all

  pub load_child : Heap → Prototype → ℕ → Run (ℕ × Heap)
  load_child h (prototype body source_name constants children) source =
      load_children h children source >>= λ (handles, nested).
      resolve_all nested constants >>= λ (values, resolved). ok (
        push resolved (
          proto_object
            (record { body = body; constants = values; children = handles; source = source })))

  pub load_children : Heap → Prototypes → ℕ → Run (List ℕ × Heap)
  load_children h no_children source = ok ([], h)
  load_children h (child first rest) source = load_child h first source >>= λ (handle, loaded).
      load_children loaded rest source >>= λ (handles, after). ok (handle ∷ handles, after)

-- `load`
unfoldable pub load : Heap → Prototype → Run (ℕ × Heap)
unfolding new_string load_child load_children
load h (prototype body source_name constants children) =
    new_string h source_name >>= λ (source, named).
    load_child named (prototype body source_name constants children) source
