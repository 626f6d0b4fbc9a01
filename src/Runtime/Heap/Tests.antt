-- ===== src/Runtime/Heap/Tests.antt =====
-- Runs of the theorems on the heap at concrete strings.
use ruta.Prelude.{◌+◌, ℕ, ◌≡◌, ◌↔◌, refl, arith, ok, some, List, [], ◌∷◌, get_elem?}
use ruta.Runtime.Heap.{Heap, empty}
use ruta.Bytecode.Prototype as Code
use ruta.Bytecode.Prototype.{Body, Prototype, prototype, no_children, child}
use ruta.Prelude.Int.{pos}
use ruta.Runtime.Heap.Load.{load}
use ruta.Runtime.Heap.Loading.{Loads, objects_in}
use ruta.Runtime.Heap.LoadRuns.{Adds, source_name, load-Loads}
use ruta.Runtime.Heap.Strings.{bytes_at, new_string}
use ruta.Runtime.Heap.Canonical.{Makes, new_string-Makes}
use ruta.Runtime.Heap.Many.{new_strings, empty-IsHeap, new_strings-handles}

abbrev name : List ℕ
name = 112 ∷ 114 ∷ 105 ∷ 110 ∷ 116 ∷ []

abbrev texts : List (List ℕ)
texts = name ∷ (120 ∷ []) ∷ name ∷ []

new_string-Makes_example : (r : ℕ × Heap) × (new_string empty name ≡ ok r) × Makes empty name r
new_string-Makes_example = new_string-Makes empty name empty-IsHeap (omega arith)

new_strings-handles_example :
    (r : List ℕ × Heap) × (a b : ℕ) × (new_strings empty texts ≡ ok r)
    × (get_elem? r.0 0 ≡ some a)
    × (get_elem? r.0 2 ≡ some b)
    × (bytes_at r.1 a ≡ ok name)
    × (bytes_at r.1 b ≡ ok name)
    × ((a ≡ b) ↔ (name ≡ name))
new_strings-handles_example =
    new_strings-handles texts 0 2 name name (omega arith) refl refl (omega arith)

abbrev body : Body
body = record {
  params = 0;
  vararg = Code.anonymous;
  max_registers = 2;
  code = 0 ∷ [];
  upvals = [];
  line_defined = 0;
  last_line_defined = 0;
  lines = [];
  locals = [];
}

-- A chunk with a function in it; both have the constant "print".
abbrev chunk : Prototype
chunk =
    prototype body (61 ∷ 120 ∷ []) (Code.str name ∷ Code.int (pos 7) ∷ [])
      (child (prototype body (61 ∷ 120 ∷ []) (Code.str name ∷ []) no_children) no_children)

load-Loads_example :
    (r : ℕ × Heap) × (source : ℕ) × (load empty chunk ≡ ok r)
    × (bytes_at r.1 source ≡ ok (source_name chunk))
    × Loads r.1 chunk source r.0
    × Adds (objects_in chunk + 1) empty r.1
unfolding objects_in
load-Loads_example = load-Loads empty chunk empty-IsHeap (omega arith)
