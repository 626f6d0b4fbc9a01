-- ===== src/Runtime/Heap/LoadRuns.antt =====
-- Loading a chunk: crates/ruta-runtime/src/heap/proto.rs.
use ruta.Prelude.{
  ℕ, suc, ◌+◌, ◌^◌, ◌≤◌, ◌<◌, ◌≡◌, refl, ap, arith, List, [], ◌∷◌, ◌++◌, length, length-append,
  get_elem?-here, get_elem?-before, ok,
}
use ruta.Bytecode.Prototype as Code
use ruta.Bytecode.Prototype.{Constant, Body, Prototype, Prototypes, prototype, no_children, child}
use ruta.Runtime.Value.{Value, int, float, str}
use ruta.Runtime.Heap.{Heap, proto_of, proto_object, last_handle}
use ruta.Runtime.Heap.Strings.{bytes_at}
use ruta.Runtime.Heap.Load.{resolve, resolve_all, load_child, load_children, load}
use ruta.Runtime.Heap.Room.{IsHeap}
use ruta.Runtime.Heap.Canonical.{Makes, new_string-Makes, last_handle-length}
use ruta.Runtime.Heap.Many.{bytes_at-keeps}
use ruta.Runtime.Heap.Loading.{
  Resolves, ResolvesAll, Loads, LoadsAll, objects_in, objects_in_all, Keeps, Resolves-Keeps,
  ResolvesAll-Keeps, Loads-Keeps, LoadsAll-Keeps, grown, grown-IsHeap,
}

-- A heap in order, with every object where it was and so many new ones at most.
pub record Adds (count : ℕ) (h after : Heap) : Type 0 where
  pub is_heap : IsHeap after
  pub keeps : Keeps h after
  pub grows : length after.objects ≤ length h.objects + count

Adds-then :
    (m n total : ℕ) (h first after : Heap)
    → m + n ≤ total
    → Adds m h first
    → Adds n first after
    → Adds total h after
Adds-then m n total h first after fits p q = record {
  is_heap = q.is_heap;
  keeps = λ i object e. q.keeps i object (p.keeps i object e);
  grows = omega (arith, p.grows, q.grows);
}

Adds-nothing : (h : Heap) → IsHeap h → Adds 0 h h
Adds-nothing h t = record { is_heap = t; keeps = λ i object e. e; grows = omega arith }

new_string-Adds : (h : Heap) (bytes : List ℕ) (r : ℕ × Heap) → Makes h bytes r → Adds 1 h r.1
new_string-Adds h bytes r p = record { is_heap = p.is_heap; keeps = p.keeps; grows = p.grows }

resolve-Resolves :
    (h : Heap) (constant : Constant)
    → IsHeap h
    → length h.objects + 1 < 2 ^ 32
    → (r : Value × Heap) × (resolve h constant ≡ ok r) × Resolves r.1 constant r.0 × Adds 1 h r.1
unfolding resolve
resolve-Resolves h (Code.int number) t fits = (
  (int number, h),
  refl,
  refl,
  record { is_heap = t; keeps = λ i object e. e; grows = omega arith },
)
resolve-Resolves h (Code.float number) t fits = (
  (float number, h),
  refl,
  refl,
  record { is_heap = t; keeps = λ i object e. e; grows = omega arith },
)
resolve-Resolves h (Code.str bytes) t fits =
    let (r, run, p) = new_string-Makes h bytes t fits in
    ((str r.0, r.1), rw run refl, (r.0, refl, p.reads), new_string-Adds h bytes r p)

resolve_all-ResolvesAll :
    (h : Heap) (constants : List Constant)
    → IsHeap h
    → length h.objects + length constants < 2 ^ 32
    → (r : List Value × Heap) × (resolve_all h constants ≡ ok r)
      × ResolvesAll r.1 constants r.0
      × Adds (length constants) h r.1
unfolding resolve_all
resolve_all-ResolvesAll h [] t fits = (([], h), refl, tt, Adds-nothing h t)
resolve_all-ResolvesAll h (constant ∷ constants) t fits =
    let (one, run, r, p) = resolve-Resolves h constant t (omega arith) in
    let (rest, ran, rs, q) =
      resolve_all-ResolvesAll one.1 constants p.is_heap (omega (arith, p.grows)) in
    (
      (one.0 ∷ rest.0, rest.1),
      rw (run, ran) refl,
      (Resolves-Keeps one.1 rest.1 constant one.0 q.keeps r, rs),
      Adds-then 1 (length constants) (suc (length constants)) h one.1 rest.1 (omega arith) p q,
    )

-- The prototype that is pushed last.
pushed-Loads :
    (h : Heap) (body : Body) (name : List ℕ) (constants : List Constant) (children : Prototypes)
    (values : List Value) (handles : List ℕ) (source : ℕ)
    → IsHeap h
    → length h.objects + 1 < 2 ^ 32
    → ResolvesAll h constants values
    → LoadsAll h children source handles
    → let object =
        proto_object
          (record { body = body; constants = values; children = handles; source = source }) in
      (last_handle (h.objects ++ (object ∷ [])) ≡ length h.objects)
      × Loads
          (grown h object refl)
          (prototype body name constants children)
          source
          (length h.objects)
      × Adds 1 h (grown h object refl)
unfolding Loads LoadsAll
pushed-Loads h body name constants children values handles source t fits rs ls =
    let object =
      proto_object
        (record { body = body; constants = values; children = handles; source = source }) in
    let after = grown h object refl in
    let keeps : Keeps h after = λ i o e. get_elem?-before h.objects (object ∷ []) i o e in
    (
      last_handle-length h.objects object fits,
      (
        values,
        handles,
        ap (λ o. proto_of o) (get_elem?-here h.objects [] object),
        ResolvesAll-Keeps h after constants values keeps rs,
        LoadsAll-Keeps h after children source handles keeps ls,
      ),
      record {
        is_heap = grown-IsHeap h object refl t;
        keeps = keeps;
        grows = omega (arith, length-append h.objects (object ∷ []));
      },
    )

mutual
  unfolding Loads LoadsAll load_child load_children objects_in objects_in_all

  load_child-Loads :
      (h : Heap) (p : Prototype) (source : ℕ)
      → IsHeap h
      → length h.objects + objects_in p < 2 ^ 32
      → (r : ℕ × Heap) × (load_child h p source ≡ ok r)
        × Loads r.1 p source r.0
        × Adds (objects_in p) h r.1
  load_child-Loads h (prototype body name constants children) source t fits =
      let (nested, run, ls, a) = load_children-LoadsAll h children source t (omega arith) in
      let (values, ran, rs, b) =
        resolve_all-ResolvesAll nested.1 constants a.is_heap (omega (arith, a.grows)) in
      let still = LoadsAll-Keeps nested.1 values.1 children source nested.0 b.keeps ls in
      let (handle, loads, c) =
        pushed-Loads values.1 body name constants children values.0 nested.0 source b.is_heap
          (omega (arith, a.grows, b.grows)) rs still in
      let object =
        proto_object
          (record { body = body; constants = values.0; children = nested.0; source = source }) in
      (
        (length values.1.objects, grown values.1 object refl),
        rw (run, ran, handle) refl,
        loads,
        Adds-then (objects_in_all children) (length constants + 1)
            (1 + length constants + objects_in_all children) h nested.1 (grown values.1 object refl)
            (omega arith) a
            (Adds-then (length constants) 1 (length constants + 1) nested.1 values.1
              (grown values.1 object refl) (omega arith) b c),
      )

  load_children-LoadsAll :
      (h : Heap) (ps : Prototypes) (source : ℕ)
      → IsHeap h
      → length h.objects + objects_in_all ps < 2 ^ 32
      → (r : List ℕ × Heap) × (load_children h ps source ≡ ok r)
        × LoadsAll r.1 ps source r.0
        × Adds (objects_in_all ps) h r.1
  load_children-LoadsAll h no_children source t fits = (([], h), refl, tt, Adds-nothing h t)
  load_children-LoadsAll h (child first rest) source t fits =
      let (one, run, l, a) = load_child-Loads h first source t (omega arith) in
      let (others, ran, ls, b) =
        load_children-LoadsAll one.1 rest source a.is_heap (omega (arith, a.grows)) in
      (
        (one.0 ∷ others.0, others.1),
        rw (run, ran) refl,
        (Loads-Keeps one.1 others.1 first source one.0 b.keeps l, ls),
        Adds-then (objects_in first) (objects_in_all rest) (objects_in first + objects_in_all rest)
            h one.1 others.1 (omega arith) a b,
      )

abbrev pub source_name : Prototype → List ℕ
source_name (prototype body name constants _) = name

-- In a heap in order with room for what is loaded, `load` answers the handle of an object that
-- mirrors the prototype: the same body, each constant as its value and each string by its bytes, the
-- children the same at handles of their own, and all of them with one string that reads as the
-- source's name. The heap is in order after it, and no object has moved.
pub load-Loads :
    (h : Heap) (p : Prototype)
    → IsHeap h
    → length h.objects + objects_in p + 1 < 2 ^ 32
    → (r : ℕ × Heap) × (source : ℕ) × (load h p ≡ ok r)
      × (bytes_at r.1 source ≡ ok (source_name p))
      × Loads r.1 p source r.0
      × Adds (objects_in p + 1) h r.1
unfolding load
load-Loads h (prototype body name constants children) t fits =
    let p = prototype body name constants children in
    let (named, run, m) = new_string-Makes h name t (omega arith) in
    let (loaded, ran, l, a) =
      load_child-Loads named.1 p named.0 m.is_heap (omega (arith, m.grows)) in
    (
      loaded,
      named.0,
      rw (run, ran) refl,
      bytes_at-keeps named.1 loaded.1 named.0 name a.keeps m.reads,
      l,
      Adds-then 1 (objects_in p) (objects_in p + 1) h named.1 loaded.1 (omega arith)
          (new_string-Adds h name named m) a,
    )
