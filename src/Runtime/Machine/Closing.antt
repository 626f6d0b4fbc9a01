-- ===== src/Runtime/Machine/Closing.antt =====
-- Upvalues and the slots they point at: `close` of crates/ruta-runtime/src/vm/state.rs.
use ruta.Prelude.{
  ℕ, ◌<◌, ◌≡◌, ◌≢◌, ◌⊎◌, inl, inr, refl, sym, ap, subst, ◌∙◌, arith, ◌==◌, Bool-cases, Option, some,
  List, [], ◌∷◌, length, get_elem?, get_elem?-lt, get_elem?-set, get_elem?-set_other, set, take,
  drop, ok, ◌>>=◌,
}
use ruta.Runtime.Value.{Value}
use ruta.Runtime.Heap as Heap
use ruta.Runtime.Heap.{Run, Heap, Object, Upvalue, open_at, closed, upval_object, put_upvalue}
use ruta.Runtime.Stack as Stack
use ruta.Runtime.Stack.{Stack}
use ruta.Runtime.Machine.{Vm, partition_point, close_cells, close}
use ruta.Runtime.Machine.Cells.{
  Cells, Entry, Increasing, Entry-take, Entry-drop, Entry-split, Increasing-take, Increasing-drop,
  partition_point-below, partition_point-past,
}

-- The heap holds an upvalue at the handle that points at the slot.
abbrev pub IsAt : List Object → ℕ → ℕ → Type 0
IsAt objects slot handle = get_elem? objects handle ≡ some (upval_object (open_at slot))

-- The list of open upvalues has each upvalue that points at a slot, under that slot, once.
pub record IsOpen (objects : List Object) (cells : Cells) : Type 0 where
  pub increasing : Increasing cells
  pub listed : (slot handle : ℕ) → Entry cells slot handle → IsAt objects slot handle
  pub complete : (slot handle : ℕ) → IsAt objects slot handle → Entry cells slot handle

-- The slots of a list are in the stack.
abbrev pub InStack : Stack → Cells → Type 0
InStack stack cells = (slot handle : ℕ) → Entry cells slot handle → slot < length stack.values

abbrev pub read_cell : Stack → Upvalue → Run Value
read_cell stack (open_at slot) = Stack.at stack slot
read_cell stack (closed value) = ok value

-- What a function reads through the upvalue at a handle.
abbrev pub reads : Vm → ℕ → Run Value
reads vm handle = Heap.upvalue vm.heap handle >>= λ held. read_cell vm.stack held

pub IsAt-unique :
    (objects : List Object) (slot other handle : ℕ)
    → IsAt objects slot handle
    → IsAt objects other handle
    → slot ≡ other
IsAt-unique objects slot other handle e f = slot_of (sym e ∙ f)
  where
    slot_in : Option Object → ℕ
    slot_in (some (upval_object (open_at n))) = n
    slot_in _ = 0

    slot_of :
        some (upval_object (open_at slot)) ≡ some (upval_object (open_at other)) → slot ≡ other
    slot_of h = ap slot_in h

-- The upvalue at a handle was closed with what its slot held, or is not in the list and unchanged.
abbrev Shut : Stack → List Object → List Object → Cells → ℕ → Type 0
Shut stack before after cells handle =
    ((slot : ℕ) × (value : Value) × Entry cells slot handle
      × (Stack.at stack slot ≡ ok value)
      × (get_elem? after handle ≡ some (upval_object (closed value))))
    ⊎ (((slot : ℕ) → Entry cells slot handle → ⊥)
        × (get_elem? after handle ≡ get_elem? before handle))

abbrev shut : Heap → ℕ → Value → Heap
shut heap handle value = record heap {
  objects = set heap.objects handle (upval_object (closed value));
}

close_cells-step :
    (stack : Stack) (heap : Heap) (slot handle : ℕ) (cells : Cells) (value : Value)
    → Stack.at stack slot ≡ ok value
    → IsAt heap.objects slot handle
    → close_cells stack heap ((slot, handle) ∷ cells)
      ≡ close_cells stack (shut heap handle value) cells
unfolding close_cells put_upvalue
close_cells-step stack heap slot handle cells value e f = rw (e, f) refl

shut-Shut :
    (stack : Stack) (heap : Heap) (slot handle : ℕ) (cells : Cells) (value : Value)
    (after : List Object) (k : ℕ)
    → Stack.at stack slot ≡ ok value
    → IsAt heap.objects slot handle
    → Shut stack (shut heap handle value).objects after cells k
    → Shut stack heap.objects after ((slot, handle) ∷ cells) k
shut-Shut stack heap slot handle cells value after k e f s = elim s [
  | inl (t, v, entry, held, now) ↦ inl (t, v, inr entry, held, now)
  | inr (absent, same) ↦ elim (Bool-cases (handle == k)) [
    | inl t ↦
        let here : handle ≡ k = ground (arith, t) in
        let new : get_elem? (shut heap handle value).objects k
            ≡ some (upval_object (closed value)) =
          subst
            (λ n. get_elem? (shut heap handle value).objects n ≡ some (upval_object (closed value)))
            here (get_elem?-set heap.objects handle _ _ f) in
        inl (slot, value, inl (refl, here), e, same ∙ new)
    | inr t ↦
        let other : handle ≢ k = ground (arith, t) in
        inr (
          λ n entry. elim entry [ inl here ↦ other here.1 | inr there ↦ absent n there ],
          same ∙ get_elem?-set_other heap.objects handle k _ other,
        )
  ]
]

close_cells-Shut :
    (stack : Stack) (cells : Cells) (heap : Heap)
    → Increasing cells
    → InStack stack cells
    → ((slot handle : ℕ) → Entry cells slot handle → IsAt heap.objects slot handle)
    → (after : Heap) × (close_cells stack heap cells ≡ ok after)
      × ((k : ℕ) → Shut stack heap.objects after.objects cells k)
unfolding close_cells
close_cells-Shut stack [] heap i room listed = (heap, refl, λ k. inr (λ n e. e, refl))
close_cells-Shut stack ((slot, handle) ∷ cells) heap i room listed =
    let (value, there) = get_elem?-lt stack.values slot (room slot handle (inl (refl, refl))) in
    let held : Stack.at stack slot ≡ ok value = rw there refl in
    let here = listed slot handle (inl (refl, refl)) in
    let still : (s h : ℕ) → Entry cells s h → IsAt (shut heap handle value).objects s h =
      λ s h entry.
        let apart : handle ≢ h = λ same.
          let twice = subst (λ n. IsAt heap.objects slot n) same here in
          let one = IsAt-unique heap.objects slot s h twice (listed s h (inr entry)) in
          omega (arith, one, i.0 s h entry) in
        get_elem?-set_other heap.objects handle h _ apart ∙ listed s h (inr entry) in
    let (after, run, each) =
      close_cells-Shut stack cells (shut heap handle value) i.1 (λ s h entry. room s h (inr entry))
        still in
    (
      after,
      close_cells-step stack heap slot handle cells value held here ∙ run,
      λ k. shut-Shut stack heap slot handle cells value after.objects k held here (each k),
    )

-- What `close` promises of the machine after it.
pub record Closes (vm : Vm) (from : ℕ) (after : Vm) : Type 0 where
  pub stack : after.stack ≡ vm.stack
  pub opened : IsOpen after.heap.objects after.open_upvals
  pub below : (slot handle : ℕ) → IsAt after.heap.objects slot handle → slot < from
  pub reads_same : (handle : ℕ) → reads after handle ≡ reads vm handle

-- The machine that `close` leaves.
abbrev closed_to : Vm → ℕ → Heap → Vm
closed_to vm from heap = record vm {
  heap = heap;
  open_upvals = take (partition_point vm.open_upvals from) vm.open_upvals;
}

close-run :
    (vm : Vm) (from : ℕ) (heap : Heap)
    → close_cells vm.stack vm.heap (drop (partition_point vm.open_upvals from) vm.open_upvals)
      ≡ ok heap
    → close vm from ≡ ok (closed_to vm from heap)
unfolding close
close-run vm from heap e = rw e refl

-- Where one object is as it was, or its slot's value.
Shut-reads :
    (vm : Vm) (from : ℕ) (heap : Heap) (handle : ℕ)
    → IsOpen vm.heap.objects vm.open_upvals
    → Shut vm.stack vm.heap.objects heap.objects
        (drop (partition_point vm.open_upvals from) vm.open_upvals)
        handle
    → reads (closed_to vm from heap) handle ≡ reads vm handle
Shut-reads vm from heap handle ordered s = elim s [
  | inl (slot, value, entry, there, now) ↦
      let before = ordered.listed slot handle (Entry-drop _ vm.open_upvals slot handle entry) in
      rw (now, before, there) refl
  | inr (absent, same) ↦ rw same refl
]

-- What still points at a slot did before, and was not in the part of the list that was closed.
Shut-open :
    (stack : Stack) (before after : List Object) (cells : Cells) (slot handle : ℕ)
    → Shut stack before after cells handle
    → IsAt after slot handle
    → IsAt before slot handle × (Entry cells slot handle → ⊥)
Shut-open stack before after cells slot handle s now = elim s [
  | inl (t, value, entry, there, new) ↦ let f : ⊥ = (let e = sym new ∙ now in cc) in absurd f
  | inr (absent, same) ↦ (sym same ∙ now, absent slot)
]

-- What is not in the part of the list that was closed is as it was.
Shut-kept :
    (stack : Stack) (before after : List Object) (cells : Cells) (slot handle : ℕ)
    → ((t : ℕ) → Entry cells t handle → ⊥)
    → Shut stack before after cells handle
    → IsAt before slot handle
    → IsAt after slot handle
Shut-kept stack before after cells slot handle absent s old = elim s [
  | inl (t, value, entry, there, new) ↦ absurd (absent t entry)
  | inr (apart, same) ↦ same ∙ old
]

module _ (vm : Vm) (from : ℕ) (heap : Heap) where
  abbrev front : Cells
  front = take (partition_point vm.open_upvals from) vm.open_upvals

  abbrev back : Cells
  back = drop (partition_point vm.open_upvals from) vm.open_upvals

  closed_to_complete :
      IsOpen vm.heap.objects vm.open_upvals
      → ((k : ℕ) → Shut vm.stack vm.heap.objects heap.objects back k)
      → (slot handle : ℕ) → IsAt heap.objects slot handle
      → Entry front slot handle
  closed_to_complete ordered each slot handle now =
      let (old, absent) = Shut-open vm.stack _ _ back slot handle (each handle) now in
      elim (Entry-split (partition_point vm.open_upvals from) vm.open_upvals slot handle
        (ordered.complete slot handle old)) [
          | inl before ↦ before
          | inr after ↦ absurd (absent after)
        ]

  closed_to_listed :
      IsOpen vm.heap.objects vm.open_upvals
      → ((k : ℕ) → Shut vm.stack vm.heap.objects heap.objects back k)
      → (slot handle : ℕ) → Entry front slot handle
      → IsAt heap.objects slot handle
  closed_to_listed ordered each slot handle entry =
      let index = partition_point vm.open_upvals from in
      let cells = vm.open_upvals in
      let old = ordered.listed slot handle (Entry-take index cells slot handle entry) in
      let absent : (t : ℕ) → Entry back t handle → ⊥ = λ t late.
        let there = ordered.listed t handle (Entry-drop index cells t handle late) in
        let same = IsAt-unique vm.heap.objects slot t handle old there in
        let low = partition_point-below cells from slot handle entry in
        let high = partition_point-past cells from t handle ordered.increasing late in
        omega (arith, same, low, high) in
      Shut-kept vm.stack _ _ back slot handle absent (each handle) old

-- Where the list of open upvalues is in order and its slots are in the stack, `close` answers; after it
-- every upvalue reads as before, none points at a slot from `from` up, and the list is in order again.
pub close-Closes :
    (vm : Vm) (from : ℕ)
    → IsOpen vm.heap.objects vm.open_upvals
    → InStack vm.stack vm.open_upvals
    → (after : Vm) × (close vm from ≡ ok after) × Closes vm from after
close-Closes vm from ordered room =
    let index = partition_point vm.open_upvals from in
    let cells = vm.open_upvals in
    let (heap, run, each) =
      close_cells-Shut vm.stack (drop index cells) vm.heap
        (Increasing-drop index cells ordered.increasing)
        (λ slot handle e. room slot handle (Entry-drop index cells slot handle e))
        (λ slot handle e. ordered.listed slot handle (Entry-drop index cells slot handle e)) in
    (
      closed_to vm from heap,
      close-run vm from heap run,
      record {
        stack = refl;
        opened = record {
          increasing = Increasing-take index cells ordered.increasing;
          listed = closed_to_listed vm from heap ordered each;
          complete = closed_to_complete vm from heap ordered each;
        };
        below = λ slot handle now.
            partition_point-below cells from slot handle
              (closed_to_complete vm from heap ordered each slot handle now);
        reads_same = λ handle. Shut-reads vm from heap handle ordered (each handle);
      },
    )
