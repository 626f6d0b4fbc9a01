-- ===== src/Runtime/Machine/Capturing.antt =====
-- Capturing a slot: `capture` of crates/ruta-runtime/src/vm/state.rs.
use ruta.Prelude.{
  ℕ, zero, suc, ◌+◌, ◌^◌, ◌<◌, ◌≡◌, ◌⊎◌, inl, inr, refl, sym, ap, subst, ◌∙◌, arith, Option-cases,
  Option, some, List, [], ◌∷◌, ◌++◌, length, length-append, get_elem?, get_elem?-here,
  get_elem?-before, ok, ◌>>=◌,
}
use ruta.Bytecode.Debug.{hit, miss, search}
use ruta.Runtime.Value.{Value}
use ruta.Runtime.Heap.{Object, Run, open_at, upval_object, upvalue_of, last_handle}
use ruta.Runtime.Stack.{Stack}
use ruta.Runtime.Machine.{Vm, insert_at, capture}
use ruta.Runtime.Machine.Cells.{Cells, Entry, Entry-unique, Inserted, search-cases}
use ruta.Runtime.Machine.Closing.{IsAt, IsOpen, IsAt-unique, read_cell, reads}

-- What `capture` promises of the handle it answers and the machine after it.
pub record Captures (vm : Vm) (slot handle : ℕ) (after : Vm) : Type 0 where
  pub stack : after.stack ≡ vm.stack
  pub opened : IsOpen after.heap.objects after.open_upvals
  pub points : IsAt after.heap.objects slot handle
  pub again : capture after slot ≡ ok (handle, after)
  pub reads_same :
      (other : ℕ) (value : Value) → reads vm other ≡ ok value → reads after other ≡ ok value

capture-hit :
    (vm : Vm) (slot index handle : ℕ)
    → search vm.open_upvals slot ≡ hit index
    → get_elem? vm.open_upvals index ≡ some (slot, handle)
    → capture vm slot ≡ ok (handle, vm)
unfolding capture
capture-hit vm slot index handle e f = rw (capture, e, f) refl

-- The machine with a new cell for a slot.
abbrev new_cell : Vm → ℕ → ℕ → Vm
new_cell vm slot index = record vm {
  heap = record vm.heap { objects = vm.heap.objects ++ (upval_object (open_at slot) ∷ []) };
  open_upvals =
      insert_at vm.open_upvals index
        (slot, last_handle (vm.heap.objects ++ (upval_object (open_at slot) ∷ [])));
}

capture-miss :
    (vm : Vm) (slot index : ℕ)
    → search vm.open_upvals slot ≡ miss index
    → capture vm slot
      ≡ ok (
        last_handle (vm.heap.objects ++ (upval_object (open_at slot) ∷ [])),
        new_cell vm slot index,
      )
unfolding capture
capture-miss vm slot index e = rw (capture, e) refl

-- The slots of the list are those that a search for them hits.
hit_again :
    (vm : Vm) (slot handle : ℕ)
    → IsOpen vm.heap.objects vm.open_upvals
    → Entry vm.open_upvals slot handle
    → capture vm slot ≡ ok (handle, vm)
hit_again vm slot handle ordered entry =
    elim (search-cases vm.open_upvals slot ordered.increasing) [
      | inl (index, held, found, there, listed) ↦
          let same : held ≡ handle =
            Entry-unique vm.open_upvals slot held handle ordered.increasing listed entry in
          capture-hit vm slot index held found there ∙ ap (λ n. ok (n, vm)) same
      | inr (index, found, absent, inserts) ↦ absurd (absent handle entry)
    ]

-- A push at the end is the object at the last handle.
last_handle-push :
    (objects : List Object) (object : Object)
    → length objects + 1 < 2 ^ 32
    → last_handle (objects ++ (object ∷ [])) ≡ length objects
last_handle-push objects object h = omega (arith, length-append objects (object ∷ []))

IsAt-push :
    (objects : List Object) (slot t handle : ℕ)
    → IsAt (objects ++ (upval_object (open_at slot) ∷ [])) t handle
    → ((slot ≡ t) × (length objects ≡ handle)) ⊎ IsAt objects t handle
IsAt-push [] slot t zero e =
    inl (IsAt-unique (upval_object (open_at slot) ∷ []) slot t 0 refl e, refl)
IsAt-push [] slot t (suc n) e = let f : ⊥ = cc in absurd f
IsAt-push (object ∷ objects) slot t zero e = inr e
IsAt-push (object ∷ objects) slot t (suc n) e = elim (IsAt-push objects slot t n e) [
  | inl (same, here) ↦ inl (same, ap (λ m. suc m) here)
  | inr old ↦ inr old
]

new_cell-IsOpen :
    (objects : List Object) (cells more : Cells) (slot : ℕ)
    → IsOpen objects cells
    → Inserted cells slot (length objects) more
    → IsOpen (objects ++ (upval_object (open_at slot) ∷ [])) more
new_cell-IsOpen objects cells more slot ordered inserted =
    let new = upval_object (open_at slot) in
    let here : IsAt (objects ++ (new ∷ [])) slot (length objects) = get_elem?-here objects [] new in
    record {
      increasing = inserted.increasing;
      listed = λ t handle entry. elim (inserted.only t handle entry) [
        | inl (same, last) ↦
            subst (λ n. IsAt (objects ++ (new ∷ [])) t n) last
              (subst (λ n. IsAt (objects ++ (new ∷ [])) n (length objects)) same here)
        | inr old ↦ get_elem?-before objects (new ∷ []) handle _ (ordered.listed t handle old)
      ];
      complete = λ t handle now. elim (IsAt-push objects slot t handle now) [
        | inl (same, last) ↦
            subst (λ n. Entry more t n) last
              (subst (λ n. Entry more n (length objects)) same inserted.entry)
        | inr old ↦ inserted.kept t handle (ordered.complete t handle old)
      ];
    }

abbrev read_in : Stack → Option Object → Run Value
read_in stack object = upvalue_of object >>= λ held. read_cell stack held

-- A read that answers reads the same among more objects.
reads-push :
    (vm : Vm) (slot index other : ℕ) (value : Value)
    → reads vm other ≡ ok value
    → reads (new_cell vm slot index) other ≡ ok value
reads-push vm slot index other value f = elim (Option-cases (get_elem? vm.heap.objects other)) [
  | inl e ↦
      let g : ⊥ = (let none_there = ap (λ o. read_in vm.stack o) (sym e) ∙ f in cc) in absurd g
  | inr (object, e) ↦
      let more =
        get_elem?-before vm.heap.objects (upval_object (open_at slot) ∷ []) other object e in
      ap (λ o. read_in vm.stack o) (more ∙ sym e) ∙ f
]

-- Where the list of open upvalues is in order and the heap has room, `capture` answers a handle that
-- points at the slot, the same one again if the slot is captured again; every upvalue that could be
-- read reads as before, and the list is in order again.
pub capture-Captures :
    (vm : Vm) (slot : ℕ)
    → IsOpen vm.heap.objects vm.open_upvals
    → length vm.heap.objects + 1 < 2 ^ 32
    → (handle : ℕ) × (after : Vm) × (capture vm slot ≡ ok (handle, after))
      × Captures vm slot handle after
capture-Captures vm slot ordered room = elim (search-cases vm.open_upvals slot ordered.increasing) [
  | inl (index, handle, found, there, entry) ↦
      let run = capture-hit vm slot index handle found there in
      (
        handle,
        vm,
        run,
        record {
          stack = refl;
          opened = ordered;
          points = ordered.listed slot handle entry;
          again = run;
          reads_same = λ other value e. e;
        },
      )
  | inr (index, found, absent, inserts) ↦
      let objects = vm.heap.objects in
      let handle = last_handle (objects ++ (upval_object (open_at slot) ∷ [])) in
      let last : handle ≡ length objects = last_handle-push objects _ room in
      let inserted =
        subst (λ n. Inserted vm.open_upvals slot n (insert_at vm.open_upvals index (slot, handle)))
          last (inserts handle) in
      let after = new_cell vm slot index in
      let ordered_after = new_cell-IsOpen objects vm.open_upvals _ slot ordered inserted in
      (
        handle,
        after,
        capture-miss vm slot index found,
        record {
          stack = refl;
          opened = ordered_after;
          points =
              subst (λ n. IsAt after.heap.objects slot n) (sym last)
                (ordered_after.listed slot (length objects) inserted.entry);
          again =
              hit_again after slot handle ordered_after
                (subst (λ n. Entry after.open_upvals slot n) (sym last) inserted.entry);
          reads_same = reads-push vm slot index;
        },
      )
]
