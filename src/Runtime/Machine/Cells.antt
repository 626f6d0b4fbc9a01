-- ===== src/Runtime/Machine/Cells.antt =====
-- The list of open upvalues, ordered by slot: `open` of crates/ruta-runtime/src/vm/state.rs.
use ruta.Prelude.{
  ℕ, zero, suc, ◌≤◌, ◌<◌, ◌≡◌, ◌⊎◌, inl, inr, refl, ap, arith, ◌==◌, ltb, true, false, Bool-cases,
  some, List, [], ◌∷◌, get_elem?, take, drop,
}
use ruta.Bytecode.Debug.{hit, miss, search}
use ruta.Runtime.Machine.{partition_point, insert_at}

abbrev pub Cells : Type 0
Cells = List (ℕ × ℕ)

-- The upvalue at a handle is listed for a slot.
abbrev pub Entry : Cells → ℕ → ℕ → Type 0
Entry [] slot handle = ⊥
Entry ((s, h) ∷ cells) slot handle = ((s ≡ slot) × (h ≡ handle)) ⊎ Entry cells slot handle

-- The slots increase.
abbrev pub Increasing : Cells → Type 0
Increasing [] = Unit
Increasing ((s, h) ∷ cells) =
    ((slot handle : ℕ) → Entry cells slot handle → s < slot) × Increasing cells

pub Entry-unique :
    (cells : Cells) (slot h k : ℕ)
    → Increasing cells
    → Entry cells slot h
    → Entry cells slot k
    → h ≡ k
Entry-unique [] slot h k i e f = elim e [ ]
Entry-unique ((s, g) ∷ cells) slot h k i e f = elim e [
  | inl here ↦ elim f [
    | inl also ↦ cc
    | inr there ↦ absurd (omega (arith, here.0, i.0 slot k there))
  ]
  | inr there ↦ elim f [
    | inl here ↦ absurd (omega (arith, here.0, i.0 slot h there))
    | inr also ↦ Entry-unique cells slot h k i.1 there also
  ]
]

pub Entry-take :
    (n : ℕ) (cells : Cells) (slot h : ℕ) → Entry (take n cells) slot h → Entry cells slot h
Entry-take zero cells slot h e = elim e [ ]
Entry-take (suc n) [] slot h e = e
Entry-take (suc n) ((s, g) ∷ cells) slot h e = elim e [
  | inl here ↦ inl here
  | inr there ↦ inr (Entry-take n cells slot h there)
]

pub Entry-drop :
    (n : ℕ) (cells : Cells) (slot h : ℕ) → Entry (drop n cells) slot h → Entry cells slot h
Entry-drop zero cells slot h e = e
Entry-drop (suc n) [] slot h e = e
Entry-drop (suc n) ((s, g) ∷ cells) slot h e = inr (Entry-drop n cells slot h e)

pub Entry-split :
    (n : ℕ) (cells : Cells) (slot h : ℕ)
    → Entry cells slot h
    → Entry (take n cells) slot h ⊎ Entry (drop n cells) slot h
Entry-split zero cells slot h e = inr e
Entry-split (suc n) [] slot h e = inl e
Entry-split (suc n) ((s, g) ∷ cells) slot h e = elim e [
  | inl here ↦ inl (inl here)
  | inr there ↦ elim (Entry-split n cells slot h there) [
    | inl before ↦ inl (inr before)
    | inr after ↦ inr after
  ]
]

pub Increasing-take : (n : ℕ) (cells : Cells) → Increasing cells → Increasing (take n cells)
Increasing-take zero cells i = tt
Increasing-take (suc n) [] i = tt
Increasing-take (suc n) ((s, g) ∷ cells) i =
    (λ slot h e. i.0 slot h (Entry-take n cells slot h e), Increasing-take n cells i.1)

pub Increasing-drop : (n : ℕ) (cells : Cells) → Increasing cells → Increasing (drop n cells)
Increasing-drop zero cells i = i
Increasing-drop (suc n) [] i = tt
Increasing-drop (suc n) ((s, g) ∷ cells) i = Increasing-drop n cells i.1

-- Below the partition point the slots are below `from`, and from it on they are not.
pub partition_point-below :
    (cells : Cells) (from slot h : ℕ)
    → Entry (take (partition_point cells from) cells) slot h
    → slot < from
unfolding partition_point
partition_point-below [] from slot h e = elim e [ ]
partition_point-below ((s, g) ∷ cells) from slot h entry =
    let step : Entry (take (partition_point ((s, g) ∷ cells) from) ((s, g) ∷ cells)) slot h
        → slot < from =
      elim (Bool-cases (ltb s from)) [
        | inl t ↦ rw t (λ e. elim e [
          | inl here ↦ omega (arith, here.0, lower s from t)
          | inr there ↦ partition_point-below cells from slot h there
        ])
        | inr t ↦ rw t (λ e. elim e [ ])
      ] in
    step entry
  where
    lower : (s from : ℕ) → ltb s from ≡ true → s < from
    lower s from t = ground (arith, t)

pub partition_point-past :
    (cells : Cells) (from slot h : ℕ)
    → Increasing cells
    → Entry (drop (partition_point cells from) cells) slot h
    → from ≤ slot
unfolding partition_point
partition_point-past [] from slot h i e = elim e [ ]
partition_point-past ((s, g) ∷ cells) from slot h i entry =
    let step : Entry (drop (partition_point ((s, g) ∷ cells) from) ((s, g) ∷ cells)) slot h
        → from ≤ slot =
      elim (Bool-cases (ltb s from)) [
        | inl t ↦ rw t (λ e. partition_point-past cells from slot h i.1 e)
        | inr t ↦ rw t (λ e. elim e [
          | inl here ↦ omega (arith, here.0, upper s from t)
          | inr there ↦ omega (arith, i.0 slot h there, upper s from t)
        ])
      ] in
    step entry
  where
    upper : (s from : ℕ) → ltb s from ≡ false → from ≤ s
    upper s from t = ground (arith, t)

-- What the search for a slot finds.
abbrev pub Hit : Cells → ℕ → Type 0
Hit cells slot =
    (index : ℕ) × (handle : ℕ) × (search cells slot ≡ hit index)
    × (get_elem? cells index ≡ some (slot, handle))
    × Entry cells slot handle

-- The list with an entry more, at the index where the search ends.
pub record Inserted (cells : Cells) (slot handle : ℕ) (more : Cells) : Type 0 where
  pub increasing : Increasing more
  pub entry : Entry more slot handle
  pub kept : (s h : ℕ) → Entry cells s h → Entry more s h
  pub only : (s h : ℕ) → Entry more s h → ((slot ≡ s) × (handle ≡ h)) ⊎ Entry cells s h

abbrev pub Miss : Cells → ℕ → Type 0
Miss cells slot =
    (index : ℕ) × (search cells slot ≡ miss index)
    × ((handle : ℕ) → Entry cells slot handle → ⊥)
    × ((handle : ℕ) → Inserted cells slot handle (insert_at cells index (slot, handle)))

search-first :
    (s g slot : ℕ) (cells : Cells)
    → slot < s
    → Increasing ((s, g) ∷ cells)
    → Miss ((s, g) ∷ cells) slot
unfolding search
search-first s g slot cells below i =
    let other : (s == slot) ≡ false = ground (arith, below) in
    let less : ltb slot s ≡ true = ground (arith, below) in
    let absent : (h : ℕ) → Entry ((s, g) ∷ cells) slot h → ⊥ = λ h e. elim e [
      | inl here ↦ omega (arith, here.0, below)
      | inr there ↦ omega (arith, i.0 slot h there, below)
    ] in
    (
      0,
      rw (other, less) refl,
      absent,
      λ handle. record {
        increasing = (
          λ t h e. elim e [
            | inl here ↦ omega (arith, here.0, below)
            | inr there ↦ omega (arith, i.0 t h there, below)
          ],
          i,
        );
        entry = inl (refl, refl);
        kept = λ t h e. inr e;
        only = λ t h e. e;
      },
    )

search_later-Miss :
    (s g slot : ℕ) (cells : Cells)
    → s < slot
    → Increasing ((s, g) ∷ cells)
    → Miss cells slot
    → Miss ((s, g) ∷ cells) slot
unfolding search
search_later-Miss s g slot cells above i (index, found, absent, inserts) =
    let other : (s == slot) ≡ false = ground (arith, above) in
    let less : ltb slot s ≡ false = ground (arith, above) in
    let still : (h : ℕ) → Entry ((s, g) ∷ cells) slot h → ⊥ =
      λ h e. elim e [ inl here ↦ omega (arith, here.0, above) | inr there ↦ absent h there ] in
    (
      suc index,
      rw (other, less, found) refl,
      still,
      λ handle.
          let rest = inserts handle in
          record {
            increasing = (
              λ t h e. elim (rest.only t h e) [
                | inl here ↦ omega (arith, here.0, above)
                | inr there ↦ i.0 t h there
              ],
              rest.increasing,
            );
            entry = inr rest.entry;
            kept = λ t h e. elim e [ inl here ↦ inl here | inr there ↦ inr (rest.kept t h there) ];
            only = λ t h e. elim e [
              | inl here ↦ inr (inl here)
              | inr there ↦ elim (rest.only t h there) [
                | inl new ↦ inl new
                | inr old ↦ inr (inr old)
              ]
            ];
          },
    )

search_later-Hit :
    (s g slot : ℕ) (cells : Cells) → s < slot → Hit cells slot → Hit ((s, g) ∷ cells) slot
unfolding search
search_later-Hit s g slot cells above (index, handle, found, there, entry) =
    let other : (s == slot) ≡ false = ground (arith, above) in
    let less : ltb slot s ≡ false = ground (arith, above) in
    (suc index, handle, rw (other, less, found) refl, there, inr entry)

pub search-cases : (cells : Cells) (slot : ℕ) → Increasing cells → Hit cells slot ⊎ Miss cells slot
unfolding search
search-cases [] slot i = inr (
  0,
  refl,
  λ h e. e,
  λ handle. record {
    increasing = (λ t h e. elim e [ ], tt);
    entry = inl (refl, refl);
    kept = λ t h e. elim e [ ];
    only = λ t h e. e;
  },
)
search-cases ((s, g) ∷ cells) slot i = elim (Bool-cases (s == slot)) [
  | inl t ↦
      let same : s ≡ slot = ground (arith, t) in
      inl (0, g, rw t refl, ap (λ n. some (n, g)) same, inl (same, refl))
  | inr t ↦ elim (Bool-cases (ltb slot s)) [
    | inl u ↦ inr (search-first s g slot cells (ground (arith, u)) i)
    | inr u ↦
        let above : s < slot = ground (arith, t, u) in
        elim (search-cases cells slot i.1) [
          | inl found ↦ inl (search_later-Hit s g slot cells above found)
          | inr missed ↦ inr (search_later-Miss s g slot cells above i missed)
        ]
  ]
]
