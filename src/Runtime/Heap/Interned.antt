-- ===== src/Runtime/Heap/Interned.antt =====
-- The invariant of the table of short strings, and inserting: crates/ruta-runtime/src/heap/string.rs.
use Prim.Native.Nat.{bit_and}
use ruta.Prelude.Bits.{bit_and-lt}
use ruta.Prelude.{
  ℕ, ◌-◌, ◌<◌, ◌≡◌, ◌≢◌, ◌⊎◌, inl, inr, refl, sym, ap, subst, ◌∙◌, arith, ◌==◌, Bool-cases, Option,
  none, some, List, length, get_elem?, get_elem?-some, get_elem?-set, get_elem?-set_other,
  length-set, set, ok,
}
use ruta.Runtime.Table.Key.{hash_bytes}
use ruta.Runtime.Heap.Strings.{insert}
use ruta.Runtime.Heap.Probing.{
  Slots, Holds, Empty, Power, First, distance, distance-lt, distance-same, unused_from-First,
}

-- `key` gives the bytes of each handle.
module _ (key : ℕ → List ℕ) where
  -- The slot where the search for a handle's bytes begins.
  abbrev pub home : Slots → ℕ → ℕ
  home slots handle = bit_and (hash_bytes (key handle)) (length slots - 1)

  -- Some slot holds it.
  abbrev pub In : Slots → ℕ → Type 0
  In slots handle = (i : ℕ) × Holds slots i handle

  -- No unused slot comes between a handle's home and its slot, and no two slots have the same bytes.
  pub record IsTable (slots : Slots) : Type 0 where
    pub power : ℕ
    pub sized : Power slots power
    pub reached :
        (i handle e : ℕ)
        → Holds slots i handle
        → Empty slots e
        → distance (length slots) (home slots handle) i
          < distance (length slots) (home slots handle) e
    pub distinct :
        (i j first second : ℕ)
        → Holds slots i first
        → Holds slots j second
        → key first ≡ key second
        → i ≡ j

  -- What a table is after a handle was inserted.
  pub record Inserted (slots after : Slots) (handle : ℕ) : Type 0 where
    pub is_table : IsTable after
    pub index : ℕ
    pub unused : Empty slots index
    pub written : after ≡ set slots index (some handle)

  home-lt : (slots : Slots) (k handle : ℕ) → Power slots k → home slots handle < length slots
  home-lt slots k handle p = omega (
    arith,
    ap (λ n. bit_and (hash_bytes (key handle)) (n - 1)) p,
    bit_and-lt k (hash_bytes (key handle)),
    p,
  )

  -- A slot of the table after the write is the new one or an old one.
  pub written-cases :
      (slots : Slots) (index i handle : ℕ) (slot : Option ℕ)
      → Empty slots index
      → get_elem? (set slots index (some handle)) i ≡ some slot
      → ((index ≡ i) × (slot ≡ some handle)) ⊎ ((index ≢ i) × (get_elem? slots i ≡ some slot))
  written-cases slots index i handle slot m h = elim (Bool-cases (index == i)) [
    | inl t ↦
        let same : index ≡ i = ground (arith, t) in
        let there : some (some handle) ≡ some slot =
          sym (get_elem?-set slots index none (some handle) m)
          ∙ (ap (λ n. get_elem? (set slots index (some handle)) n) same ∙ h) in
        inl (same, cc)
    | inr t ↦
        let other : index ≢ i = ground (arith, t) in
        inr (other, sym (get_elem?-set_other slots index i (some handle) other) ∙ h)
  ]

  abbrev Reached : Slots → ℕ → ℕ → ℕ → Type 0
  Reached slots i handle e =
      distance (length slots) (home slots handle) i < distance (length slots) (home slots handle) e

  written-Reached :
      (slots : Slots) (index handle : ℕ) (t : IsTable slots)
      → First slots (home slots handle) index
      → (i other e : ℕ) → Holds (set slots index (some handle)) i other
      → Empty (set slots index (some handle)) e
      → Reached slots i other e
  written-Reached slots index handle t (unused, least) i other e h v =
      elim (written-cases slots index e handle none unused v) [
        | inl (at, slot) ↦ absurd cc
        | inr (apart, empty) ↦ elim (written-cases slots index i handle (some other) unused h) [
          | inr (away, old) ↦ t.reached i other e old empty
          | inl (at, slot) ↦
              let same : other ≡ handle = cc in
              let n = length slots in
              let from = home slots handle in
              let near : distance n from index < distance n from e =
                elim (Bool-cases (distance n from index == distance n from e)) [
                  | inl level ↦ absurd (
                      apart (
                        distance-same n from index e (home-lt slots t.power handle t.sized)
                          (get_elem?-some slots index none unused)
                          (get_elem?-some slots e none empty) (ground (arith, level))))
                  | inr uneven ↦ ground (arith, uneven, least e empty)
                ] in
              subst (λ k. distance n (home slots k) i < distance n (home slots k) e) (sym same)
                (subst (λ j. distance n from j < distance n from e) at near)
        ]
      ]

  written-distinct :
      (slots : Slots) (index handle : ℕ) (t : IsTable slots)
      → Empty slots index
      → ((i other : ℕ) → Holds slots i other → key other ≢ key handle)
      → (i j first second : ℕ) → Holds (set slots index (some handle)) i first
      → Holds (set slots index (some handle)) j second
      → key first ≡ key second
      → i ≡ j
  written-distinct slots index handle t unused fresh i j first second g h same =
      elim (written-cases slots index i handle (some first) unused g) [
        | inl (at, slot) ↦
            let new : first ≡ handle = cc in
            elim (written-cases slots index j handle (some second) unused h) [
              | inl (there, also) ↦ sym at ∙ there
              | inr (away, old) ↦ absurd (fresh j second old (sym same ∙ ap key new))
            ]
        | inr (away, old) ↦ elim (written-cases slots index j handle (some second) unused h) [
          | inl (there, also) ↦
              let new : second ≡ handle = cc in absurd (fresh i first old (same ∙ ap key new))
          | inr (apart, older) ↦ t.distinct i j first second old older same
        ]
      ]

  pub insert-Inserted :
      (slots : Slots) (handle e : ℕ)
      → IsTable slots
      → Empty slots e
      → ((i other : ℕ) → Holds slots i other → key other ≢ key handle)
      → (after : Slots) × (insert slots handle (hash_bytes (key handle)) ≡ ok after)
        × Inserted slots after handle
  unfolding insert
  insert-Inserted slots handle e t m fresh =
      let from = home slots handle in
      let (index, run, (unused, least)) =
        unused_from-First (length slots) slots t.power from e t.sized
          (home-lt slots t.power handle t.sized) m
          (distance-lt (length slots) from e (home-lt slots t.power handle t.sized)
            (get_elem?-some slots e none m)) in
      let after = set slots index (some handle) in
      let size = length-set slots index (some handle) in
      (
        after,
        rw run refl,
        record {
          is_table = record {
            power = t.power;
            sized = size ∙ t.sized;
            reached = λ i other u h v.
                rw size (written-Reached slots index handle t (unused, least) i other u h v);
            distinct = λ i j first second g h same.
                written-distinct slots index handle t unused fresh i j first second g h same;
          };
          index = index;
          unused = unused;
          written = refl;
        },
      )
