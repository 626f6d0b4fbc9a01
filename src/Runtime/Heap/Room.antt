-- ===== src/Runtime/Heap/Room.antt =====
-- The invariant of a heap of strings, and room for one more in its table: crates/ruta-runtime/src/heap/string.rs.
use ruta.Prelude.{
  ℕ, suc, ◌+◌, ◌-◌, ◌*◌, ◌≤◌, ◌<◌, ◌≡◌, ◌⊎◌, inl, inr, refl, sym, ap, subst, ◌∙◌, arith, false,
  Bool-cases, ◌==◌, leb, if◌then◌else◌, Option-cases, Option, none, some, List, [], ◌∷◌, ◌++◌,
  length, length-append, take-append, get_elem?, get_elem?-lt, get_elem?-some, get_elem?-here,
  get_elem?-before, replicate, ok, panic, ◌>>=◌,
}
use Prim.Native.Nat.{bit_and}
use ruta.Prelude.Bits.{doubled, doubled_pos}
use ruta.Runtime.Table.Key.{hash_bytes}
use ruta.Runtime.Heap.{Run, Heap, LuaStr, Object, str_object, push, string_of}
use ruta.Runtime.Heap.Strings.{as_bytes, bytes_at, grow_interned}
use ruta.Runtime.Heap.Probing.{Slots, Holds, distance}
use ruta.Runtime.Heap.Interned.{In, IsTable}
use ruta.Runtime.Heap.Growing.{
  used, used-replicate, nothing-Holds, length-replicate, nothing-IsTable, Readable,
  reinsert-Reinserted,
}

abbrev pub bytes_or_none : Run (List ℕ) → List ℕ
bytes_or_none (ok bytes) = bytes
bytes_or_none _ = []

-- The bytes of a handle's string.
abbrev pub key_of : Heap → ℕ → List ℕ
key_of h handle = bytes_or_none (bytes_at h handle)

-- The table counts its handles, is three quarters full at most, and holds every short string, each
-- where it is found; no two of them have the same bytes.
pub record IsHeap (h : Heap) : Type 0 where
  pub table : (h.interned ≡ []) ⊎ IsTable (key_of h) h.interned
  pub counted : h.interned_len ≡ used h.interned
  pub roomy : h.interned_len * 4 ≤ length h.interned * 3
  pub readable : Readable (key_of h) h h.interned
  pub complete :
      (handle : ℕ) (bytes : List ℕ)
      → bytes_at h handle ≡ ok bytes
      → length bytes ≤ 40
      → In (key_of h) h.interned handle

-- `as_bytes` of the string that an object should be.
abbrev read : Option Object → Run (List ℕ)
read object = string_of object >>= λ text. as_bytes text

abbrev pub made : List ℕ → LuaStr
made bytes = record { storage = bytes ++ (0 ∷ []); hash = hash_bytes bytes }

as_bytes-made : (bytes : List ℕ) → as_bytes (made bytes) ≡ ok bytes
as_bytes-made bytes =
    let size : length (bytes ++ (0 ∷ [])) ≡ length bytes + 1 = length-append bytes (0 ∷ []) in
    let some_bytes : (length (bytes ++ (0 ∷ [])) == 0) ≡ false = ground (arith, size) in
    let less : length (bytes ++ (0 ∷ [])) - 1 ≡ length bytes = omega (arith, size) in
    rw (some_bytes, less, take-append bytes (0 ∷ [])) refl

abbrev pub pushed : Heap → List ℕ → Heap
pushed h bytes = (push h (str_object (made bytes))).1

-- A push moves no object.
pub bytes_at-push :
    (h : Heap) (bytes held : List ℕ) (handle : ℕ)
    → bytes_at h handle ≡ ok held
    → bytes_at (pushed h bytes) handle ≡ ok held
bytes_at-push h bytes held handle e = elim (Option-cases (get_elem? h.objects handle)) [
  | inl gone ↦ let f : panic ≡ ok held = sym (ap (λ o. read o) gone) ∙ e in absurd cc
  | inr (object, there) ↦
      let still = get_elem?-before h.objects (str_object (made bytes) ∷ []) handle object there in
      ap (λ o. read o) still ∙ (sym (ap (λ o. read o) there) ∙ e)
]

pub bytes_at-new :
    (h : Heap) (bytes : List ℕ) → bytes_at (pushed h bytes) (length h.objects) ≡ ok bytes
bytes_at-new h bytes =
    rw (get_elem?-here h.objects [] (str_object (made bytes))) (as_bytes-made bytes)

-- What can be read after a push could be read before, or is new.
pub bytes_at-pushed :
    (h : Heap) (bytes held : List ℕ) (handle : ℕ)
    → bytes_at (pushed h bytes) handle ≡ ok held
    → (handle ≡ length h.objects) ⊎ (bytes_at h handle ≡ ok held)
bytes_at-pushed h bytes held handle e =
    let objects = h.objects ++ (str_object (made bytes) ∷ []) in
    let size : length objects ≡ length h.objects + 1 =
      length-append h.objects (str_object (made bytes) ∷ []) in
    elim (Option-cases (get_elem? objects handle)) [
      | inl gone ↦ let f : panic ≡ ok held = sym (ap (λ o. read o) gone) ∙ e in absurd cc
      | inr (object, there) ↦
          let below : handle < length objects = get_elem?-some objects handle object there in
          elim (Bool-cases (handle == length h.objects)) [
            | inl t ↦ inl (ground (arith, t))
            | inr t ↦
                let (old, kept) = get_elem?-lt h.objects handle (ground (arith, t, below, size)) in
                let still =
                  get_elem?-before h.objects (str_object (made bytes) ∷ []) handle old kept in
                inr (ap (λ o. read o) kept ∙ (sym (ap (λ o. read o) still) ∙ e))
          ]
    ]

-- The same table by another function that gives its handles the same bytes.
pub IsTable-agree :
    (key other : ℕ → List ℕ) (slots : Slots)
    → ((i handle : ℕ) → Holds slots i handle → key handle ≡ other handle)
    → IsTable key slots
    → IsTable other slots
IsTable-agree key other slots same t = record {
  power = t.power;
  sized = t.sized;
  reached = λ i handle e h m.
      subst
        (λ w.
          distance (length slots) (bit_and (hash_bytes w) (length slots - 1)) i
          < distance (length slots) (bit_and (hash_bytes w) (length slots - 1)) e)
        (same i handle h) (t.reached i handle e h m);
  distinct = λ i j first second g h e.
      t.distinct i j first second g h (same i first g ∙ (e ∙ sym (same j second h)));
}

-- What makes room for one more handle leaves.
pub record Roomy (key : ℕ → List ℕ) (len : ℕ) (slots after : Slots) : Type 0 where
  pub is_table : IsTable key after
  pub counted : used after ≡ used slots
  pub room : (len + 1) * 4 ≤ length after * 3
  pub keeps : (handle : ℕ) → In key slots handle → In key after handle
  pub adds : (handle : ℕ) → In key after handle → In key slots handle

abbrev pub TableIfAny : (ℕ → List ℕ) → Slots → Type 0
TableIfAny key slots = (slots ≡ []) ⊎ IsTable key slots

abbrev buckets : Slots → ℕ
buckets slots = if length slots == 0 then 16 else length slots * 2

-- The new table has room.
buckets-room :
    (key : ℕ → List ℕ) (slots : Slots) (len : ℕ)
    → TableIfAny key slots
    → len ≡ used slots
    → len * 4 ≤ length slots * 3
    → (k : ℕ) × (buckets slots ≡ doubled k)
      × (used slots < buckets slots)
      × ((len + 1) * 4 ≤ buckets slots * 3)
buckets-room key slots len (inl e) counted roomy =
    let size : length slots ≡ 0 = ap (λ (s : Slots). length s) e in
    let many : buckets slots ≡ 16 = ground (arith, size) in
    (4, many, omega (arith, many, counted, roomy, size), omega (arith, many, roomy, size))
buckets-room key slots len (inr t) counted roomy =
    let size : 1 ≤ length slots = omega (arith, t.sized, doubled_pos t.power) in
    let many : buckets slots ≡ length slots * 2 = ground (arith, size) in
    (
      suc t.power,
      omega (arith, many, t.sized),
      omega (arith, many, counted, roomy, size),
      omega (arith, many, roomy, size),
    )

TableIfAny-distinct :
    (key : ℕ → List ℕ) (slots : Slots)
    → TableIfAny key slots
    → (i j first second : ℕ) → Holds slots i first
    → Holds slots j second
    → key first ≡ key second
    → i ≡ j
TableIfAny-distinct key slots (inr t) i j first second g h same =
    t.distinct i j first second g h same
TableIfAny-distinct key slots (inl e) i j first second g h same =
    let gone : none ≡ some (some first) = ap (λ (s : Slots). get_elem? s i) (sym e) ∙ g in absurd cc

-- `grow_interned`, and the test before it.
pub make_room :
    (h : Heap)
    → TableIfAny (key_of h) h.interned
    → h.interned_len ≡ used h.interned
    → h.interned_len * 4 ≤ length h.interned * 3
    → Readable (key_of h) h h.interned
    → (after : Slots) × ((if leb (length h.interned * 3) ((h.interned_len + 1) * 4)
          then grow_interned h
          else ok h)
        ≡ ok (record h { interned = after }))
      × Roomy (key_of h) h.interned_len h.interned after
unfolding grow_interned
make_room h table counted roomy readable =
    elim (Bool-cases (leb (length h.interned * 3) ((h.interned_len + 1) * 4))) [
      | inr t ↦ (
        h.interned,
        rw t refl,
        record {
          is_table = elim table [
            | inr is ↦ is
            | inl e ↦
                let size : length h.interned ≡ 0 = ap (λ (s : Slots). length s) e in
                let f : ⊥ = ground (arith, t, size) in absurd f
          ];
          counted = refl;
          room = ground (arith, t);
          keeps = λ handle i. i;
          adds = λ handle i. i;
        },
      )
      | inl t ↦
          let (k, size, fits, room) =
            buckets-room (key_of h) h.interned h.interned_len table counted roomy in
          let fresh : Slots = replicate (buckets h.interned) none in
          let unused : used fresh ≡ 0 = used-replicate (buckets h.interned) in
          let long : length fresh ≡ buckets h.interned = length-replicate (buckets h.interned) in
          let (after, run, p) =
            reinsert-Reinserted (key_of h) h h.interned fresh
              (nothing-IsTable (key_of h) k (buckets h.interned) size) readable
              (TableIfAny-distinct (key_of h) h.interned table)
              (λ i j first second g m. absurd (nothing-Holds (buckets h.interned) j second m))
              (omega (arith, unused, long, fits)) in
          (
            after,
            rw (t, grow_interned, run) refl,
            record {
              is_table = p.is_table;
              counted = omega (arith, p.counted, unused);
              room = omega (arith, p.as_long, long, room);
              keeps = λ handle i. p.keeps handle (inr i);
              adds = λ handle i. elim (p.adds handle i) [
                | inr g ↦ g
                | inl (j, g) ↦ absurd (nothing-Holds (buckets h.interned) j handle g)
              ];
            },
          )
    ]
