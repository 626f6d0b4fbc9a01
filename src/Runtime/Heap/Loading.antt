-- ===== src/Runtime/Heap/Loading.antt =====
-- When a chunk is loaded, and growing the heap: crates/ruta-runtime/src/heap/proto.rs.
use ruta.Prelude.{
  ℕ, ◌+◌, ◌≡◌, ltb, inl, inr, sym, ap, ◌∙◌, arith, Bool-cases, Option, Option-cases, none, some,
  List, [], ◌∷◌, ◌++◌, length, length-append, get_elem?, get_elem?-lt, get_elem?-some,
  get_elem?-here, get_elem?-before, ok, panic, ◌>>=◌,
}
use ruta.Bytecode.Prototype as Code
use ruta.Bytecode.Prototype.{Constant, Body, Prototype, Prototypes, prototype, no_children, child}
use ruta.Runtime.Value.{Value, int, float, str}
use ruta.Runtime.Heap.{Run, Heap, Object, Proto, proto, proto_of, string_of, LuaStr}
use ruta.Runtime.Heap.Strings.{as_bytes, bytes_at}
use ruta.Runtime.Heap.Room.{IsHeap, key_of, bytes_or_none, IsTable-agree}
use ruta.Runtime.Heap.Many.{bytes_at-keeps}

-- The value is the constant's, a string by its bytes.
abbrev pub Resolves : Heap → Constant → Value → Type 0
Resolves h (Code.int number) value = value ≡ int number
Resolves h (Code.float number) value = value ≡ float number
Resolves h (Code.str bytes) value =
    (handle : ℕ) × (value ≡ str handle) × (bytes_at h handle ≡ ok bytes)

abbrev pub ResolvesAll : Heap → List Constant → List Value → Type 0
ResolvesAll h [] [] = Unit
ResolvesAll h [] (value ∷ values) = ⊥
ResolvesAll h (constant ∷ constants) [] = ⊥
ResolvesAll h (constant ∷ constants) (value ∷ values) =
    Resolves h constant value × ResolvesAll h constants values

-- The object at the handle is the prototype's: its body, its constants as values, its children each
-- at a handle of their own, and the source.
unfoldable mutual
  pub Loads : Heap → Prototype → ℕ → ℕ → Type 0
  Loads h (prototype body source_name constants children) source handle =
      (values : List Value) × (handles : List ℕ) × (proto h handle
        ≡ ok (record { body = body; constants = values; children = handles; source = source }))
      × ResolvesAll h constants values
      × LoadsAll h children source handles

  pub LoadsAll : Heap → Prototypes → ℕ → List ℕ → Type 0
  LoadsAll h no_children source [] = Unit
  LoadsAll h no_children source (handle ∷ handles) = ⊥
  LoadsAll h (child first rest) source [] = ⊥
  LoadsAll h (child first rest) source (handle ∷ handles) =
      Loads h first source handle × LoadsAll h rest source handles

-- The objects that loading adds at most.
unfoldable mutual
  pub objects_in : Prototype → ℕ
  objects_in (prototype body source_name constants children) =
      1 + length constants + objects_in_all children

  pub objects_in_all : Prototypes → ℕ
  objects_in_all no_children = 0
  objects_in_all (child first rest) = objects_in first + objects_in_all rest

abbrev pub Keeps : Heap → Heap → Type 0
Keeps h after =
    (i : ℕ) (object : Object)
    → get_elem? h.objects i ≡ some object
    → get_elem? after.objects i ≡ some object

-- What was loaded stays loaded.
pub Resolves-Keeps :
    (h after : Heap) (constant : Constant) (value : Value)
    → Keeps h after
    → Resolves h constant value
    → Resolves after constant value
Resolves-Keeps h after (Code.int number) value k r = r
Resolves-Keeps h after (Code.float number) value k r = r
Resolves-Keeps h after (Code.str bytes) value k (handle, same, reads) =
    (handle, same, bytes_at-keeps h after handle bytes k reads)

pub ResolvesAll-Keeps :
    (h after : Heap) (constants : List Constant) (values : List Value)
    → Keeps h after
    → ResolvesAll h constants values
    → ResolvesAll after constants values
ResolvesAll-Keeps h after [] [] k r = tt
ResolvesAll-Keeps h after [] (value ∷ values) k r = r
ResolvesAll-Keeps h after (constant ∷ constants) [] k r = r
ResolvesAll-Keeps h after (constant ∷ constants) (value ∷ values) k (r, rs) =
    (Resolves-Keeps h after constant value k r, ResolvesAll-Keeps h after constants values k rs)

proto-Keeps :
    (h after : Heap) (handle : ℕ) (body : Proto)
    → Keeps h after
    → proto h handle ≡ ok body
    → proto after handle ≡ ok body
proto-Keeps h after handle body k e = elim (Option-cases (get_elem? h.objects handle)) [
  | inl gone ↦ let f : panic ≡ ok body = sym (ap (λ o. proto_of o) gone) ∙ e in absurd cc
  | inr (object, there) ↦
      ap (λ o. proto_of o) (k handle object there) ∙ (sym (ap (λ o. proto_of o) there) ∙ e)
]

mutual
  unfolding Loads LoadsAll

  pub Loads-Keeps :
      (h after : Heap) (p : Prototype) (source handle : ℕ)
      → Keeps h after
      → Loads h p source handle
      → Loads after p source handle
  Loads-Keeps h after (prototype body source_name constants children) source handle k
        (values, handles, there, rs, ls) =
      (
        values,
        handles,
        proto-Keeps h after handle
            (record { body = body; constants = values; children = handles; source = source }) k
            there,
        ResolvesAll-Keeps h after constants values k rs,
        LoadsAll-Keeps h after children source handles k ls,
      )

  pub LoadsAll-Keeps :
      (h after : Heap) (ps : Prototypes) (source : ℕ) (handles : List ℕ)
      → Keeps h after
      → LoadsAll h ps source handles
      → LoadsAll after ps source handles
  LoadsAll-Keeps h after no_children source [] k l = tt
  LoadsAll-Keeps h after no_children source (handle ∷ handles) k l = l
  LoadsAll-Keeps h after (child first rest) source [] k l = l
  LoadsAll-Keeps h after (child first rest) source (handle ∷ handles) k (l, ls) =
      (Loads-Keeps h after first source handle k l, LoadsAll-Keeps h after rest source handles k ls)

-- An object that is no string changes no string.
module _ (h : Heap) (object : Object) (silent : string_of (some object) ≡ panic) where
  abbrev pub grown : Heap
  grown = record h { objects = h.objects ++ (object ∷ []) }

  abbrev read : Option Object → Run (List ℕ)
  read o = string_of o >>= λ text. as_bytes text

  grown-bytes_at : (n : ℕ) → bytes_at grown n ≡ bytes_at h n
  grown-bytes_at n = elim (Option-cases (get_elem? h.objects n)) [
    | inr (old, there) ↦
        ap (λ o. read o) (get_elem?-before h.objects (object ∷ []) n old there)
        ∙ sym (ap (λ o. read o) there)
    | inl gone ↦ elim (Option-cases (get_elem? (h.objects ++ (object ∷ [])) n)) [
      | inl also ↦ ap (λ o. read o) also ∙ sym (ap (λ o. read o) gone)
      | inr (found, there) ↦
          let last : n ≡ length h.objects = last_index n found gone there in
          ap (λ i. bytes_at grown i) last
          ∙ (ap (λ o. read o) (get_elem?-here h.objects [] object)
              ∙ (ap (λ (r : Run LuaStr). r >>= λ text. as_bytes text) silent
                  ∙ sym (ap (λ o. read o) gone)))
    ]
  ]
    where
      last_index :
          (n : ℕ) (found : Object)
          → get_elem? h.objects n ≡ none
          → get_elem? (h.objects ++ (object ∷ [])) n ≡ some found
          → n ≡ length h.objects
      last_index n found gone there =
          let size = length-append h.objects (object ∷ []) in
          let below = get_elem?-some (h.objects ++ (object ∷ [])) n found there in
          elim (Bool-cases (ltb n (length h.objects))) [
            | inl t ↦ let (old, is) = get_elem?-lt h.objects n (ground (arith, t)) in absurd cc
            | inr t ↦ ground (arith, t, size, below)
          ]

  pub grown-IsHeap : IsHeap h → IsHeap grown
  grown-IsHeap t = record {
    table = elim t.table [
      | inl e ↦ inl e
      | inr is ↦ inr (
          IsTable-agree (key_of h) (key_of grown) h.interned (λ i handle g. sym (same_key handle))
            is)
    ];
    counted = t.counted;
    roomy = t.roomy;
    readable = λ i handle g.
        grown-bytes_at handle ∙ (t.readable i handle g ∙ ap (λ b. ok b) (sym (same_key handle)));
    complete =
        λ handle bytes e short. t.complete handle bytes (sym (grown-bytes_at handle) ∙ e) short;
  }
    where
      same_key : (n : ℕ) → key_of grown n ≡ key_of h n
      same_key n = ap (λ r. bytes_or_none r) (grown-bytes_at n)
