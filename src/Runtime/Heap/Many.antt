-- ===== src/Runtime/Heap/Many.antt =====
-- Strings made one after another: crates/ruta-runtime/src/heap/string.rs.
use ruta.Prelude.{
  ℕ, zero, suc, ◌+◌, ◌^◌, ◌≤◌, ◌<◌, ◌≡◌, ◌↔◌, inl, inr, refl, sym, ap, ◌∙◌, arith, Option-cases,
  some, List, [], ◌∷◌, length, get_elem?, ok, panic, ◌>>=◌,
}
use ruta.Runtime.Heap.{Run, Heap, Object, empty, string_of}
use ruta.Runtime.Heap.Strings.{as_bytes, bytes_at, new_string}
use ruta.Runtime.Heap.Room.{IsHeap}
use ruta.Runtime.Heap.Canonical.{Makes, new_string-Makes, IsHeap-same}

-- Calls of `new_string`, and the handles that they answer.
unfoldable pub new_strings : Heap → List (List ℕ) → Run (List ℕ × Heap)
unfolding new_string
new_strings h [] = ok ([], h)
new_strings h (text ∷ texts) = do
  (handle, first) ← new_string h text
  (handles, after) ← new_strings first texts
  ok (handle ∷ handles, after)

pub empty-IsHeap : IsHeap empty
empty-IsHeap = record {
  table = inl refl;
  counted = refl;
  roomy = omega arith;
  readable = λ i handle g. absurd cc;
  complete = λ handle bytes e short. absurd cc;
}

-- Every handle reads as its text.
record MakesAll (h : Heap) (texts : List (List ℕ)) (r : List ℕ × Heap) : Type 0 where
  pub is_heap : IsHeap r.1
  pub reads :
      (i : ℕ) (text : List ℕ)
      → get_elem? texts i ≡ some text
      → (handle : ℕ) × (get_elem? r.0 i ≡ some handle) × (bytes_at r.1 handle ≡ ok text)
  pub keeps :
      (i : ℕ) (object : Object)
      → get_elem? h.objects i ≡ some object
      → get_elem? r.1.objects i ≡ some object

-- A string is where it was.
pub bytes_at-keeps :
    (h after : Heap) (handle : ℕ) (bytes : List ℕ)
    → ((i : ℕ) (object : Object)
        → get_elem? h.objects i ≡ some object
        → get_elem? after.objects i ≡ some object)
    → bytes_at h handle ≡ ok bytes
    → bytes_at after handle ≡ ok bytes
bytes_at-keeps h after handle bytes keeps e = elim (Option-cases (get_elem? h.objects handle)) [
  | inl gone ↦
      let f : panic ≡ ok bytes = sym (ap (λ o. string_of o >>= λ text. as_bytes text) gone) ∙ e in
      absurd cc
  | inr (object, there) ↦
      ap (λ o. string_of o >>= λ text. as_bytes text) (keeps handle object there)
      ∙ (sym (ap (λ o. string_of o >>= λ text. as_bytes text) there) ∙ e)
]

reads-cons :
    (h : Heap) (text : List ℕ) (texts : List (List ℕ)) (first : ℕ × Heap) (rest : List ℕ × Heap)
    → Makes h text first
    → MakesAll first.1 texts rest
    → (i : ℕ) (found : List ℕ) → get_elem? (text ∷ texts) i ≡ some found
    → (handle : ℕ) × (get_elem? (first.0 ∷ rest.0) i ≡ some handle)
      × (bytes_at rest.1 handle ≡ ok found)
reads-cons h text texts first rest p q zero found e =
    let same : text ≡ found = cc in
    (
      first.0,
      refl,
      bytes_at-keeps first.1 rest.1 first.0 text q.keeps p.reads ∙ ap (λ (b : List ℕ). ok b) same,
    )
reads-cons h text texts first rest p q (suc i) found e = q.reads i found e

new_strings-MakesAll :
    (h : Heap) (texts : List (List ℕ))
    → IsHeap h
    → length h.objects + length texts < 2 ^ 32
    → (r : List ℕ × Heap) × (new_strings h texts ≡ ok r) × MakesAll h texts r
unfolding new_strings
new_strings-MakesAll h [] t fits =
    (([], h), refl, record { is_heap = t; reads = λ i text e. absurd cc; keeps = λ i object e. e })
new_strings-MakesAll h (text ∷ texts) t fits =
    let (first, run, p) = new_string-Makes h text t (omega arith) in
    let (rest, ran, q) = new_strings-MakesAll first.1 texts p.is_heap (omega (arith, p.grows)) in
    (
      (first.0 ∷ rest.0, rest.1),
      rw (run, ran) refl,
      record {
        is_heap = q.is_heap;
        reads = λ i found e. reads-cons h text texts first rest p q i found e;
        keeps = λ i object e. q.keeps i object (p.keeps i object e);
      },
    )

abbrev bytes_of : Run (List ℕ) → List ℕ
bytes_of (ok bytes) = bytes
bytes_of _ = []

-- Of fewer than 2^32 strings made from the empty heap on, a short one and any other have the same
-- handle just when they have the same bytes, and each handle reads as its bytes at the end.
pub new_strings-handles :
    (texts : List (List ℕ)) (i j : ℕ) (first second : List ℕ)
    → length texts < 2 ^ 32
    → get_elem? texts i ≡ some first
    → get_elem? texts j ≡ some second
    → length first ≤ 40
    → (r : List ℕ × Heap) × (a b : ℕ) × (new_strings empty texts ≡ ok r)
      × (get_elem? r.0 i ≡ some a)
      × (get_elem? r.0 j ≡ some b)
      × (bytes_at r.1 a ≡ ok first)
      × (bytes_at r.1 b ≡ ok second)
      × ((a ≡ b) ↔ (first ≡ second))
new_strings-handles texts i j first second fits one two short =
    let (r, run, p) = new_strings-MakesAll empty texts empty-IsHeap (omega (arith, fits)) in
    let (a, there, reads) = p.reads i first one in
    let (b, here, also) = p.reads j second two in
    (
      r,
      a,
      b,
      run,
      there,
      here,
      reads,
      also,
      (
        λ same. ap (λ o. bytes_of o) (sym reads ∙ (ap (λ n. bytes_at r.1 n) same ∙ also)),
        λ same.
            IsHeap-same r.1 a b first p.is_heap reads (also ∙ ap (λ (l : List ℕ). ok l) (sym same))
              short,
      ),
    )
