-- ===== src/Runtime/Heap/Finding.antt =====
-- Looking up a short string in its table: crates/ruta-runtime/src/heap/string.rs.
use Prim.Native.Nat.{bit_and}
use ruta.Prelude.{
  ℕ, zero, suc, ◌-◌, ◌<◌, ◌≡◌, ◌≢◌, inl, inr, refl, sym, ap, subst, ◌∙◌, arith, true, false,
  Bool-cases, ◌==◌, same_bytes, same_bytes_iff, Option, none, some, List, length, get_elem?,
  get_elem?-some, ok,
}
use ruta.Prelude.Bits.{bit_and-lt}
use ruta.Runtime.Table.Key.{hash_bytes}
use ruta.Runtime.Heap.{Heap}
use ruta.Runtime.Heap.Strings.{bytes_at, probe, find_interned}
use ruta.Runtime.Heap.Probing.{
  Slots, Holds, Empty, Power, apart, distance, distance_self, distance-lt, next, next-lt, closer,
  Slot-cases,
}
use ruta.Runtime.Heap.Interned.{In, IsTable}
use ruta.Runtime.Heap.Growing.{Readable}

module _ (key : ℕ → List ℕ) where
  -- A handle that the search from a slot reaches before an unused slot.
  abbrev Ahead : Slots → ℕ → List ℕ → ℕ → ℕ → Type 0
  Ahead slots from bytes i handle =
      Holds slots i handle
      × (key handle ≡ bytes)
      × ((e : ℕ) → Empty slots e → distance (length slots) from i < distance (length slots) from e)

  abbrev Answer : Slots → ℕ → List ℕ → Option ℕ → Type 0
  Answer slots from bytes (some handle) = In key slots handle × (key handle ≡ bytes)
  Answer slots from bytes none = (i handle : ℕ) → Ahead slots from bytes i handle → ⊥

  -- Without a match here, what is ahead is ahead of the next slot.
  Ahead-next :
      (slots : Slots) (k from i handle other : ℕ) (bytes : List ℕ)
      → Power slots k
      → from < length slots
      → Holds slots from other
      → key other ≢ bytes
      → Ahead slots from bytes i handle
      → Ahead slots (next slots from) bytes i handle
  Ahead-next slots k from i handle other bytes p f here differs (h, same, reach) =
      let past : from ≢ i = λ e.
        let both : some (some other) ≡ some (some handle) =
          sym here ∙ (ap (λ n. get_elem? slots n) e ∙ h) in
        let one : other ≡ handle = cc in differs (ap key one ∙ same) in
      let to = closer slots k from i p f (get_elem?-some slots i (some handle) h) past in
      (
        h,
        same,
        λ e m.
            let on =
              closer slots k from e p f (get_elem?-some slots e none m)
                (apart slots from e other here m) in
            omega (arith, reach e m, to, on),
      )

  Answer-next :
      (slots : Slots) (k from other : ℕ) (bytes : List ℕ) (found : Option ℕ)
      → Power slots k
      → from < length slots
      → Holds slots from other
      → key other ≢ bytes
      → Answer slots (next slots from) bytes found
      → Answer slots from bytes found
  Answer-next slots k from other bytes (some handle) p f here differs answer = answer
  Answer-next slots k from other bytes none p f here differs answer = λ i handle a.
      answer i handle (Ahead-next slots k from i handle other bytes p f here differs a)

  -- One round of the search at a slot in use.
  probe-round :
      (fuel : ℕ) (h : Heap) (bytes : List ℕ) (from other : ℕ)
      → Holds h.interned from other
      → bytes_at h other ≡ ok (key other)
      → probe (suc fuel) h bytes from ≡ elim (same_bytes (key other) bytes) [
        | true ↦ ok (some other)
        | false ↦ probe fuel h bytes (next h.interned from)
      ]
  unfolding probe
  probe-round fuel h bytes from other here r = rw (here, probe, r) refl

  probe-Answer :
      (fuel : ℕ) (h : Heap) (bytes : List ℕ) (k from e : ℕ)
      → Readable key h h.interned
      → Power h.interned k
      → from < length h.interned
      → Empty h.interned e
      → distance (length h.interned) from e < fuel
      → (found : Option ℕ) × (probe fuel h bytes from ≡ ok found)
        × Answer h.interned from bytes found
  unfolding probe
  probe-Answer zero h bytes k from e r p f m d = absurd (omega arith)
  probe-Answer (suc fuel) h bytes k from e r p f m d =
      let slots = h.interned in
      elim (Slot-cases slots from f) [
        | inl here ↦ (
          none,
          rw (here, probe) refl,
          λ i handle (g, same, reach).
              omega (arith, reach from here, distance_self (length slots) from),
        )
        | inr (other, here) ↦ elim (Bool-cases (same_bytes (key other) bytes)) [
          | inl t ↦ (
            some other,
            probe-round fuel h bytes from other here (r from other here) ∙ rw t refl,
            ((from, here), (same_bytes_iff (key other) bytes).0 t),
          )
          | inr t ↦
              let differs : key other ≢ bytes = λ same.
                let yes : same_bytes (key other) bytes ≡ true =
                  (same_bytes_iff (key other) bytes).1 same in
                let g : false ≡ true = sym t ∙ yes in let f : ⊥ = cc in f in
              let (found, run, answer) =
                probe-Answer fuel h bytes k (next slots from) e r p (next-lt slots k from p) m (
                  omega (
                    arith,
                    d,
                    closer slots k from e p f (get_elem?-some slots e none m)
                        (apart slots from e other here m),
                  )) in
              (
                found,
                probe-round fuel h bytes from other here (r from other here) ∙ rw t run,
                Answer-next slots k from other bytes found p f here differs answer,
              )
        ]
      ]

  -- What a search in the whole table answers.
  abbrev pub Finds : Slots → List ℕ → Option ℕ → Type 0
  Finds slots bytes (some handle) = In key slots handle × (key handle ≡ bytes)
  Finds slots bytes none = (handle : ℕ) → In key slots handle → key handle ≡ bytes → ⊥

  Answer-Finds :
      (slots : Slots) (bytes : List ℕ) (found : Option ℕ)
      → IsTable key slots
      → Answer slots (bit_and (hash_bytes bytes) (length slots - 1)) bytes found
      → Finds slots bytes found
  Answer-Finds slots bytes (some handle) t answer = answer
  Answer-Finds slots bytes none t answer = λ handle (i, g) same. answer i handle (
    g,
    same,
    λ e m.
        subst
          (λ w.
            distance (length slots) (bit_and (hash_bytes w) (length slots - 1)) i
            < distance (length slots) (bit_and (hash_bytes w) (length slots - 1)) e)
          same (t.reached i handle e g m),
  )

  pub find_interned-Finds :
      (h : Heap) (bytes : List ℕ) (e : ℕ)
      → IsTable key h.interned
      → Readable key h h.interned
      → Empty h.interned e
      → (found : Option ℕ) × (find_interned h bytes (hash_bytes bytes) ≡ ok found)
        × Finds h.interned bytes found
  unfolding find_interned
  find_interned-Finds h bytes e t r m =
      let slots = h.interned in
      let from = bit_and (hash_bytes bytes) (length slots - 1) in
      let room : e < length slots = get_elem?-some slots e none m in
      let some_slots : (length slots == 0) ≡ false = ground (arith, room) in
      let start : from < length slots = omega (
        arith,
        ap (λ n. bit_and (hash_bytes bytes) (n - 1)) t.sized,
        bit_and-lt t.power (hash_bytes bytes),
        t.sized,
      ) in
      let (found, run, answer) =
        probe-Answer (length slots) h bytes t.power from e r t.sized start m
          (distance-lt (length slots) from e start room) in
      (found, rw (some_slots, find_interned) run, Answer-Finds slots bytes found t answer)
