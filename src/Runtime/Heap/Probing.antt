-- ===== src/Runtime/Heap/Probing.antt =====
-- Linear probing in a table with a power of two of slots: crates/ruta-runtime/src/heap/string.rs.
use Prim.Native.Nat.{bit_and}
use ruta.Prelude.Bits.{doubled, bit_and-mask, bit_and-wrap, bit_and-lt}
use ruta.Prelude.{
  ℕ, zero, suc, ◌+◌, ◌-◌, ◌≤◌, ◌<◌, ◌≡◌, ◌≢◌, ◌⊎◌, inl, inr, refl, sym, ap, ◌∙◌, arith, ltb, leb,
  Bool-cases, Option-cases, if◌then◌else◌, Option, none, some, List, length, get_elem?,
  get_elem?-lt, get_elem?-some, ok,
}
use ruta.Runtime.Heap.Strings.{unused_from}

abbrev pub Slots : Type 0
Slots = List (Option ℕ)

abbrev pub Holds : Slots → ℕ → ℕ → Type 0
Holds slots i handle = get_elem? slots i ≡ some (some handle)

abbrev pub Empty : Slots → ℕ → Type 0
Empty slots i = get_elem? slots i ≡ some none

-- How far a slot is from another, going up and around.
abbrev pub distance : ℕ → ℕ → ℕ → ℕ
distance n from to = if leb from to then to - from else n - from + to

pub distance_self : (n i : ℕ) → distance n i i ≡ 0
distance_self n i = ground arith

pub distance-lt : (n from to : ℕ) → from < n → to < n → distance n from to < n
distance-lt n from to f t = ground arith

pub distance-same :
    (n from i j : ℕ) → from < n → i < n → j < n → distance n from i ≡ distance n from j → i ≡ j
distance-same n from i j f a b h = ground (arith, h)

-- The next slot, as the mask makes it.
next-cases :
    (k i : ℕ)
    → i < doubled k
    → ((suc i < doubled k) × (bit_and (i + 1) (doubled k - 1) ≡ i + 1))
      ⊎ ((suc i ≡ doubled k) × (bit_and (i + 1) (doubled k - 1) ≡ 0))
next-cases k i h = elim (Bool-cases (ltb (suc i) (doubled k))) [
  | inl t ↦ inl (ground (arith, t), bit_and-mask k (i + 1) (ground (arith, t)))
  | inr t ↦
      let last : i + 1 ≡ doubled k = ground (arith, h, t) in
      inr (omega (arith, last), ap (λ n. bit_and n (doubled k - 1)) last ∙ bit_and-wrap k)
]

step_up : (n i to : ℕ) → suc i < n → to < n → i ≢ to → suc (distance n (i + 1) to) ≡ distance n i to
step_up n i to small t d = ground arith

step_around : (n i to : ℕ) → suc i ≡ n → to < n → i ≢ to → suc (distance n 0 to) ≡ distance n i to
step_around n i to last t d = ground arith

pub distance-next :
    (k i to : ℕ)
    → i < doubled k
    → to < doubled k
    → i ≢ to
    → suc (distance (doubled k) (bit_and (i + 1) (doubled k - 1)) to) ≡ distance (doubled k) i to
distance-next k i to h t d = elim (next-cases k i h) [
  | inl (small, e) ↦ rw e (step_up (doubled k) i to small t d)
  | inr (last, e) ↦ rw e (step_around (doubled k) i to last t d)
]

-- The slot that a search from `from` ends at: no unused one is closer.
abbrev pub First : Slots → ℕ → ℕ → Type 0
First slots from i =
    Empty slots i
    × ((e : ℕ) → Empty slots e → distance (length slots) from i ≤ distance (length slots) from e)

abbrev pub Power : Slots → ℕ → Type 0
Power slots k = length slots ≡ doubled k

abbrev pub next : Slots → ℕ → ℕ
next slots i = bit_and (i + 1) (length slots - 1)

pub next-lt : (slots : Slots) (k i : ℕ) → Power slots k → next slots i < length slots
next-lt slots k i p =
    let e : next slots i ≡ bit_and (i + 1) (doubled k - 1) = ap (λ n. bit_and (i + 1) (n - 1)) p in
    omega (arith, e, p, bit_and-lt k (i + 1))

-- A search that goes on is one slot closer to every other slot.
pub closer :
    (slots : Slots) (k i to : ℕ)
    → Power slots k
    → i < length slots
    → to < length slots
    → i ≢ to
    → suc (distance (length slots) (next slots i) to) ≡ distance (length slots) i to
closer slots k i to p h t d =
    let moved = distance-next k i to (omega (arith, p)) (omega (arith, p)) d in
    ap (λ n. suc (distance n (bit_and (i + 1) (n - 1)) to)) p
    ∙ (moved ∙ ap (λ n. distance n i to) (sym p))

-- A slot in use is not an unused one.
pub apart : (slots : Slots) (i e handle : ℕ) → Holds slots i handle → Empty slots e → i ≢ e
apart slots i e handle h m same =
    let both : some (some handle) ≡ some none = sym h ∙ (ap (λ n. get_elem? slots n) same ∙ m) in
    let f : ⊥ = cc in f

pub Slot-cases :
    (slots : Slots) (i : ℕ)
    → i < length slots
    → Empty slots i ⊎ ((handle : ℕ) × Holds slots i handle)
Slot-cases slots i h =
    let (slot, e) = get_elem?-lt slots i h in
    elim (Option-cases slot) [
      | inl t ↦ inl (e ∙ ap (λ o. some o) t)
      | inr (handle, t) ↦ inr (handle, e ∙ ap (λ o. some o) t)
    ]

pub unused_from-First :
    (fuel : ℕ) (slots : Slots) (k from e : ℕ)
    → Power slots k
    → from < length slots
    → Empty slots e
    → distance (length slots) from e < fuel
    → (i : ℕ) × (unused_from fuel slots from ≡ ok i) × First slots from i
unfolding unused_from
unused_from-First zero slots k from e p f m d = absurd (omega arith)
unused_from-First (suc fuel) slots k from e p f m d = elim (Slot-cases slots from f) [
  | inl here ↦ (
    from,
    rw (here, unused_from) refl,
    (here, λ e' m'. omega (arith, distance_self (length slots) from)),
  )
  | inr (handle, here) ↦
      let (i, run, (unused, least)) =
        unused_from-First fuel slots k (next slots from) e p (next-lt slots k from p) m (
          omega (
            arith,
            closer slots k from e p f (get_elem?-some slots e none m)
                (apart slots from e handle here m),
          )) in
      let on = λ (j : ℕ) (u : Empty slots j).
        closer slots k from j p f (get_elem?-some slots j none u)
          (apart slots from j handle here u) in
      (
        i,
        rw (here, unused_from) run,
        (unused, λ e' m'. omega (arith, least e' m', on i unused, on e' m')),
      )
]
