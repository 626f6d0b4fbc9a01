-- ===== src/Runtime/Stack/Windows.antt =====
-- What the operations on a window of the value stack leave in each slot: crates/ruta-runtime/src/stack/values.rs.
use ruta.Prelude.{
  ℕ, zero, suc, ◌+◌, ◌-◌, ◌≤◌, ◌<◌, ◌≡◌, ◌≢◌, inl, inr, refl, sym, ap, ◌∙◌, arith, ◌==◌, ltb, leb,
  ◌&&◌, Bool, true, false, Bool-cases, if◌then◌else◌, some, List, [], ◌∷◌, ◌++◌, length, length-set,
  length-take, length-drop, get_elem?, get_elem?-lt, get_elem?-set, get_elem?-set_other, set, take,
  drop, ok,
}
use ruta.Runtime.Value.{Value}
use ruta.Runtime.Stack.{Stack, put, fill_from, fill, shift}

-- The slots from `from` on, so many of them.
abbrev pub inside : ℕ → ℕ → ℕ → Bool
inside from count i = leb from i && ltb i (from + count)

-- One slot written and the slots after it.
written :
    (values : List Value) (from count i : ℕ) (value old : Value)
    → get_elem? values from ≡ some old
    → (if inside (from + 1) count i then some value else get_elem? (set values from value) i)
      ≡ (if inside from (suc count) i then some value else get_elem? values i)
written values from count i value old there = elim (Bool-cases (from == i)) [
  | inl t ↦
      let same : from ≡ i = ground (arith, t) in
      let past : inside (from + 1) count i ≡ false = ground (arith, same) in
      let here : inside from (suc count) i ≡ true = ground (arith, same) in
      rw (past, here)
        (ap (λ n. get_elem? (set values from value) n) (sym same)
          ∙ get_elem?-set values from old value there)
  | inr t ↦
      let other : from ≢ i = ground (arith, t) in
      let alike : inside (from + 1) count i ≡ inside from (suc count) i = ground (arith, other) in
      rw (alike, get_elem?-set_other values from i value other) refl
]

fill_from-slots :
    (count : ℕ) (s : Stack) (from : ℕ) (value : Value) (i : ℕ)
    → from + count ≤ length s.values
    → (after : Stack) × (fill_from count s from value ≡ ok after)
      × (length after.values ≡ length s.values)
      × (after.frames ≡ s.frames)
      × (get_elem? after.values i
          ≡ (if inside from count i then some value else get_elem? s.values i))
unfolding fill_from put
fill_from-slots zero s from value i h =
    let out : inside from 0 i ≡ false = ground arith in (s, refl, refl, refl, rw out refl)
fill_from-slots (suc count) s from value i h =
    let room : ltb from (length s.values) ≡ true = ground (arith, h) in
    let next = record s { values = set s.values from value } in
    let size = length-set s.values from value in
    let (old, there) = get_elem?-lt s.values from (omega (arith, h)) in
    let (after, run, long, frames, slot) =
      fill_from-slots count next (from + 1) value i (omega (arith, size, h)) in
    (after, rw room run, long ∙ size, frames, slot ∙ written s.values from count i value old there)

-- `fill` answers where its end is in the stack, and leaves the value in the slots of its range, every
-- other slot, the height and the frames as they were.
pub fill-slots :
    (s : Stack) (from to : ℕ) (value : Value) (i : ℕ)
    → from ≤ to
    → to ≤ length s.values
    → (after : Stack) × (fill s from to value ≡ ok after)
      × (length after.values ≡ length s.values)
      × (after.frames ≡ s.frames)
      × (get_elem? after.values i
          ≡ (if inside from (to - from) i then some value else get_elem? s.values i))
unfolding fill
fill-slots s from to value i h g = fill_from-slots (to - from) s from value i (omega arith)

-- Reading what stands after a prefix, and in one.
get_elem?-append :
    (xs ys : List Value) (i : ℕ)
    → get_elem? (xs ++ ys) i
      ≡ (if ltb i (length xs) then get_elem? xs i else get_elem? ys (i - length xs))
get_elem?-append [] ys i =
    let zero_first : i - 0 ≡ i = omega arith in
    let none_before : ltb i 0 ≡ false = ground arith in
    rw none_before (ap (λ n. get_elem? ys n) (sym zero_first))
get_elem?-append (x ∷ xs) ys zero = rw (here xs) refl
  where
    here : (xs : List Value) → ltb 0 (suc (length xs)) ≡ true
    here xs = ground arith
get_elem?-append (x ∷ xs) ys (suc i) =
    let alike : ltb (suc i) (suc (length xs)) ≡ ltb i (length xs) = ground arith in
    let shorter : suc i - suc (length xs) ≡ i - length xs = omega arith in
    rw (alike, shorter) (get_elem?-append xs ys i)

get_elem?-drop : (n : ℕ) (xs : List Value) (i : ℕ) → get_elem? (drop n xs) i ≡ get_elem? xs (n + i)
get_elem?-drop zero xs i = let e : i ≡ 0 + i = omega arith in ap (λ n. get_elem? xs n) e
get_elem?-drop (suc n) [] i = refl
get_elem?-drop (suc n) (x ∷ xs) i =
    let e : suc (n + i) ≡ suc n + i = omega arith in
    get_elem?-drop n xs i ∙ ap (λ m. get_elem? (x ∷ xs) m) e

get_elem?-take :
    (n : ℕ) (xs : List Value) (i : ℕ) → i < n → get_elem? (take n xs) i ≡ get_elem? xs i
get_elem?-take zero xs i h = absurd (omega arith)
get_elem?-take (suc n) [] i h = refl
get_elem?-take (suc n) (x ∷ xs) zero h = refl
get_elem?-take (suc n) (x ∷ xs) (suc i) h = get_elem?-take n xs i (omega arith)

pub moved :
    (values : List Value) (from to count i : ℕ)
    → from + count ≤ length values
    → to + count ≤ length values
    → get_elem? (take to values ++ (take count (drop from values) ++ drop (to + count) values)) i
      ≡ (if inside to count i then get_elem? values (from + (i - to)) else get_elem? values i)
moved values from to count i h g =
    let middle = take count (drop from values) in
    let front = length-take to values (omega arith) in
    let part = length-take count (drop from values) (omega (arith, length-drop from values)) in
    get_elem?-append (take to values) (middle ++ drop (to + count) values) i
    ∙ rw front (elim (Bool-cases (ltb i to)) [
      | inl t ↦
          let out : inside to count i ≡ false = ground (arith, t) in
          rw (t, out) (get_elem?-take to values i (ground (arith, t)))
      | inr t ↦
          let past : to ≤ i = ground (arith, t) in
          rw t (
            get_elem?-append middle (drop (to + count) values) (i - to)
            ∙ rw part (elim (Bool-cases (ltb (i - to) count)) [
              | inl u ↦
                  let within : inside to count i ≡ true = ground (arith, u, past) in
                  rw (u, within)
                    (get_elem?-take count (drop from values) (i - to) (ground (arith, u))
                      ∙ get_elem?-drop from values (i - to))
              | inr u ↦
                  let out : inside to count i ≡ false = ground (arith, u, past) in
                  let same : to + count + (i - to - count) ≡ i = ground (arith, u, past) in
                  rw (u, out)
                    (get_elem?-drop (to + count) values (i - to - count)
                      ∙ ap (λ n. get_elem? values n) same)
            ]))
    ])

-- `shift` answers where both windows are in the stack, and leaves in the window it moves to what stood
-- in the one it moves from before, even where they overlap, and every other slot as it was.
pub shift-slots :
    (s : Stack) (from to count i : ℕ)
    → from + count ≤ length s.values
    → to + count ≤ length s.values
    → (after : Stack) × (shift s from to count ≡ ok after)
      × (after.frames ≡ s.frames)
      × (get_elem? after.values i ≡ (
          if inside to count i then get_elem? s.values (from + (i - to)) else get_elem? s.values i))
unfolding shift
shift-slots s from to count i h g =
    let source : leb (from + count) (length s.values) ≡ true = ground (arith, h) in
    let target : leb (to + count) (length s.values) ≡ true = ground (arith, g) in
    (
      record s {
        values =
            take to s.values ++ (take count (drop from s.values) ++ drop (to + count) s.values);
      },
      rw (source, target) refl,
      refl,
      moved s.values from to count i h g,
    )
