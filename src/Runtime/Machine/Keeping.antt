-- ===== src/Runtime/Machine/Keeping.antt =====
-- What the operations on the stacks leave in one slot: crates/ruta-runtime/src/stack/values.rs and
-- frame.rs, as crates/ruta-runtime/src/vm uses them.
use ruta.Prelude.{
  ℕ, zero, suc, ◌+◌, ◌-◌, ◌≤◌, ◌<◌, ◌≡◌, ◌≢◌, ◌⊎◌, inl, inr, refl, sym, ◌∙◌, arith, ltb, leb, true,
  false, Bool-cases, ◌++◌, length, length-append, length-set, length-take, length-drop, get_elem?,
  get_elem?-lt, get_elem?-before, get_elem?-set_other, take, drop, replicate,
}
use ruta.Runtime.Value.{Value, nil}
use ruta.Runtime.Heap.{Run}
use ruta.Runtime.Stack as Stack
use ruta.Runtime.Stack.{Stack, Frame, put, reserve, fill, fill_from, shift}
use ruta.Runtime.Stack.Windows.{inside, moved}
use ruta.Runtime.Machine.Ends.{Ends, Ends-ok, Ends-panic, Ends-weaken, Ends-then, Ends-after}

-- As many frames, no fewer slots, and the same value in a slot that was there.
pub record Keeps (slot : ℕ) (before after : Stack) : Type 0 where
  pub depth : length after.frames ≡ length before.frames
  pub longer : length before.values ≤ length after.values
  pub same :
      slot < length before.values → get_elem? after.values slot ≡ get_elem? before.values slot

pub Keeps-refl : (slot : ℕ) (s : Stack) → Keeps slot s s
Keeps-refl slot s = record { depth = refl; longer = omega arith; same = λ h. refl }

pub Keeps-trans : (slot : ℕ) (s t u : Stack) → Keeps slot s t → Keeps slot t u → Keeps slot s u
Keeps-trans slot s t u h g = record {
  depth = g.depth ∙ h.depth;
  longer = omega (arith, h.longer, g.longer);
  same = λ room. g.same (omega (arith, room, h.longer)) ∙ h.same room;
}

pub put-Keeps :
    (slot : ℕ) (s : Stack) (index : ℕ) (value : Value)
    → index ≢ slot
    → Ends (Keeps slot s) (put s index value)
unfolding put
put-Keeps slot s index value other = elim (Bool-cases (ltb index (length s.values))) [
  | inr t ↦ rw t (Ends-panic _)
  | inl t ↦ rw t (
      Ends-ok (Keeps slot s) _ (record {
        depth = refl;
        longer = omega (arith, length-set s.values index value);
        same = λ room. get_elem?-set_other s.values index slot value other;
      }))
]

pub Keeps-onward :
    (slot : ℕ) (s next : Stack)
    → Keeps slot s next
    → {o : Run Stack} → Ends (Keeps slot next) o
    → Ends (Keeps slot s) o
Keeps-onward slot s next h g =
    Ends-weaken (Keeps slot s) (Keeps slot next) _ g (λ t k. Keeps-trans slot s next t h k)

pub fill_from-Keeps :
    (slot count : ℕ) (s : Stack) (from : ℕ) (value : Value)
    → (slot < from) ⊎ (from + count ≤ slot)
    → Ends (Keeps slot s) (fill_from count s from value)
unfolding fill_from
fill_from-Keeps slot zero s from value out = Ends-ok (Keeps slot s) s (Keeps-refl slot s)
fill_from-Keeps slot (suc count) s from value out =
    let other : from ≢ slot = ground (arith, out) in
    let later : (slot < from + 1) ⊎ (from + 1 + count ≤ slot) = ground (arith, out) in
    Ends-then (put-Keeps slot s from value other) (λ next h.
      Keeps-onward slot s next h (fill_from-Keeps slot count next (from + 1) value later))

pub fill-Keeps :
    (slot : ℕ) (s : Stack) (from to : ℕ) (value : Value)
    → (slot < from) ⊎ (to ≤ slot)
    → Ends (Keeps slot s) (fill s from to value)
unfolding fill
fill-Keeps slot s from to value out = elim out [
  | inl low ↦ fill_from-Keeps slot (to - from) s from value (inl low)
  | inr high ↦ elim (Bool-cases (leb from slot)) [
    | inl t ↦ fill_from-Keeps slot (to - from) s from value (inr (ground (arith, t, high)))
    | inr t ↦ fill_from-Keeps slot (to - from) s from value (inl (ground (arith, t)))
  ]
]

pub reserve-Keeps : (slot : ℕ) (s : Stack) (height : ℕ) → Keeps slot s (reserve s height)
unfolding reserve
reserve-Keeps slot s height = elim (Bool-cases (ltb (length s.values) height)) [
  | inr t ↦ rw t (Keeps-refl slot s)
  | inl t ↦
      let more = replicate (height - length s.values) nil in
      rw t (record {
        depth = refl;
        longer = omega (arith, length-append s.values more);
        same = λ room.
            let (value, there) = get_elem?-lt s.values slot room in
            get_elem?-before s.values more slot value there ∙ sym there;
      })
]

shift-Keeps_there :
    (slot : ℕ) (s : Stack) (from to count : ℕ)
    → (slot < to) ⊎ (to + count ≤ slot)
    → from + count ≤ length s.values
    → to + count ≤ length s.values
    → Ends (Keeps slot s) (shift s from to count)
unfolding shift
shift-Keeps_there slot s from to count out h g =
    let source : leb (from + count) (length s.values) ≡ true = ground (arith, h) in
    let target : leb (to + count) (length s.values) ≡ true = ground (arith, g) in
    let outside : inside to count slot ≡ false = ground (arith, out) in
    let middle = take count (drop from s.values) in
    let rest = drop (to + count) s.values in
    rw (source, target)
      (Ends-ok (Keeps slot s) _ (record {
        depth = refl;
        longer = omega (
          arith,
          length-append (take to s.values) (middle ++ rest),
          length-append middle rest,
          length-take to s.values (omega (arith, g)),
          length-take count (drop from s.values) (omega (arith, length-drop from s.values, h)),
          length-drop (to + count) s.values,
        );
        same = λ room. moved s.values from to count slot h g ∙ rw outside refl;
      }))

pub shift-Keeps :
    (slot : ℕ) (s : Stack) (from to count : ℕ)
    → (slot < to) ⊎ (to + count ≤ slot)
    → Ends (Keeps slot s) (shift s from to count)
unfolding shift
shift-Keeps slot s from to count out = elim (Bool-cases (leb (from + count) (length s.values))) [
  | inr t ↦ rw t (Ends-panic _)
  | inl t ↦ elim (Bool-cases (leb (to + count) (length s.values))) [
    | inr u ↦ rw (t, u) (Ends-panic _)
    | inl u ↦ shift-Keeps_there slot s from to count out (ground (arith, t)) (ground (arith, u))
  ]
]

-- Writing through `current_mut` changes no slot.
pub set_current-Keeps :
    (slot : ℕ) (s : Stack) (change : Frame → Frame)
    → Ends (Keeps slot s) (Stack.set_current s change)
set_current-Keeps slot s change = Ends-after (Stack.current s) (λ frame.
    Ends-ok (Keeps slot s) _ (record {
      depth = length-set s.frames 0 (change frame);
      longer = omega arith;
      same = λ room. refl;
    }))
