-- ===== src/Runtime/Table/Sizing.antt =====
-- The array size that pays: `best_array_size` of crates/ruta-runtime/src/heap/table/store.rs.
use ruta.Prelude.{
  ℕ, zero, suc, ◌+◌, ◌^◌, ◌<◌, ◌≤◌, ◌≡◌, ◌⊎◌, inl, inr, refl, sym, ◌∙◌, subst, arith, ltb, ◌==◌,
  if◌then◌else◌, Bool, true, false, ◌&&◌, Bool-cases, List, [], ◌∷◌, get_or, take,
}
use mathlib.Core.Path.{ap₂}
use ruta.Runtime.Table.Size.{Layout, array_is_worth_it, grow_best, best_array_size}

unfoldable pub sum : List ℕ → ℕ
sum [] = 0
sum (n ∷ ns) = n + sum ns

-- A power of two pays if some key needs it and the keys up to it are worth the slots.
unfoldable pub Pays : Layout → List ℕ → ℕ → ℕ → ℕ → Type 0
Pays l counts power covered q =
    (0 < get_or counts q 0)
    × (array_is_worth_it l (2 ^ (power + q)) (covered + sum (take (suc q) counts)) ≡ true)

-- The largest power that pays, with the keys up to it, or the answer for no such power.
abbrev pub IsLargest : Layout → List ℕ → ℕ → ℕ → ℕ × ℕ → ℕ × ℕ → Type 0
IsLargest l counts power covered best answer =
    ((answer ≡ best) × ((q : ℕ) → ¬ Pays l counts power covered q))
    ⊎ ((p : ℕ) × (answer ≡ (2 ^ (power + p), covered + sum (take (suc p) counts)))
        × Pays l counts power covered p
        × ((q : ℕ) → p < q → ¬ Pays l counts power covered q))

-- Without a key left, nothing pays.
none_left : (counts : List ℕ) (q : ℕ) → sum counts ≡ 0 → get_or counts q 0 ≡ 0
unfolding sum
none_left [] q h = refl
none_left (c ∷ cs) zero h = omega arith
none_left (c ∷ cs) (suc q) h = none_left cs q (omega arith)

none-Pays :
    (l : Layout) (counts : List ℕ) (power covered q : ℕ)
    → sum counts ≡ 0
    → ¬ Pays l counts power covered q
unfolding Pays
none-Pays l counts power covered q h (some_key, w) = omega (arith, none_left counts q h)

-- A power seen from the next slice on.
Pays-suc :
    (l : Layout) (c : ℕ) (cs : List ℕ) (power covered q : ℕ)
    → Pays l (c ∷ cs) power covered (suc q) ≡ Pays l cs (power + 1) (covered + c) q
unfolding Pays sum
Pays-suc l c cs power covered q =
    let slots : power + suc q ≡ power + 1 + q = omega arith in
    let keys : covered + (c + sum (take (suc q) cs)) ≡ covered + c + sum (take (suc q) cs) =
      omega arith in
    ap₂ (λ a b. (0 < get_or cs q 0) × (array_is_worth_it l (2 ^ a) b ≡ true)) slots keys

unfoldable pays_now : Layout → ℕ → ℕ → ℕ → Bool
pays_now l count power covered = ltb 0 count && array_is_worth_it l (2 ^ power) (covered + count)

Pays-zero :
    (l : Layout) (c : ℕ) (cs : List ℕ) (power covered : ℕ)
    → Pays l (c ∷ cs) power covered 0
      ≡ ((0 < c) × (array_is_worth_it l (2 ^ power) (covered + c) ≡ true))
unfolding Pays sum
Pays-zero l c cs power covered =
    let slots : power + 0 ≡ power = omega arith in
    let keys : covered + (c + 0) ≡ covered + c = omega arith in
    ap₂ (λ a b. (0 < c) × (array_is_worth_it l (2 ^ a) b ≡ true)) slots keys

pays_now-lem :
    (l : Layout) (c power covered : ℕ)
    → (pays_now l c power covered ≡ true
        → (0 < c) × (array_is_worth_it l (2 ^ power) (covered + c) ≡ true))
      × (pays_now l c power covered ≡ false
          → ¬ ((0 < c) × (array_is_worth_it l (2 ^ power) (covered + c) ≡ true)))
unfolding pays_now
pays_now-lem l c power covered = ground arith

cast : {A B : Type 0} → A ≡ B → A → B
cast p a = subst (λ (T : Type 0). T) p a

-- No later power pays, seen from the slice before.
none_after :
    (l : Layout) (c : ℕ) (cs : List ℕ) (power covered p : ℕ)
    → ((q : ℕ) → p ≤ q → ¬ Pays l cs (power + 1) (covered + c) q)
    → (q : ℕ) → p < q
    → ¬ Pays l (c ∷ cs) power covered q
none_after l c cs power covered p bars zero h = let f : ⊥ = omega arith in elim f [ ]
none_after l c cs power covered p bars (suc q) h =
    λ w. bars q (omega arith) (cast (Pays-suc l c cs power covered q) w)

none_at :
    (l : Layout) (c : ℕ) (cs : List ℕ) (power covered : ℕ)
    → pays_now l c power covered ≡ false
    → ((q : ℕ) → ¬ Pays l cs (power + 1) (covered + c) q)
    → (q : ℕ) → ¬ Pays l (c ∷ cs) power covered q
none_at l c cs power covered e bars zero =
    λ w. (pays_now-lem l c power covered).1 e (cast (Pays-zero l c cs power covered) w)
none_at l c cs power covered e bars (suc q) = λ w. bars q (cast (Pays-suc l c cs power covered q) w)

-- One turn of the loop.
IsLargest-suc :
    (l : Layout) (c : ℕ) (cs : List ℕ) (power covered : ℕ) (best answer : ℕ × ℕ)
    → IsLargest l cs
        (power + 1)
        (covered + c)
        (if pays_now l c power covered then (2 ^ power, covered + c) else best)
        answer
    → IsLargest l (c ∷ cs) power covered best answer
unfolding sum
IsLargest-suc l c cs power covered best answer (inr (p, eq, pays, bars)) =
    let slots : power + 1 + p ≡ power + suc p = omega arith in
    let keys : covered + c + sum (take (suc p) cs) ≡ covered + (c + sum (take (suc p) cs)) =
      omega arith in
    inr (
      suc p,
      (eq ∙ ap₂ (λ a b. (2 ^ a, b)) slots keys),
      cast (sym (Pays-suc l c cs power covered p)) pays,
      none_after l c cs power covered (suc p) λ q h. bars q (omega arith),
    )
IsLargest-suc l c cs power covered best answer (inl (eq, bars)) =
    elim (Bool-cases (pays_now l c power covered)) [
      | inl e ↦
          let next : (if pays_now l c power covered then (2 ^ power, covered + c) else best)
              ≡ (2 ^ power, covered + c) =
            rw e in
          let slots : power ≡ power + 0 = omega arith in
          let keys : covered + c ≡ covered + (c + 0) = omega arith in
          inr (
            0,
            (eq ∙ next ∙ ap₂ (λ a b. (2 ^ a, b)) slots keys),
            cast (sym (Pays-zero l c cs power covered)) ((pays_now-lem l c power covered).0 e),
            none_after l c cs power covered 0 λ q h. bars q,
          )
      | inr e ↦
          let next : (if pays_now l c power covered then (2 ^ power, covered + c) else best)
              ≡ best =
            rw e in
          inl (eq ∙ next, none_at l c cs power covered e bars)
    ]

grow_best-IsLargest :
    (l : Layout) (counts : List ℕ) (integers power covered : ℕ) (best : ℕ × ℕ)
    → covered + sum counts ≡ integers
    → IsLargest l counts power covered best (grow_best l counts integers power covered best)
unfolding grow_best sum pays_now
grow_best-IsLargest l [] integers power covered best h =
    inl (refl, λ q. none-Pays l [] power covered q refl)
grow_best-IsLargest l (c ∷ cs) integers power covered best h =
    elim (Bool-cases (covered == integers)) [
      | inl e ↦
          let eq : grow_best l (c ∷ cs) integers power covered best ≡ best = rw (e, grow_best) in
          inl (eq, λ q. none-Pays l (c ∷ cs) power covered q (ground (arith, h, e)))
      | inr e ↦
          let next = if pays_now l c power covered then (2 ^ power, covered + c) else best in
          let answer = grow_best l cs integers (power + 1) (covered + c) next in
          let eq : grow_best l (c ∷ cs) integers power covered best ≡ answer = rw (e, grow_best) in
          subst (IsLargest l (c ∷ cs) power covered best) (sym eq) (
            IsLargest-suc l c cs power covered best answer
              (grow_best-IsLargest l cs integers (power + 1) (covered + c) next (omega (arith, h))))
    ]

-- For the counts of `integers` keys by their slices, `best_array_size` answers the largest power of two
-- whose slice has a key and that is worth its slots, with the number of keys up to it, or (0, 0) if there is none.
pub best_array_size-IsLargest :
    (l : Layout) (counts : List ℕ) (integers : ℕ)
    → sum counts ≡ integers
    → IsLargest l counts 0 0 (0, 0) (best_array_size l counts integers)
unfolding best_array_size
best_array_size-IsLargest l counts integers h =
    grow_best-IsLargest l counts integers 0 0 (0, 0) (omega (arith, h))
