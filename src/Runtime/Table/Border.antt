-- ===== src/Runtime/Table/Border.antt =====
-- The border that `array_border` finds by halving: crates/ruta-runtime/src/heap/table/store.rs.
use ruta.Prelude.{
  ℕ, zero, suc, ◌+◌, ◌-◌, ◌/◌, ◌<◌, ◌≤◌, ◌≡◌, ◌⊎◌, inl, inr, refl, sym, subst, arith, ltb, ◌==◌,
  true, false, Bool-cases, Option, none, some, List, length,
}
use ruta.Runtime.Value.{Value}
use ruta.Runtime.Table.{Table, nil_at, halve, array_border}

-- A border: the slot before it is in use, or there is none, and the slot after it is empty.
abbrev pub IsBorder : List Value → ℕ → Type 0
IsBorder vs n = (n < length vs) × ((n ≡ 0) ⊎ (nil_at vs (n - 1) ≡ false)) × (nil_at vs n ≡ true)

-- What an answer says of the array part.
abbrev pub Answers : List Value → Option ℕ → Type 0
Answers vs (some n) = IsBorder vs n
Answers vs none = (length vs ≡ 0) ⊎ (nil_at vs (length vs - 1) ≡ false)

-- Where the bounds meet.
met-IsBorder :
    (vs : List Value) (low high : ℕ)
    → low < high
    → high ≤ length vs
    → high ≤ low + 1
    → (low ≡ 0) ⊎ (nil_at vs (low - 1) ≡ false)
    → nil_at vs (high - 1) ≡ true
    → IsBorder vs low
met-IsBorder vs low high l h f p q =
    let eq : high - 1 ≡ low = omega arith in (omega arith, p, subst (λ n. nil_at vs n ≡ true) eq q)

halve-IsBorder :
    (vs : List Value) (fuel low high : ℕ)
    → low < high
    → high ≤ length vs
    → high ≤ low + fuel + 1
    → (low ≡ 0) ⊎ (nil_at vs (low - 1) ≡ false)
    → nil_at vs (high - 1) ≡ true
    → IsBorder vs (halve vs fuel low high)
unfolding halve
halve-IsBorder vs zero low high l h f p q = met-IsBorder vs low high l h (omega arith) p q
halve-IsBorder vs (suc fuel) low high l h f p q =
    let middle = low + (high - low) / 2 in
    elim (Bool-cases (ltb 1 (high - low))) [
      | inl e ↦ elim (Bool-cases (nil_at vs (middle - 1))) [
        | inl n ↦
            let eq : halve vs (suc fuel) low high ≡ halve vs fuel low middle = rw (e, n, halve) in
            subst (IsBorder vs) (sym eq)
              (halve-IsBorder vs fuel low middle (ground arith) (ground arith) (ground arith) p n)
        | inr n ↦
            let eq : halve vs (suc fuel) low high ≡ halve vs fuel middle high = rw (e, n, halve) in
            subst (IsBorder vs) (sym eq)
              (halve-IsBorder vs fuel middle high (ground arith) h (ground arith) (inr n) q)
      ]
      | inr e ↦
          let eq : halve vs (suc fuel) low high ≡ low = rw (e, halve) in
          subst (IsBorder vs) (sym eq) (met-IsBorder vs low high l h (ground arith) p q)
    ]

-- `array_border` answers a border of the array part, or that the array part is empty or ends on a slot in use.
pub array_border-Answers : (t : Table) → Answers t.array (array_border t)
unfolding array_border
array_border-Answers t = elim (Bool-cases (length t.array == 0)) [
  | inl e ↦
      let eq : array_border t ≡ none = rw e in subst (Answers t.array) (sym eq) (inl (ground arith))
  | inr e ↦ elim (Bool-cases (nil_at t.array (length t.array - 1))) [
    | inl n ↦
        let eq : array_border t ≡ some (halve t.array (length t.array) 0 (length t.array)) =
          rw (e, n) in
        subst (Answers t.array) (sym eq) (
          halve-IsBorder t.array (length t.array) 0 (length t.array) (ground arith) (omega arith)
            (omega arith) (inl refl) n)
    | inr n ↦ let eq : array_border t ≡ none = rw (e, n) in subst (Answers t.array) (sym eq) (inr n)
  ]
]
