-- ===== src/Syntax/Lines.antt =====
-- The line that `line_of` of crates/ruta-syntax/src/line_index.rs finds, without the table.
use ruta.Prelude.{
  ◌^◌, length, ℕ, zero, suc, ◌+◌, ◌≤◌, ◌<◌, ◌≡◌, refl, sym, ap, ◌∙◌, arith, ◌==◌, ltb, true, false,
  Bool-cases, inl, inr, if◌then◌else◌, List, [], ◌∷◌,
}
use ruta.Bytecode.Debug.{Found, hit, miss, next_found}
use ruta.Syntax.Text.{is_break, as_u32}
use ruta.Syntax.LineIndex.{is_pair, starts_from, new, search_starts, line_of_found, line_of}

-- The line breaks that end in the first `count` bytes.
unfoldable pub breaks : List ℕ → ℕ → ℕ
breaks [] count = 0
breaks (byte ∷ rest) zero = 0
breaks (byte ∷ []) (suc count) = if is_break byte then 1 else 0
breaks (byte ∷ next ∷ rest) (suc zero) =
    if is_break byte then (if is_pair byte next then 0 else 1) else 0
breaks (byte ∷ next ∷ rest) (suc (suc count)) = elim (is_break byte) [
  | false ↦ breaks (next ∷ rest) (suc count)
  | true ↦ elim (is_pair byte next) [
    | true ↦ suc (breaks rest count)
    | false ↦ suc (breaks (next ∷ rest) (suc count))
  ]
]

-- The line starts after the first, where no number wraps around.
unfoldable later_starts : List ℕ → ℕ → List ℕ
later_starts [] at = []
later_starts (byte ∷ []) at = if is_break byte then (at + 1) ∷ [] else []
later_starts (byte ∷ next ∷ rest) at = elim (is_break byte) [
  | false ↦ later_starts (next ∷ rest) (at + 1)
  | true ↦ elim (is_pair byte next) [
    | true ↦ (at + 2) ∷ later_starts rest (at + 2)
    | false ↦ (at + 1) ∷ later_starts (next ∷ rest) (at + 1)
  ]
]

starts_from-later_starts :
    (bytes : List ℕ) (at : ℕ)
    → at + length bytes < 2 ^ 32
    → starts_from bytes at ≡ later_starts bytes at
unfolding starts_from later_starts
starts_from-later_starts [] at h = refl
starts_from-later_starts (byte ∷ []) at h =
    let start : as_u32 (at + 1) ≡ at + 1 = omega arith in
    ap (λ n. if is_break byte then n ∷ [] else []) start
starts_from-later_starts (byte ∷ next ∷ rest) at h =
    let one : as_u32 (at + 1) ≡ at + 1 = omega arith in
    let two : as_u32 (at + 2) ≡ at + 2 = omega arith in
    elim (Bool-cases (is_break byte)) [
      | inr e ↦
          rw (e, starts_from, later_starts)
            (starts_from-later_starts (next ∷ rest) (at + 1) (omega arith))
      | inl e ↦ elim (Bool-cases (is_pair byte next)) [
        | inl p ↦
            rw (e, p, starts_from, later_starts, two)
              (ap (λ ns. (at + 2) ∷ ns) (starts_from-later_starts rest (at + 2) (omega arith)))
        | inr p ↦
            rw (e, p, starts_from, later_starts, one)
              (ap (λ ns. (at + 1) ∷ ns)
                (starts_from-later_starts (next ∷ rest) (at + 1) (omega arith)))
      ]
    ]

-- No line after the first starts so early.
later_starts-late :
    (bytes : List ℕ) (at offset : ℕ)
    → offset ≤ at
    → search_starts (later_starts bytes at) offset ≡ miss 0
unfolding later_starts search_starts
later_starts-late [] at offset h = refl
later_starts-late (byte ∷ []) at offset h = elim (Bool-cases (is_break byte)) [
  | inr e ↦ rw (e, later_starts) refl
  | inl e ↦ rw (e, later_starts, search_starts) (ground arith)
]
later_starts-late (byte ∷ next ∷ rest) at offset h = elim (Bool-cases (is_break byte)) [
  | inr e ↦ rw (e, later_starts) (later_starts-late (next ∷ rest) (at + 1) offset (omega arith))
  | inl e ↦ elim (Bool-cases (is_pair byte next)) [
    | inl p ↦ rw (e, p, later_starts, search_starts) (ground arith)
    | inr p ↦ rw (e, p, later_starts, search_starts) (ground arith)
  ]
]

-- One line start more, before the offset or at it.
line_of_found-next : (found : Found) → line_of_found (next_found found) ≡ suc (line_of_found found)
line_of_found-next (hit index) = omega arith
line_of_found-next (miss index) = omega arith

before :
    (start : ℕ) (starts : List ℕ) (offset : ℕ)
    → offset < start
    → line_of_found (search_starts (start ∷ starts) offset) ≡ 0
unfolding search_starts
before start starts offset h = ground arith

-- A line that started at or before the offset counts one more than those after it.
reached :
    (start : ℕ) (starts : List ℕ) (offset count : ℕ)
    → start ≤ offset
    → (offset ≡ start → count ≡ 0)
    → line_of_found (search_starts starts offset) ≡ count
    → line_of_found (search_starts (start ∷ starts) offset) ≡ suc count
unfolding search_starts
reached start starts offset count h same e = elim (Bool-cases (offset == start)) [
  | inl t ↦ rw (t, search_starts) (omega (arith, same (ground (arith, t))))
  | inr t ↦
      let f : ltb offset start ≡ false = ground (arith, t) in
      rw (t, f, search_starts)
        (line_of_found-next (search_starts starts offset) ∙ ap (λ n. suc n) e)
]

breaks-zero : (bytes : List ℕ) → breaks bytes 0 ≡ 0
unfolding breaks
breaks-zero [] = refl
breaks-zero (byte ∷ []) = refl
breaks-zero (byte ∷ next ∷ rest) = refl

later_starts-breaks :
    (bytes : List ℕ) (at count : ℕ)
    → line_of_found (search_starts (later_starts bytes at) (at + count)) ≡ breaks bytes count
unfolding later_starts search_starts breaks
later_starts-breaks [] at count = refl
later_starts-breaks (byte ∷ []) at zero =
    ap (λ f. line_of_found f) (later_starts-late (byte ∷ []) at (at + 0) (omega arith))
later_starts-breaks (byte ∷ []) at (suc count) = elim (Bool-cases (is_break byte)) [
  | inr e ↦ rw (e, later_starts, breaks) refl
  | inl e ↦
      rw (e, later_starts, breaks)
        (reached (at + 1) [] (at + suc count) 0 (omega arith) (λ h. refl) refl)
]
later_starts-breaks (byte ∷ next ∷ rest) at zero =
    ap (λ f. line_of_found f) (later_starts-late (byte ∷ next ∷ rest) at (at + 0) (omega arith))
later_starts-breaks (byte ∷ next ∷ rest) at (suc zero) =
    let late =
      ap (λ f. line_of_found f) (later_starts-late (next ∷ rest) (at + 1) (at + 1) (omega arith)) in
    elim (Bool-cases (is_break byte)) [
      | inr e ↦ rw (e, later_starts, breaks) late
      | inl e ↦ elim (Bool-cases (is_pair byte next)) [
        | inl p ↦
            rw (e, p, later_starts, breaks)
              (before (at + 2) (later_starts rest (at + 2)) (at + 1) (omega arith))
        | inr p ↦
            rw (e, p, later_starts, breaks)
              (reached (at + 1) (later_starts (next ∷ rest) (at + 1)) (at + 1) 0 (omega arith)
                (λ h. refl) late)
      ]
    ]
later_starts-breaks (byte ∷ next ∷ rest) at (suc (suc count)) =
    let far : at + 2 + count ≡ at + suc (suc count) = omega arith in
    let near : at + 1 + suc count ≡ at + suc (suc count) = omega arith in
    let later =
      ap (λ o. line_of_found (search_starts (later_starts rest (at + 2)) o)) (sym far)
      ∙ later_starts-breaks rest (at + 2) count in
    let after =
      ap (λ o. line_of_found (search_starts (later_starts (next ∷ rest) (at + 1)) o)) (sym near)
      ∙ later_starts-breaks (next ∷ rest) (at + 1) (suc count) in
    elim (Bool-cases (is_break byte)) [
      | inr e ↦ rw (e, later_starts, breaks) after
      | inl e ↦ elim (Bool-cases (is_pair byte next)) [
        | inl p ↦
            rw (e, p, later_starts, breaks)
              (reached (at + 2) (later_starts rest (at + 2)) (at + suc (suc count))
                (breaks rest count) (omega arith)
                (λ h.
                  let none_left : 0 ≡ count = omega (arith, h) in
                  ap (λ n. breaks rest n) (sym none_left) ∙ breaks-zero rest)
                later)
        | inr p ↦
            rw (e, p, later_starts, breaks)
              (reached (at + 1) (later_starts (next ∷ rest) (at + 1)) (at + suc (suc count))
                (breaks (next ∷ rest) (suc count)) (omega arith)
                (λ h. let f : ⊥ = omega (arith, h) in absurd f) after)
      ]
    ]

-- In a source shorter than 2^32 bytes, the line of an offset is one more than the line breaks that end
-- at or before it, a pair `\r\n` or `\n\r` counted once.
pub line_of-breaks :
    (source : List ℕ) (offset : ℕ)
    → length source < 2 ^ 32
    → line_of (new source) offset ≡ suc (breaks source offset)
unfolding line_of new
line_of-breaks source offset h =
    let start : offset ≡ 0 + offset = omega arith in
    rw (starts_from-later_starts source 0 (omega arith)) (
      reached 0 (later_starts source 0) offset (breaks source offset) (omega arith)
        (λ h. ap (λ n. breaks source n) h ∙ breaks-zero source)
        (ap (λ o. line_of_found (search_starts (later_starts source 0) o)) start
          ∙ later_starts-breaks source 0 offset))
