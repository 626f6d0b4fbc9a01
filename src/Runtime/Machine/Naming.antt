-- ===== src/Runtime/Machine/Naming.antt =====
-- How long the name of a chunk gets in a message: `chunk` of crates/ruta-runtime/src/vm/error.rs.
use ruta.Prelude.{
  ℕ, zero, suc, ◌-◌, ◌≤◌, ◌<◌, ◌≡◌, ◌≢◌, inl, inr, refl, ap, arith, ◌==◌, leb, leb→le, Bool-cases,
  List, [], ◌∷◌, ◌++◌, length, length-take, length-drop, take, drop, ok,
}
use ruta.Syntax.Text.{codes}
use ruta.Runtime.Machine.Text.{shown, chunk}

take-drop : (n : ℕ) (xs : List ℕ) → take n xs ++ drop n xs ≡ xs
take-drop zero xs = refl
take-drop (suc n) [] = refl
take-drop (suc n) (x ∷ xs) = ap (λ l. x ∷ l) (take-drop n xs)

-- What a message shows of a name after its mark: all of it where there is room for it, and otherwise
-- as much as there is room for: three dots and the end of it after the mark of a file, `@`, and its
-- start after any other.
pub data Shows (mark : ℕ) (rest text : List ℕ) : Type 0 where
  whole : length rest ≤ shown → text ≡ rest → Shows mark rest text
  file :
      (start tail : List ℕ)
      → shown < length rest
      → mark ≡ 64
      → text ≡ codes "..." ++ tail
      → start ++ tail ≡ rest
      → length text ≡ shown
      → Shows mark rest text
  named :
      (later : List ℕ)
      → shown < length rest
      → mark ≢ 64
      → text ++ later ≡ rest
      → length text ≡ shown
      → Shows mark rest text

-- On a name that is not empty `chunk` answers the name after its mark, where that has at most 59
-- bytes. Where it is longer, the answer has 59 bytes: after the mark `@` three dots and the end of the
-- name, and after any other mark its start.
pub chunk-Shows :
    (mark : ℕ) (rest : List ℕ)
    → (text : List ℕ) × (chunk (mark ∷ rest) ≡ ok text) × Shows mark rest text
unfolding chunk
chunk-Shows mark rest = elim (Bool-cases (leb (length rest) shown)) [
  | inl t ↦ (rest, rw t refl, whole (leb→le _ _ t) refl)
  | inr t ↦
      let long : shown < length rest = ground (arith, t) in
      elim (Bool-cases (mark == 64)) [
        | inl u ↦
            let cut = length rest - (shown - 3) in
            let size : length (drop cut rest) ≡ shown - 3 =
              omega (arith, length-drop cut rest, long) in
            (
              codes "..." ++ drop cut rest,
              rw (t, u) refl,
              file (take cut rest) (drop cut rest) long (ground (arith, u)) refl
                  (take-drop cut rest) (omega (arith, size)),
            )
        | inr u ↦ (
          take shown rest,
          rw (t, u) refl,
          named (drop shown rest) long (λ m. ground (arith, u, m)) (take-drop shown rest)
              (length-take shown rest (omega (arith, long))),
        )
      ]
]
