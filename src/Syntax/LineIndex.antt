-- ===== src/Syntax/LineIndex.antt =====
-- Where the lines of a source start: crates/ruta-syntax/src/line_index.rs.
use ruta.Prelude.{ℕ, ◌+◌, Bool, true, false, ◌&&◌, not, ltb, ◌==◌, if◌then◌else◌, List, [], ◌∷◌}
use ruta.Bytecode.Debug.{Found, hit, miss, next_found}
use ruta.Syntax.Text.{as_u32, is_break}

-- The byte after a line break that belongs to it: `\r\n` and `\n\r` are one break.
abbrev pub is_pair : ℕ → ℕ → Bool
is_pair first next = is_break next && not (next == first)

-- The loop of `LineIndex::new`, `at` bytes into the source.
unfoldable pub starts_from : List ℕ → ℕ → List ℕ
starts_from [] at = []
starts_from (byte ∷ []) at = if is_break byte then as_u32 (at + 1) ∷ [] else []
starts_from (byte ∷ next ∷ rest) at = elim (is_break byte) [
  | false ↦ starts_from (next ∷ rest) (at + 1)
  | true ↦ elim (is_pair byte next) [
    | true ↦ as_u32 (at + 2) ∷ starts_from rest (at + 2)
    | false ↦ as_u32 (at + 1) ∷ starts_from (next ∷ rest) (at + 1)
  ]
]

-- `LineIndex::new`
unfoldable pub new : List ℕ → List ℕ
unfolding starts_from
new source = 0 ∷ starts_from source 0

-- `binary_search` of the standard library, on starts in order.
unfoldable pub search_starts : List ℕ → ℕ → Found
search_starts [] offset = miss 0
search_starts (start ∷ starts) offset =
    let rest = next_found (search_starts starts offset) in
    if offset == start then hit 0 else if ltb offset start then miss 0 else rest

abbrev pub line_of_found : Found → ℕ
line_of_found (hit index) = index + 1
line_of_found (miss index) = index

-- `line_of`
unfoldable pub line_of : List ℕ → ℕ → ℕ
unfolding search_starts
line_of starts offset = line_of_found (search_starts starts offset)
