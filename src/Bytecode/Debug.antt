-- ===== src/Bytecode/Debug.antt =====
-- The line table of a prototype: crates/ruta-bytecode/src/debug.rs.
use ruta.Prelude.{ℕ, zero, suc, List, [], ◌∷◌, ltb, ◌==◌, if◌then◌else◌, get_or}

-- What `binary_search_by_key` answers on entries with increasing keys.
pub data Found : Type 0 where
  hit : (index : ℕ) → Found
  miss : (index : ℕ) → Found

abbrev pub next_found : Found → Found
next_found (hit index) = hit (suc index)
next_found (miss index) = miss (suc index)

-- `[T]::binary_search_by_key` of the standard library on strictly increasing keys, where its
-- answer is unique: the index of the key, or the index at which the key would be inserted.
unfoldable pub search : List (ℕ × ℕ) → ℕ → Found
search [] key = miss 0
search ((k, v) ∷ entries) key =
    if k == key then hit 0 else if ltb key k then miss 0 else next_found (search entries key)

abbrev pub line_of_found : List (ℕ × ℕ) → Found → ℕ
line_of_found entries (hit index) = (get_or entries index (0, 0)).1
line_of_found entries (miss zero) = 0
line_of_found entries (miss (suc index)) = (get_or entries index (0, 0)).1

-- `LineTable::line_at`
unfoldable pub line_at : List (ℕ × ℕ) → ℕ → ℕ
unfolding search
line_at entries pc = line_of_found entries (search entries pc)
