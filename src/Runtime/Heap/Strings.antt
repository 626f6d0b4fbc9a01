-- ===== src/Runtime/Heap/Strings.antt =====
-- Lua strings, and the table that interns the short ones: crates/ruta-runtime/src/heap/string.rs.
use Prim.Native.Nat.{bit_and}
use ruta.Prelude.{
  ℕ, zero, suc, ◌+◌, ◌-◌, ◌*◌, ◌==◌, leb, true, false, same_bytes, if◌then◌else◌, Option, none,
  some, List, [], ◌∷◌, ◌++◌, length, get_elem?, set, take, replicate, ok, panic, expect, ◌>>=◌,
}
use ruta.Runtime.Table.Key.{hash_bytes}
use ruta.Runtime.Heap.{Run, LuaStr, str_object, Heap, push, string}

-- `LuaStr::as_bytes`
abbrev pub as_bytes : LuaStr → Run (List ℕ)
as_bytes text =
    if length text.storage == 0 then panic else ok (take (length text.storage - 1) text.storage)

-- `self.string(handle).as_bytes()`
abbrev pub bytes_at : Heap → ℕ → Run (List ℕ)
bytes_at h handle = string h handle >>= λ text. as_bytes text

-- The loop of `find_interned`, which ends at a slot that is not in use.
unfoldable pub probe : ℕ → Heap → List ℕ → ℕ → Run (Option ℕ)
unfolding same_bytes
probe zero h bytes index = panic
probe (suc fuel) h bytes index = expect (get_elem? h.interned index) >>= λ slot. elim slot [
  | none ↦ ok none
  | some handle ↦ bytes_at h handle >>= λ held. elim (same_bytes held bytes) [
    | true ↦ ok (some handle)
    | false ↦ probe fuel h bytes (bit_and (index + 1) (length h.interned - 1))
  ]
]

-- `find_interned`
unfoldable pub find_interned : Heap → List ℕ → ℕ → Run (Option ℕ)
unfolding probe
find_interned h bytes hash =
    if length h.interned == 0
    then ok none
    else probe (length h.interned) h bytes (bit_and hash (length h.interned - 1))

-- The loop over the slots in use, in `intern` and `grow_interned`.
unfoldable pub unused_from : ℕ → List (Option ℕ) → ℕ → Run ℕ
unused_from zero slots index = panic
unused_from (suc fuel) slots index = expect (get_elem? slots index) >>= λ slot. elim slot [
  | none ↦ ok index
  | some handle ↦ unused_from fuel slots (bit_and (index + 1) (length slots - 1))
]

-- A handle goes to the first slot that is not in use.
unfoldable pub insert : List (Option ℕ) → ℕ → ℕ → Run (List (Option ℕ))
unfolding unused_from
insert slots handle hash =
    unused_from (length slots) slots (bit_and hash (length slots - 1)) >>= λ index.
    ok (set slots index (some handle))

-- The loop of `grow_interned` over the old table.
unfoldable pub reinsert : Heap → List (Option ℕ) → List (Option ℕ) → Run (List (Option ℕ))
unfolding hash_bytes insert
reinsert h [] slots = ok slots
reinsert h (none ∷ old) slots = reinsert h old slots
reinsert h (some handle ∷ old) slots = do
  bytes ← bytes_at h handle
  placed ← insert slots handle (hash_bytes bytes)
  reinsert h old placed

-- `grow_interned`
unfoldable pub grow_interned : Heap → Run Heap
unfolding reinsert
grow_interned h =
    let buckets = if length h.interned == 0 then 16 else length h.interned * 2 in
    reinsert h h.interned (replicate buckets none) >>= λ slots. ok (record h { interned = slots })

-- `intern`
unfoldable pub intern : Heap → ℕ → ℕ → Run Heap
unfolding grow_interned insert
intern h handle hash =
    (if leb (length h.interned * 3) ((h.interned_len + 1) * 4) then grow_interned h else ok h)
    >>= λ roomy. insert roomy.interned handle hash >>= λ slots.
        ok (record roomy { interned = slots; interned_len = roomy.interned_len + 1 })

-- `new_string`
unfoldable pub new_string : Heap → List ℕ → Run (ℕ × Heap)
unfolding find_interned intern hash_bytes
new_string h bytes =
    let short = leb (length bytes) 40 in
    let hash = hash_bytes bytes in
    (if short then find_interned h bytes hash else ok none) >>= λ found. elim found [
      | some existing ↦ ok (existing, h)
      | none ↦
          let (handle, pushed) =
            push h (str_object (record { storage = bytes ++ (0 ∷ []); hash = hash })) in
          if short
          then (intern pushed handle hash >>= λ interned. ok (handle, interned))
          else ok (handle, pushed)
    ]
