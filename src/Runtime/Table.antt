-- ===== src/Runtime/Table.antt =====
-- How a table holds what it holds: crates/ruta-runtime/src/heap/table/store.rs.
pub mod Size
pub mod Key
pub mod Border
pub mod Sizing
pub mod Bucket
pub mod Access
pub mod Numbers
pub mod Overwrite
mod Tests
use Size.{nodes_for}
use Prim.Native.Nat.{bit_and}
use ruta.Prelude.{
  ℕ, zero, suc, ◌+◌, ◌-◌, ◌*◌, ◌/◌, ◌^◌, Bool, true, false, ◌&&◌, ◌||◌, not, ltb, leb, ◌==◌,
  if◌then◌else◌, min, Option, none, some, Outcome, ok, err, panic, expect, ◌>>=◌, List, [], ◌∷◌,
  ◌++◌, map, length, get_elem?, set, replicate,
}
use ruta.Prelude.Int.{ℤ, pos, negsuc}
use ruta.Runtime.Value.{Value, nil, int, is_nil}

pub record Node : Type 0 where
  pub key : Value
  pub value : Value
  pub next : Option ℕ

-- A table's two parts, and how many nodes the walk for an unused one has passed.
pub record Table : Type 0 where
  pub array : List Value
  pub nodes : List Node
  pub free : ℕ

pub data Resume : Type 0 where
  from_array : ℕ → Resume
  from_node : ℕ → Resume

-- `Node::default()`
abbrev pub empty_node : Node
empty_node = record { key = nil; value = nil; next = none }

unfoldable pub with_hints : ℕ → ℕ → Table
unfolding nodes_for
with_hints array_hint hash_hint = record {
  array = replicate array_hint nil;
  nodes = replicate (nodes_for hash_hint) empty_node;
  free = 0;
}

-- `array_index`: the index of a key in the array part.
unfoldable pub array_index : Table → Value → Option ℕ
array_index t (int (pos zero)) = none
array_index t (int (pos (suc n))) = if ltb n (length t.array) then some n else none
array_index t _ = none

-- `in_array`
unfoldable pub in_array : Table → ℤ → Bool
in_array t (pos zero) = false
in_array t (pos (suc n)) = ltb n (length t.array)
in_array t (negsuc n) = false

-- The first loop of `entry_from`, over the array part from an index on.
unfoldable pub array_entry : List Value → ℕ → ℕ → Option (Value × Value)
array_entry [] start index = none
array_entry (v ∷ vs) start index =
    if leb start index && not (is_nil v)
    then some (int (pos (index + 1)), v)
    else array_entry vs start (index + 1)

-- Its second loop, over the nodes.
unfoldable pub node_entry : List Node → ℕ → ℕ → Option (Value × Value)
node_entry [] start index = none
node_entry (n ∷ ns) start index =
    if leb start index && not (is_nil n.value)
    then some (n.key, n.value)
    else node_entry ns start (index + 1)

-- `entry_from`
unfoldable pub entry_from : Table → Resume → Option (Value × Value)
unfolding array_entry node_entry
entry_from t (from_array start) = elim (array_entry t.array start 0) [
  | some entry ↦ some entry
  | none ↦ node_entry t.nodes 0 0
]
entry_from t (from_node start) = node_entry t.nodes start 0

-- `matches!(self.array[i], Value::Nil)`; the loops below stay in range, and out of range it is true.
abbrev pub nil_at : List Value → ℕ → Bool
nil_at vs i = elim (get_elem? vs i) [ some v ↦ is_nil v | none ↦ true ]

-- The loop of `array_border`; the fuel is the distance of `low` and `high`.
unfoldable pub halve : List Value → ℕ → ℕ → ℕ → ℕ
halve vs zero low high = low
halve vs (suc fuel) low high =
    let middle = low + (high - low) / 2 in
    elim (ltb 1 (high - low)) [
      | false ↦ low
      | true ↦ elim (nil_at vs (middle - 1)) [
        | true ↦ halve vs fuel low middle
        | false ↦ halve vs fuel middle high
      ]
    ]

-- `array_border`
unfoldable pub array_border : Table → Option ℕ
unfolding halve
array_border t =
    if length t.array == 0 || not (nil_at t.array (length t.array - 1))
    then none
    else some (halve t.array (length t.array) 0 (length t.array))

unfoldable pub array_get : Table → Value → Option Value
unfolding array_index
array_get t key = elim (array_index t key) [ some i ↦ get_elem? t.array i | none ↦ none ]

-- Whether the key is one of the array part's, and the table.
unfoldable pub array_set : Table → Value → Value → Bool × Table
unfolding array_index
array_set t key v = elim (array_index t key) [
  | some i ↦ (true, record t { array = set t.array i v })
  | none ↦ (false, t)
]

unfoldable pub main_position : Table → ℕ → Option ℕ
main_position t hash =
    if length t.nodes == 0 then none else some (bit_and hash (length t.nodes - 1))

module _ {E : Type 0} (t : Table) (index : ℕ) where
  abbrev pub node_at : Outcome E Node
  node_at = expect (get_elem? t.nodes index)

  unfoldable pub node_key : Outcome E Value
  node_key = node_at >>= λ n. ok n.key

  unfoldable pub node_value : Outcome E Value
  node_value = node_at >>= λ n. ok n.value

  unfoldable pub node_next : Outcome E (Option ℕ)
  node_next = node_at >>= λ n. ok n.next

  unfoldable pub node_is_free : Outcome E Bool
  node_is_free = node_at >>= λ n. ok (is_nil n.key)

  -- `put_node`
  unfoldable pub put_node : Value → Value → Option ℕ → Outcome E Table
  put_node k v next = node_at >>= λ n.
      ok (record t { nodes = set t.nodes index (record { key = k; value = v; next = next }) })

  unfoldable pub set_node_value : Value → Outcome E Table
  set_node_value v =
      node_at >>= λ n. ok (record t { nodes = set t.nodes index (record n { value = v }) })

  unfoldable pub set_node_next : Option ℕ → Outcome E Table
  set_node_next next =
      node_at >>= λ n. ok (record t { nodes = set t.nodes index (record n { next = next }) })

-- The loop of `take_free`; the fuel is the number of nodes not yet passed.
unfoldable pub walk_free : ℕ → List Node → ℕ → Option ℕ × ℕ
walk_free zero nodes free = (none, free)
walk_free (suc fuel) nodes free =
    let rest = walk_free fuel nodes (free + 1) in
    if ltb free (length nodes)
    then elim (get_elem? nodes (length nodes - 1 - free)) [
      | some n ↦ if is_nil n.key then (some (length nodes - 1 - free), free + 1) else rest
      | none ↦ rest
    ]
    else (none, free)

-- `take_free`
unfoldable pub take_free : Table → Option ℕ × Table
unfolding walk_free
take_free t =
    let (found, free) = walk_free (length t.nodes - t.free) t.nodes t.free in
    (found, record t { free = free })

unfoldable pub array_entries : List Value → ℕ → List (Value × Value)
array_entries [] index = []
array_entries (v ∷ vs) index =
    let rest = array_entries vs (index + 1) in
    if is_nil v then rest else (int (pos (index + 1)), v) ∷ rest

unfoldable pub node_entries : List Node → List (Value × Value)
node_entries [] = []
node_entries (n ∷ ns) =
    let rest = node_entries ns in if is_nil n.value then rest else (n.key, n.value) ∷ rest

-- `drain_all`: what the table holds, and the table without it.
unfoldable pub drain_all : Table → List (Value × Value) × Table
unfolding array_entries node_entries
drain_all t =
    (array_entries t.array 0 ++ node_entries t.nodes, record { array = []; nodes = []; free = 0 })

-- `rebuild`
unfoldable pub rebuild : Table → ℕ → ℕ → Table
unfolding nodes_for
rebuild t array_size hash_count = record t {
  array = replicate array_size nil;
  nodes = replicate (nodes_for hash_count) empty_node;
  free = 0;
}
