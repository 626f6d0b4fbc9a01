-- ===== src/Runtime/Table/Access.antt =====
-- Reading and writing a table: crates/ruta-runtime/src/heap/table/access.rs.
-- A walk along a chain has as much fuel as there are nodes, and a walk that is longer, which in the
-- code would not end, answers `endless`. `strings` is what the heap holds for a string's handle.
use ruta.Prelude.{
  ℕ, zero, suc, ◌+◌, ◌-◌, ◌*◌, ◌/◌, ◌^◌, Bool, false, not, ltb, ◌==◌, if◌then◌else◌, Option, none,
  some, Outcome, ok, err, panic, expect, ◌>>=◌, List, [], ◌∷◌, ◌++◌, length, set, get_or, replicate,
}
use ruta.Prelude.Int.{ℤ, pos, pos_part}
use ruta.Runtime.Value.{Value, nil, int, is_nil}
use ruta.Runtime.Table.{
  Table, from_array, from_node, in_array, entry_from, array_border, array_get, array_set,
  main_position, node_key, node_value, node_next, node_is_free, put_node, set_node_value,
  set_node_next, take_free, drain_all, rebuild,
}
use ruta.Runtime.Table.Size.{Layout, bucket_of, best_array_size}
use ruta.Runtime.Table.Key.{KeyError, key_hash, keys_equal, normalize}

pub data Failure : Type 0 where
  key_error : KeyError → Failure
  invalid_key : Failure
  endless : Failure

-- An answer of `key.rs`, under this file's errors.
abbrev pub lift {ℓ} : {A : Type ℓ} → Outcome KeyError A → Outcome Failure A
lift (ok a) = ok a
lift (err e) = err (key_error e)
lift panic = panic

module _ (strings : ℕ → List ℕ) where
  -- The loop of `find_node`.
  unfoldable pub find_from : ℕ → Table → Value → ℕ → Outcome Failure (Option ℕ)
  unfolding node_key node_next keys_equal
  find_from zero body key index = err endless
  find_from (suc fuel) body key index = do
    found ← node_key body index
    if keys_equal strings found key then ok (some index) else do
      next ← node_next body index
      elim next [ none ↦ ok none | some after ↦ find_from fuel body key after ]

  -- `find_node`
  unfoldable pub find_node : Table → Value → Outcome Failure (Option ℕ)
  unfolding find_from main_position key_hash
  find_node body key = do
    hash ← lift (key_hash strings key)
    elim (main_position body hash) [
      | none ↦ ok none
      | some main ↦ find_from (length body.nodes) body key main
    ]

  -- `has_integer`
  unfoldable pub has_integer : Table → ℤ → Outcome Failure Bool
  unfolding in_array array_get find_node node_value
  has_integer body key =
      if in_array body key
      then ok (elim (array_get body (int key)) [ none ↦ false | some v ↦ not (is_nil v) ])
      else (find_node body (int key) >>= λ found. elim found [
        | none ↦ ok false
        | some index ↦ node_value body index >>= λ v. ok (not (is_nil v))
      ])

  -- `table_get`
  unfoldable pub table_get : Table → Value → Outcome Failure Value
  unfolding normalize array_get find_node node_value
  table_get body raw = elim (normalize raw) [
    | panic ↦ panic
    | err e ↦ ok nil
    | ok key ↦ elim (array_get body key) [
      | some v ↦ ok v
      | none ↦ find_node body key >>= λ found. elim found [
        | some index ↦ node_value body index
        | none ↦ ok nil
      ]
    ]
  ]

  -- `table_next`
  unfoldable pub table_next : Table → Value → Outcome Failure (Option (Value × Value))
  unfolding in_array entry_from find_node
  table_next body nil = ok (entry_from body (from_array 0))
  table_next body key =
      if (elim key [ int n ↦ in_array body n | _ ↦ false ])
      then ok (entry_from body (from_array (elim key [ int n ↦ pos_part n | _ ↦ 0 ])))
      else (find_node body key >>= λ found. elim found [
        | some index ↦ ok (entry_from body (from_node (index + 1)))
        | none ↦ err invalid_key
      ])

  -- The loops of `table_length`: one key after the other, halving, and doubling.
  unfoldable pub count_up : ℕ → Table → ℕ → Outcome Failure ℕ
  unfolding has_integer
  count_up zero body filled = err endless
  count_up (suc fuel) body filled = do
    more ← has_integer body (pos (filled + 1))
    if more then count_up fuel body (filled + 1) else ok filled

  unfoldable pub close_in : ℕ → Table → ℕ → ℕ → Outcome Failure ℕ
  unfolding has_integer
  close_in zero body filled empty = if ltb 1 (empty - filled) then err endless else ok filled
  close_in (suc fuel) body filled empty =
      let middle = filled + (empty - filled) / 2 in
      if ltb 1 (empty - filled)
      then (has_integer body (pos middle) >>= λ used.
          if used then close_in fuel body middle empty else close_in fuel body filled middle)
      else ok filled

  unfoldable pub double_up : ℕ → Table → ℕ → ℕ → Outcome Failure ℕ
  unfolding has_integer count_up close_in
  double_up zero body filled empty = err endless
  double_up (suc fuel) body filled empty = do
    used ← has_integer body (pos empty)
    if not used
        then close_in 64 body filled empty
        else if ltb (empty * 2) (2 ^ 63)
        then double_up fuel body empty (empty * 2)
        else count_up (length body.array + length body.nodes + 1) body empty

  -- `table_length`
  unfoldable pub table_length : Table → Outcome Failure ℕ
  unfolding array_border has_integer double_up
  table_length body = elim (array_border body) [
    | some border ↦ ok border
    | none ↦
        let filled = length body.array in
        has_integer body (pos (filled + 1)) >>= λ more.
        if more then double_up 64 body filled (filled + 1) else ok filled
  ]

  -- The loop of `insert_new` that looks for the node before `main` on its chain.
  unfoldable pub before_main : ℕ → Table → ℕ → ℕ → Outcome Failure ℕ
  unfolding node_next
  before_main zero body main previous = err endless
  before_main (suc fuel) body main previous = do
    next ← node_next body previous
    after ← expect next
    if after == main then ok previous else before_main fuel body main after

  -- `insert_new`, where the node is another key's and `free` is unused.
  unfoldable pub collide : Table → ℕ → ℕ → Value → Value → Outcome Failure Table
  unfolding node_key key_hash main_position node_next node_value put_node set_node_next before_main
  collide body main free key v = do
    squatter ← node_key body main
    hash ← lift (key_hash strings squatter)
    squatter_main ← expect (main_position body hash)
    if squatter_main == main
        then (node_next body main >>= λ next.
            put_node body free key v next >>= λ chained. set_node_next chained main (some free))
        else (before_main (length body.nodes) body main squatter_main >>= λ previous.
            set_node_next body previous (some free) >>= λ linked.
            node_value linked main >>= λ moved. node_next linked main >>= λ next.
            put_node linked free squatter moved next >>= λ aside. put_node aside main key v none)

  -- The counting loop of `refresh`: keys by slice, and how many integers.
  unfoldable pub count_keys : List (Value × Value) → List ℕ × ℕ → List ℕ × ℕ
  unfolding bucket_of
  count_keys [] counted = counted
  count_keys ((key, v) ∷ entries) (counts, integers) =
      let bucket : Option ℕ = elim key [ int n ↦ bucket_of n | _ ↦ none ] in
      count_keys entries (elim bucket [
        | some b ↦ (set counts b (get_or counts b 0 + 1), integers + 1)
        | none ↦ (counts, integers)
      ])

  -- The last loop of `refresh`.
  unfoldable pub put_all :
      (Table → Value → Value → Outcome Failure Table)
      → Table
      → List (Value × Value)
      → Outcome Failure Table
  unfolding array_set
  put_all insert body [] = ok body
  put_all insert body ((key, v) ∷ entries) =
      let (stored, filled) = array_set body key v in
      (if stored then ok filled else insert body key v) >>= λ next. put_all insert next entries

  -- `refresh`, which inserts by `insert`.
  unfoldable pub refresh :
      (Table → Value → Value → Outcome Failure Table)
      → Layout
      → Table
      → Value
      → Value
      → Outcome Failure Table
  unfolding drain_all count_keys best_array_size rebuild put_all
  refresh insert l body key v =
      let (held, drained) = drain_all body in
      let entries = held ++ ((key, v) ∷ []) in
      let (counts, integers) = count_keys entries (replicate 64 0, 0) in
      let (array_size, in_part) = best_array_size l counts integers in
      put_all insert (rebuild drained array_size (length entries - in_part)) entries

  -- `insert_new`; the fuel is how often it may rebuild the table within a rebuilding.
  unfoldable pub insert_new : ℕ → Layout → Table → Value → Value → Outcome Failure Table
  unfolding key_hash main_position node_is_free put_node take_free collide refresh
  insert_new zero l body key v = err endless
  insert_new (suc fuel) l body key v = do
    hash ← lift (key_hash strings key)
    elim (main_position body hash) [
      | none ↦ refresh (insert_new fuel l) l body key v
      | some main ↦ node_is_free body main >>= λ unused.
          if unused
          then put_node body main key v none
          else (let (found, walked) = take_free body in
              elim found [
                | none ↦ refresh (insert_new fuel l) l walked key v
                | some free ↦ collide walked main free key v
              ])
    ]

  -- `set_in`
  unfoldable pub set_in : ℕ → Layout → Table → Value → Value → Outcome Failure Table
  unfolding array_set find_node set_node_value insert_new
  set_in fuel l body key v =
      let (stored, filled) = array_set body key v in
      if stored
      then ok filled
      else (find_node body key >>= λ found. elim found [
        | some index ↦ set_node_value body index v
        | none ↦ if is_nil v then ok body else insert_new fuel l body key v
      ])

  -- `table_set`
  unfoldable pub table_set : ℕ → Layout → Table → Value → Value → Outcome Failure Table
  unfolding normalize set_in
  table_set fuel l body raw v = lift (normalize raw) >>= λ key. set_in fuel l body key v
