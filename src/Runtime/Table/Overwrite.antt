-- ===== src/Runtime/Table/Overwrite.antt =====
-- Writing to a key that a table already holds: `table_set` and `table_get` of
-- crates/ruta-runtime/src/heap/table/access.rs.
mod Chains
use ruta.Prelude.{
  ltb, ◌==◌, ◌-◌, Bool-cases, Option-cases, subst, ℕ, zero, suc, ◌<◌, ◌≡◌, ◌≢◌, inl, inr, refl, ap,
  sym, ◌∙◌, arith, Bool, false, if◌then◌else◌, Option, none, some, List, [], ◌∷◌, length, get_elem?,
  get_elem?-set, get_elem?-set_other, set, Outcome, ok, err, panic, expect, ◌>>=◌,
}
use Prim.Native.Nat.{bit_and}
use ruta.Prelude.Int.{pos, negsuc}
use ruta.Runtime.Value.{Value, nil, bool, int, float, str, table, func, user_data, thread}
use ruta.Runtime.Table.{
  Table, Node, array_index, array_get, array_set, main_position, node_key, node_value, node_next,
  set_node_value,
}
use ruta.Runtime.Table.Size.{Layout}
use ruta.Runtime.Table.Key.{normalize, key_hash, keys_equal}
use ruta.Runtime.Table.Access.{Failure, lift, find_from, find_node, table_get, set_in, table_set}
use Chains.{
  array_index-there, Agrees, array_index-Agrees, Agrees-array, Agrees-node, find_node-Agrees,
  find_node-there,
}

pub data Place : Type 0 where
  slot node : ℕ → Place
  nowhere : Place

abbrev pub same_place : Place → Place → Bool
same_place (slot i) (slot j) = i == j
same_place (node i) (node j) = i == j
same_place p q = false

module _ (strings : ℕ → List ℕ) where
  -- Where a table holds a normalized key: in a slot of the array part, in a node, or nowhere.
  abbrev pub Holds : Table → Value → Place → Type 0
  Holds b key (slot i) = array_index b key ≡ some i
  Holds b key (node i) = (array_index b key ≡ none) × (find_node strings b key ≡ ok (some i))
  Holds b key nowhere = (array_index b key ≡ none) × (find_node strings b key ≡ ok none)

  Holds-Agrees :
      (b c : Table) (key : Value) (p : Place) → Agrees b c → Holds c key p → Holds b key p
  Holds-Agrees b c key (slot i) a h = array_index-Agrees b c key a ∙ h
  Holds-Agrees b c key (node i) a h =
      (array_index-Agrees b c key a ∙ h.0, find_node-Agrees strings b c key a ∙ h.1)
  Holds-Agrees b c key nowhere a h =
      (array_index-Agrees b c key a ∙ h.0, find_node-Agrees strings b c key a ∙ h.1)

  -- What `table_get` reads at a place.
  unfoldable read_at : Table → Place → Outcome Failure Value
  unfolding node_value
  read_at b (slot i) = expect (get_elem? b.array i)
  read_at b (node i) = node_value b i
  read_at b nowhere = ok nil

  table_get-Holds :
      (b : Table) (raw key : Value) (p : Place)
      → normalize raw ≡ ok key
      → Holds b key p
      → table_get strings b raw ≡ read_at b p
  unfolding table_get array_get read_at
  table_get-Holds b raw key (slot i) h w =
      let (v, e) = array_index-there b key i w in rw (h, w, e, table_get)
  table_get-Holds b raw key (node i) h w = rw (h, w.0, w.1, table_get)
  table_get-Holds b raw key nowhere h w = rw (h, w.0, w.1, table_get)

  read-slot :
      (b : Table) (i : ℕ) (old v : Value) (q : Place)
      → get_elem? b.array i ≡ some old
      → read_at (record b { array = set b.array i v }) q
        ≡ (if same_place (slot i) q then ok v else read_at b q)
  unfolding read_at node_value
  read-slot b i old v (slot j) h = elim (Bool-cases (i == j)) [
    | inl e ↦
        let same : i ≡ j = ground arith in
        let read =
          ap (λ (o : Option Value). expect {E = Failure} o) (get_elem?-set b.array i old v h) in
        rw e (subst (λ k. expect {E = Failure} (get_elem? (set b.array i v) k) ≡ ok v) same read)
    | inr e ↦ rw (e, get_elem?-set_other b.array i j v (ground arith))
  ]
  read-slot b i old v (node j) h = refl
  read-slot b i old v nowhere h = refl

  read-node :
      (b : Table) (i : ℕ) (n : Node) (v : Value) (q : Place)
      → get_elem? b.nodes i ≡ some n
      → read_at (record b { nodes = set b.nodes i (record n { value = v }) }) q
        ≡ (if same_place (node i) q then ok v else read_at b q)
  unfolding read_at node_value
  read-node b i n v (slot j) h = refl
  read-node b i n v (node j) h =
      let new : Node = record n { value = v } in
      elim (Bool-cases (i == j)) [
        | inl e ↦
            let same : i ≡ j = ground arith in
            let read =
              ap (λ (o : Option Node). expect {E = Failure} o >>= λ m. ok m.value)
                (get_elem?-set b.nodes i n new h) in
            rw e (
              subst
                (λ k.
                  (expect {E = Failure} (get_elem? (set b.nodes i new) k) >>= λ m. ok m.value)
                  ≡ ok v)
                same read)
        | inr e ↦ rw (e, get_elem?-set_other b.nodes i j new (ground arith))
      ]
  read-node b i n v nowhere h = refl

  set_in-slot :
      (fuel : ℕ) (l : Layout) (b : Table) (key v : Value) (i : ℕ)
      → array_index b key ≡ some i
      → set_in strings fuel l b key v ≡ ok (record b { array = set b.array i v })
  unfolding set_in array_set
  set_in-slot fuel l b key v i h = rw (h, array_set)

  set_in-node :
      (fuel : ℕ) (l : Layout) (b : Table) (key v : Value) (i : ℕ) (n : Node)
      → array_index b key ≡ none
      → find_node strings b key ≡ ok (some i)
      → get_elem? b.nodes i ≡ some n
      → set_in strings fuel l b key v
        ≡ ok (record b { nodes = set b.nodes i (record n { value = v }) })
  unfolding set_in array_set set_node_value
  set_in-node fuel l b key v i n h f e = rw (h, f, e, array_set)

  table_set-Holds :
      (fuel : ℕ) (l : Layout) (b : Table) (raw key v : Value) (p : Place)
      → normalize raw ≡ ok key
      → Holds b key p
      → p ≢ nowhere
      → (c : Table) × (table_set strings fuel l b raw v ≡ ok c)
        × Agrees c b
        × ((q : Place) → read_at c q ≡ (if same_place p q then ok v else read_at b q))
  unfolding table_set
  table_set-Holds fuel l b raw key v (slot i) h w x =
      let (old, e) = array_index-there b key i w in
      (
        record b { array = set b.array i v },
        ap (λ o. lift o >>= λ k. set_in strings fuel l b k v) h ∙ set_in-slot fuel l b key v i w,
        Agrees-array b i v,
        λ q. read-slot b i old v q e,
      )
  table_set-Holds fuel l b raw key v (node i) h w x =
      let (n, e) = find_node-there strings b key i w.1 in
      (
        record b { nodes = set b.nodes i (record n { value = v }) },
        ap (λ o. lift o >>= λ k. set_in strings fuel l b k v) h
            ∙ set_in-node fuel l b key v i n w.0 w.1 e,
        Agrees-node b i n v e,
        λ q. read-node b i n v q e,
      )
  table_set-Holds fuel l b raw key v nowhere h w x = absurd (x refl)

-- Writing any value to a key that the table holds, in its array part or in a node, succeeds without
-- rebuilding the table; after it every key, where a lookup ends at a place or in none, reads the new
-- value if it is at the same place, and what it read before otherwise.
pub table_set-table_get :
    (strings : ℕ → List ℕ) (fuel : ℕ) (l : Layout) (b : Table) (raw key v raw' key' : Value)
    (p q : Place)
    → normalize raw ≡ ok key
    → Holds strings b key p
    → p ≢ nowhere
    → normalize raw' ≡ ok key'
    → Holds strings b key' q
    → (c : Table) × (table_set strings fuel l b raw v ≡ ok c)
      × (table_get strings c raw' ≡ (if same_place p q then ok v else table_get strings b raw'))
table_set-table_get strings fuel l b raw key v raw' key' p q h w x h' w' =
    let (c, set_path, agrees, reads) = table_set-Holds strings fuel l b raw key v p h w x in
    let before = table_get-Holds strings b raw' key' q h' w' in
    let after =
      table_get-Holds strings c raw' key' q h' (Holds-Agrees strings c b key' q agrees w') in
    (
      c,
      set_path,
      (after
          ∙ reads q
          ∙ ap (λ (o : Outcome Failure Value). if same_place p q then ok v else o) (sym before)),
    )
