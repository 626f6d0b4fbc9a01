-- ===== src/Runtime/Table/Overwrite/Chains.antt =====
-- Bodies of tables whose chains agree: a lookup ends alike in them.
use ruta.Prelude.{
  ltb, ◌==◌, ◌-◌, Bool-cases, Option-cases, subst, ℕ, zero, suc, ◌<◌, ◌≡◌, inl, inr, refl, ap, sym,
  ◌∙◌, arith, if◌then◌else◌, Option, none, some, List, [], ◌∷◌, length, get_elem?-lt, get_elem?,
  set, length-set, Outcome, ok, err, panic, expect, ◌>>=◌,
}
use Prim.Native.Nat.{bit_and}
use ruta.Prelude.Int.{pos, negsuc}
use ruta.Runtime.Value.{Value, nil, bool, int, float, str, table, func, user_data, thread}
use ruta.Runtime.Table.{Table, Node, array_index, main_position, node_key, node_next}
use ruta.Runtime.Table.Key.{key_hash, keys_equal}
use ruta.Runtime.Table.Access.{Failure, lift, find_from, find_node}

-- A field that a write does not change reads as before everywhere.
read-set {ℓ κ} :
    {A : Type ℓ} {B : Type κ} (field : A → B) (xs : List A) (i j : ℕ) (old v : A)
    → get_elem? xs i ≡ some old
    → field v ≡ field old
    → (expect {E = Failure} (get_elem? (set xs i v) j) >>= λ a. ok (field a))
      ≡ (expect (get_elem? xs j) >>= λ a. ok (field a))
read-set field [] i j old v h e = refl
read-set field (x ∷ xs) zero zero old v h e =
    let same : x ≡ old = cc h in ap (λ b. ok b) (e ∙ ap field (sym same))
read-set field (x ∷ xs) zero (suc j) old v h e = refl
read-set field (x ∷ xs) (suc i) zero old v h e = refl
read-set field (x ∷ xs) (suc i) (suc j) old v h e = read-set field xs i j old v h e

-- A bind that answers had an answer to go on with.
>>=-ok {ℓ κ} :
    {A : Type ℓ} {B : Type κ} (o : Outcome Failure A) (f : A → Outcome Failure B) (b : B)
    → (o >>= f) ≡ ok b
    → (a : A) × (o ≡ ok a) × (f a ≡ ok b)
>>=-ok (ok a) f b h = (a, refl, h)
>>=-ok (err e) f b h = absurd cc
>>=-ok panic f b h = absurd cc

array_index-lt : (b : Table) (key : Value) (i : ℕ) → array_index b key ≡ some i → i < length b.array
unfolding array_index
array_index-lt b (int (pos (suc n))) i h = ground arith
array_index-lt b key i h = absurd cc

pub array_index-there :
    (b : Table) (key : Value) (i : ℕ)
    → array_index b key ≡ some i
    → (v : Value) × (get_elem? b.array i ≡ some v)
array_index-there b key i h = get_elem?-lt b.array i (array_index-lt b key i h)

-- Two bodies with the same chains of keys and parts of the same sizes.
pub record Agrees (b c : Table) : Type 0 where
  keys : (j : ℕ) → node_key {E = Failure} b j ≡ node_key c j
  nexts : (j : ℕ) → node_next {E = Failure} b j ≡ node_next c j
  slots : length b.array ≡ length c.array
  nodes : length b.nodes ≡ length c.nodes

pub array_index-Agrees :
    (b c : Table) (key : Value) → Agrees b c → array_index b key ≡ array_index c key
unfolding array_index
array_index-Agrees b c nil a = refl
array_index-Agrees b c (bool flag) a = refl
array_index-Agrees b c (int (pos zero)) a = refl
array_index-Agrees b c (int (pos (suc n))) a = ap (λ k. if ltb n k then some n else none) a.slots
array_index-Agrees b c (int (negsuc n)) a = refl
array_index-Agrees b c (float n) a = refl
array_index-Agrees b c (str n) a = refl
array_index-Agrees b c (table n) a = refl
array_index-Agrees b c (func n) a = refl
array_index-Agrees b c (user_data n) a = refl
array_index-Agrees b c (thread n) a = refl

pub Agrees-array : (b : Table) (i : ℕ) (v : Value) → Agrees (record b { array = set b.array i v }) b
unfolding node_key node_next
Agrees-array b i v = record {
  keys = λ j. refl;
  nexts = λ j. refl;
  slots = length-set b.array i v;
  nodes = refl;
}

pub Agrees-node :
    (b : Table) (i : ℕ) (n : Node) (v : Value)
    → get_elem? b.nodes i ≡ some n
    → Agrees (record b { nodes = set b.nodes i (record n { value = v }) }) b
unfolding node_key node_next
Agrees-node b i n v h =
    let new : Node = record n { value = v } in
    record {
      keys = λ j. read-set (λ (m : Node). m.key) b.nodes i j n new h refl;
      nexts = λ j. read-set (λ (m : Node). m.next) b.nodes i j n new h refl;
      slots = refl;
      nodes = length-set b.nodes i new;
    }

module _ (strings : ℕ → List ℕ) where
  find_from-Agrees :
      (fuel : ℕ) (b c : Table) (key : Value) (index : ℕ)
      → Agrees b c
      → find_from strings fuel b key index ≡ find_from strings fuel c key index
  unfolding find_from
  find_from-Agrees zero b c key index a = refl
  find_from-Agrees (suc fuel) b c key index a = λ t. a.keys index t >>= λ found.
      if keys_equal strings found key
      then ok (some index)
      else (a.nexts index t >>= λ next. elim next [
        | none ↦ ok none
        | some after ↦ find_from-Agrees fuel b c key after a t
      ])

  pub find_node-Agrees :
      (b c : Table) (key : Value) → Agrees b c → find_node strings b key ≡ find_node strings c key
  unfolding find_node main_position
  find_node-Agrees b c key a = λ t. lift (key_hash strings key) >>= λ hash.
      elim (if a.nodes t == 0 then none else some (bit_and hash (a.nodes t - 1))) [
        | none ↦ ok none
        | some main ↦
            (ap (λ fuel. find_from strings fuel b key main) a.nodes
                ∙ find_from-Agrees (length c.nodes) b c key main a)
              t
      ]

  -- A node that is found is there.
  find_from-there :
      (fuel : ℕ) (b : Table) (key : Value) (index i : ℕ)
      → find_from strings fuel b key index ≡ ok (some i)
      → (n : Node) × (get_elem? b.nodes i ≡ some n)
  unfolding find_from node_key node_next
  find_from-there zero b key index i h = absurd cc
  find_from-there (suc fuel) b key index i h = elim (Option-cases (get_elem? b.nodes index)) [
    | inl e ↦
        let p : find_from strings (suc fuel) b key index ≡ panic = rw (e, find_from) in
        absurd (cc (h, p))
    | inr (n, e) ↦ elim (Bool-cases (keys_equal strings n.key key)) [
      | inl k ↦
          let p : find_from strings (suc fuel) b key index ≡ ok (some index) =
            rw (e, k, find_from) in
          let same : index ≡ i = cc (h, p) in (n, subst (λ j. get_elem? b.nodes j ≡ some n) same e)
      | inr k ↦ elim (Option-cases n.next) [
        | inl x ↦
            let p : find_from strings (suc fuel) b key index ≡ ok none = rw (e, k, x, find_from) in
            absurd (cc (h, p))
        | inr (after, x) ↦
            let p : find_from strings (suc fuel) b key index ≡ find_from strings fuel b key after =
              rw (e, k, x, find_from) in
            find_from-there fuel b key after i (sym p ∙ h)
      ]
    ]
  ]

  pub find_node-there :
      (b : Table) (key : Value) (i : ℕ)
      → find_node strings b key ≡ ok (some i)
      → (n : Node) × (get_elem? b.nodes i ≡ some n)
  unfolding find_node
  find_node-there b key i h =
      let (hash, e, f) = >>=-ok (lift (key_hash strings key)) _ (some i) h in
      elim (Option-cases (main_position b hash)) [
        | inl m ↦ absurd (
            cc (
              sym (
                ap
                  (λ (o : Option ℕ). elim o [
                    | none ↦ ok none
                    | some main ↦ find_from strings (length b.nodes) b key main
                  ])
                  m)
              ∙ f))
        | inr (main, m) ↦ find_from-there (length b.nodes) b key main i (
            sym (
              ap
                (λ (o : Option ℕ). elim o [
                  | none ↦ ok none
                  | some start ↦ find_from strings (length b.nodes) b key start
                ])
                m)
            ∙ f)
      ]
