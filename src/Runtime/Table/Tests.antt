-- ===== src/Runtime/Table/Tests.antt =====
-- Runs of the table's theorems on concrete tables.
use ruta.Prelude.{ℕ, ◌≡◌, refl, arith, none, List, [], ◌∷◌, ok, true, if◌then◌else◌}
use ruta.Prelude.Int.{pos}
use ruta.Runtime.Float.{units, in_units, is_nan}
use ruta.Runtime.Value.{Value, nil, int, bool}
use ruta.Runtime.Arith.{int_num, float_num}
use ruta.Runtime.Arith.Exact.{exact, value_of}
use ruta.Runtime.Table.{Table, array_border, array_index}
use ruta.Runtime.Table.Size.{Layout, best_array_size, bucket_of}
use ruta.Runtime.Table.Key.{normalize, keys_equal}
use ruta.Runtime.Table.Access.{find_node, table_get, table_set}
use ruta.Runtime.Table.Border.{Answers, array_border-Answers}
use ruta.Runtime.Table.Sizing.{sum, IsLargest, best_array_size-IsLargest}
use ruta.Runtime.Table.Bucket.{InBucket, bucket_of-InBucket}
use ruta.Runtime.Table.Numbers.{keys_equal-exact}
use ruta.Runtime.Table.Overwrite.{slot, node, same_place, table_set-table_get}

abbrev half_full : Table
half_full = record { array = int (pos 5) ∷ int (pos 6) ∷ nil ∷ nil ∷ []; nodes = []; free = 0 }

array_border-Answers_example : Answers half_full.array (array_border half_full)
array_border-Answers_example = array_border-Answers half_full

abbrev sizes : Layout
sizes = record { value_size = 16; node_size = 40 }

best_array_size-IsLargest_example :
    IsLargest sizes
      (1 ∷ 1 ∷ 2 ∷ 0 ∷ 1 ∷ [])
      0
      0
      (0, 0)
      (best_array_size sizes (1 ∷ 1 ∷ 2 ∷ 0 ∷ 1 ∷ []) 5)
unfolding sum
best_array_size-IsLargest_example = best_array_size-IsLargest sizes (1 ∷ 1 ∷ 2 ∷ 0 ∷ 1 ∷ []) 5 refl

bucket_of-InBucket_example : InBucket (pos 5) (bucket_of (pos 5))
bucket_of-InBucket_example = bucket_of-InBucket (pos 5) (omega arith)

abbrev no_strings : ℕ → List ℕ
no_strings handle = []

-- The bits of 1.0.
abbrev one : ℕ
one = 0x3ff0000000000000

-- 1 and 1.0 are the same key.
keys_equal-exact_example :
    (k : Value) × (l : Value) × (normalize (value_of (int_num (pos 1))) ≡ ok k)
    × (normalize (value_of (float_num one)) ≡ ok l)
    × ((keys_equal no_strings k l ≡ true → in_units (pos 1) ≡ units one)
        × (in_units (pos 1) ≡ units one → keys_equal no_strings k l ≡ true))
unfolding exact is_nan
keys_equal-exact_example =
    keys_equal-exact no_strings (int_num (pos 1)) (float_num one) (in_units (pos 1)) (units one)
      (omega arith) (omega arith) refl refl

-- One key in each part.
abbrev mixed : Table
mixed = record {
  array = int (pos 5) ∷ [];
  nodes = record { key = bool true; value = int (pos 7); next = none } ∷ [];
  free = 0;
}

table_set-table_get_example :
    (c : Table) × (table_set no_strings 1 sizes mixed (bool true) (int (pos 8)) ≡ ok c)
    × (table_get no_strings c (int (pos 1)) ≡ (
        if same_place (node 0) (slot 0)
        then ok (int (pos 8))
        else table_get no_strings mixed (int (pos 1))))
unfolding normalize array_index find_node
table_set-table_get_example =
    table_set-table_get no_strings 1 sizes mixed (bool true) (bool true) (int (pos 8)) (int (pos 1))
      (int (pos 1)) (node 0) (slot 0) refl (refl, refl) (λ e. cc) refl refl
