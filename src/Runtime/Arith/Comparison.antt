-- ===== src/Runtime/Arith/Comparison.antt =====
-- Equality and order of values: `equal` and `compare` of crates/ruta-runtime/src/vm/arith.rs.
-- `strings` is what the heap holds for each handle of a string. The error is the two types' names.
use Prim.Native.Nat.{Ordering}
use Prim.Native.String.{String}
use ruta.Prelude.{
  same_bytes, ℕ, ◌≡◌, refl, ap, ◌∙◌, Bool, true, false, ◌||◌, ◌==◌, Option, some, List, [], ◌∷◌,
  Outcome, ok, err, ◌>>=◌,
}
use ruta.Runtime.Value.{Value, nil, bool, str, table, func, user_data, thread, type_name}
use ruta.Runtime.Arith.{Compare, lt, le, gt, ge, Num, int_num, float_num, number, order}
use ruta.Runtime.Arith.Exact.{exact, exact_order, IsNum, value_of, order-exact}
use ruta.Runtime.Table.Key.{eqb_flag}

abbrev is_equal : Option Ordering → Bool
is_equal (some Ordering.eq) = true
is_equal _ = false

abbrev is_less : Option Ordering → Bool
is_less (some Ordering.lt) = true
is_less _ = false

abbrev is_at_most : Option Ordering → Bool
is_at_most (some Ordering.lt) = true
is_at_most (some Ordering.eq) = true
is_at_most _ = false

-- The last case of `equal`.
unfoldable pub equal_numbers : Option Num → Option Num → Bool
unfolding order
equal_numbers (some left) (some right) = is_equal (order left right)
equal_numbers _ _ = false

-- `equal`
unfoldable pub equal : (ℕ → List ℕ) → Value → Value → Bool
unfolding same_bytes equal_numbers number
equal strings nil nil = true
equal strings (bool left) (bool right) = eqb_flag left right
equal strings (str left) (str right) = (left == right) || same_bytes (strings left) (strings right)
equal strings (table left) (table right) = left == right
equal strings (func left) (func right) = left == right
equal strings (user_data left) (user_data right) = left == right
equal strings (thread left) (thread right) = left == right
equal strings left right = equal_numbers (number left) (number right)

-- `cmp` of two slices of bytes.
unfoldable pub compare_bytes : List ℕ → List ℕ → Ordering
compare_bytes [] [] = Ordering.eq
compare_bytes [] (b ∷ bs) = Ordering.lt
compare_bytes (a ∷ rest) [] = Ordering.gt
compare_bytes (a ∷ rest) (b ∷ bs) = elim (Prim.Native.Nat.compare a b) [
  | Ordering.lt ↦ Ordering.lt
  | Ordering.gt ↦ Ordering.gt
  | Ordering.eq ↦ compare_bytes rest bs
]

pub data Incomparable : Type 0 where
  incomparable : String → String → Incomparable

abbrev numbers_ordering :
    Value → Value → Option Num → Option Num → Outcome Incomparable (Option Ordering)
numbers_ordering left right (some a) (some b) = ok (order a b)
numbers_ordering left right _ _ = err (incomparable (type_name left) (type_name right))

-- The ordering that `compare` works out.
unfoldable pub ordering : (ℕ → List ℕ) → Value → Value → Outcome Incomparable (Option Ordering)
unfolding compare_bytes number order type_name
ordering strings (str left) (str right) = ok (some (compare_bytes (strings left) (strings right)))
ordering strings left right = numbers_ordering left right (number left) (number right)

-- `compare`
unfoldable pub compare : (ℕ → List ℕ) → Compare → Value → Value → Outcome Incomparable Bool
unfolding ordering
compare strings lt left right = ordering strings left right >>= λ o. ok (is_less o)
compare strings le left right = ordering strings left right >>= λ o. ok (is_at_most o)
compare strings gt left right = ordering strings right left >>= λ o. ok (is_less o)
compare strings ge left right = ordering strings right left >>= λ o. ok (is_at_most o)

equal-value_of :
    (strings : ℕ → List ℕ) (a b : Num)
    → equal strings (value_of a) (value_of b) ≡ is_equal (order a b)
unfolding equal value_of equal_numbers number
equal-value_of strings (int_num a) (int_num b) = refl
equal-value_of strings (int_num a) (float_num b) = refl
equal-value_of strings (float_num a) (int_num b) = refl
equal-value_of strings (float_num a) (float_num b) = refl

ordering-value_of :
    (strings : ℕ → List ℕ) (a b : Num) → ordering strings (value_of a) (value_of b) ≡ ok (order a b)
unfolding ordering value_of number
ordering-value_of strings (int_num a) (int_num b) = refl
ordering-value_of strings (int_num a) (float_num b) = refl
ordering-value_of strings (float_num a) (int_num b) = refl
ordering-value_of strings (float_num a) (float_num b) = refl

-- What each comparison of two numbers answers, by the order of their exact values.
abbrev pub Compares : (ℕ → List ℕ) → Num → Num → Option Ordering → Option Ordering → Type 0
Compares strings a b forth back =
    (equal strings (value_of a) (value_of b) ≡ is_equal forth)
    × (compare strings lt (value_of a) (value_of b) ≡ ok (is_less forth))
    × (compare strings le (value_of a) (value_of b) ≡ ok (is_at_most forth))
    × (compare strings gt (value_of a) (value_of b) ≡ ok (is_less back))
    × (compare strings ge (value_of a) (value_of b) ≡ ok (is_at_most back))

-- For integers that are `i64`s and any floats, all five comparisons of two numbers succeed and answer
-- by the order of the exact values, and false where one of them is a NaN.
pub numbers-Compares :
    (strings : ℕ → List ℕ) (a b : Num)
    → IsNum a
    → IsNum b
    → Compares strings a b (exact_order (exact a) (exact b)) (exact_order (exact b) (exact a))
unfolding compare
numbers-Compares strings a b ha hb =
    let forth = order-exact a b ha hb in
    let back = order-exact b a hb ha in
    let ahead = ordering-value_of strings a b ∙ ap (λ o. ok o) forth in
    let behind = ordering-value_of strings b a ∙ ap (λ o. ok o) back in
    (
      equal-value_of strings a b ∙ ap is_equal forth,
      ap (λ r. r >>= λ o. ok (is_less o)) ahead,
      ap (λ r. r >>= λ o. ok (is_at_most o)) ahead,
      ap (λ r. r >>= λ o. ok (is_less o)) behind,
      ap (λ r. r >>= λ o. ok (is_at_most o)) behind,
    )
