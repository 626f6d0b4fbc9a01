-- ===== src/Runtime/Table/Size.antt =====
-- How big the parts of a table get: `nodes_for`, `bucket_of` and `best_array_size` of
-- crates/ruta-runtime/src/heap/table/store.rs. A `usize` is a word of 64 bits; what `size_of`
-- answers is the compiler's, and is an argument.
use ruta.Prelude.{
  ℕ, zero, suc, ◌+◌, ◌-◌, ◌*◌, ◌/◌, ◌^◌, Bool, ◌&&◌, ltb, leb, ◌==◌, if◌then◌else◌, min, Option,
  none, some, List, [], ◌∷◌,
}
use ruta.Prelude.Int.{ℤ, pos, negsuc}

-- `size_of::<Value>()` and `size_of::<Node>()`.
pub record Layout : Type 0 where
  pub value_size : ℕ
  pub node_size : ℕ

-- `ilog2`, by halving.
unfoldable pub halvings : ℕ → ℕ → ℕ
halvings zero n = 0
halvings (suc fuel) n = let rest = halvings fuel (n / 2) in if leb n 1 then 0 else suc rest

abbrev pub ilog2 : ℕ → ℕ
ilog2 n = halvings 64 n

abbrev pub is_power_of_two : ℕ → Bool
is_power_of_two n = n == 2 ^ ilog2 n

abbrev pub next_power_of_two : ℕ → ℕ
next_power_of_two n = if is_power_of_two n then n else 2 ^ (ilog2 n + 1)

-- `nodes_for`
unfoldable pub nodes_for : ℕ → ℕ
unfolding halvings
nodes_for wanted = if wanted == 0 then 0 else next_power_of_two (wanted + 1)

-- `bucket_of`
unfoldable pub bucket_of : ℤ → Option ℕ
unfolding halvings
bucket_of (negsuc n) = none
bucket_of (pos zero) = none
bucket_of (pos (suc n)) =
    some (if is_power_of_two (suc n) then ilog2 (suc n) else ilog2 (suc n) + 1)

abbrev pub saturating_mul : ℕ → ℕ → ℕ
saturating_mul a b = min (a * b) (2 ^ 64 - 1)

-- `array_is_worth_it`
unfoldable pub array_is_worth_it : Layout → ℕ → ℕ → Bool
array_is_worth_it l slots nodes =
    leb (saturating_mul slots l.value_size) (saturating_mul nodes l.node_size)

-- The loop of `best_array_size`, at a power.
unfoldable pub grow_best : Layout → List ℕ → ℕ → ℕ → ℕ → ℕ × ℕ → ℕ × ℕ
unfolding array_is_worth_it
grow_best l [] integers power covered best = best
grow_best l (count ∷ counts) integers power covered best =
    if covered == integers
    then best
    else grow_best l counts integers (power + 1) (covered + count) (
        if ltb 0 count && array_is_worth_it l (2 ^ power) (covered + count)
        then (2 ^ power, covered + count)
        else best)

-- `best_array_size`
unfoldable pub best_array_size : Layout → List ℕ → ℕ → ℕ × ℕ
unfolding grow_best
best_array_size l counts integers = grow_best l counts integers 0 0 (0, 0)
