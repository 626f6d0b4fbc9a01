-- ===== src/Runtime/Float/Units.antt =====
-- Floors, ceilings and integers in units of the smallest float.
use ruta.Prelude.{arith}
use ruta.Prelude.Int.{ℤ, pos, negsuc, ◌≤ℤ◌, ◌<ℤ◌}
use ruta.Runtime.Float.{floor_units, ceil_units, in_units}

pub floor_units-le : (u : ℤ) → in_units (floor_units u) ≤ℤ u
unfolding floor_units in_units
floor_units-le (pos n) = ground arith
floor_units-le (negsuc n) = ground arith

-- An integer above the floor is above the value, and one at or below it is not.
pub floor_units-lt : (a u : ℤ) → floor_units u <ℤ a → u <ℤ in_units a
unfolding floor_units in_units
floor_units-lt (pos m) (pos n) h = ground arith
floor_units-lt (pos m) (negsuc n) h = ground arith
floor_units-lt (negsuc m) (pos n) h = ground arith
floor_units-lt (negsuc m) (negsuc n) h = ground arith

pub in_units-lt : (a b : ℤ) → a <ℤ b → in_units a <ℤ in_units b
unfolding in_units
in_units-lt (pos m) (pos n) h = ground arith
in_units-lt (pos m) (negsuc n) h = ground arith
in_units-lt (negsuc m) (pos n) h = ground arith
in_units-lt (negsuc m) (negsuc n) h = ground arith

pub in_units-mono : (a b : ℤ) → a ≤ℤ b → in_units a ≤ℤ in_units b
unfolding in_units
in_units-mono (pos m) (pos n) h = ground arith
in_units-mono (pos m) (negsuc n) h = ground arith
in_units-mono (negsuc m) (pos n) h = ground arith
in_units-mono (negsuc m) (negsuc n) h = ground arith

pub ceil_units-le : (u : ℤ) → u ≤ℤ in_units (ceil_units u)
unfolding ceil_units in_units
ceil_units-le (pos n) = ground arith
ceil_units-le (negsuc n) = ground arith

-- An integer below the ceiling is below the value.
pub ceil_units-lt : (a u : ℤ) → a <ℤ ceil_units u → in_units a <ℤ u
unfolding ceil_units in_units
ceil_units-lt (pos m) (pos n) h = ground arith
ceil_units-lt (pos m) (negsuc n) h = ground arith
ceil_units-lt (negsuc m) (pos n) h = ground arith
ceil_units-lt (negsuc m) (negsuc n) h = ground arith
