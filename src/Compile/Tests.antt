-- ===== src/Compile/Tests.antt =====
-- Runs of the theorems on a concrete pool.
use ruta.Prelude.{zero, suc, ℕ, ◌^◌, ◌≡◌, refl, arith, some, [], ◌∷◌, take, get_elem?, ok}
use ruta.Bytecode.Prototype as Code
use ruta.Bytecode.Prototype.{Constant}
use ruta.Compile.Pool.{Pool, intern, float}
use ruta.Compile.Pool.Places.{IsPool, intern-IsPool}

-- A pool with one name in it.
abbrev one_name : Pool
one_name = record { constants = Code.str (120 ∷ []) ∷ [] }

one_name-IsPool : IsPool one_name.constants
one_name-IsPool zero zero constant e g = refl
one_name-IsPool zero (suc j) constant e g = absurd cc
one_name-IsPool (suc i) j constant e g = absurd cc

-- The float -0.0 in a new place.
intern-IsPool_example :
    (r : ℕ × Pool) × (intern one_name (float (2 ^ 63)) ≡ ok r)
    × (get_elem? r.1.constants r.0 ≡ some (Code.float (2 ^ 63)))
    × IsPool r.1.constants
    × (take 1 r.1.constants ≡ one_name.constants)
intern-IsPool_example =
    intern-IsPool one_name (float (2 ^ 63)) (Code.float (2 ^ 63)) one_name-IsPool (omega arith) refl
