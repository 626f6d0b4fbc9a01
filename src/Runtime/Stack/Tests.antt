-- ===== src/Runtime/Stack/Tests.antt =====
-- Runs of the theorems on the stack at a concrete one.
use ruta.Prelude.{◌≡◌, arith, length, some, [], ◌∷◌, get_elem?, ok}
use ruta.Prelude.Int.{pos}
use ruta.Runtime.Value.{nil, int}
use ruta.Runtime.Stack.{Stack, fill, shift}
use ruta.Runtime.Stack.Windows.{fill-slots, shift-slots}

abbrev stack : Stack
stack = record { values = int (pos 1) ∷ int (pos 2) ∷ int (pos 3) ∷ int (pos 4) ∷ []; frames = [] }

fill-slots_example :
    (after : Stack) × (fill stack 1 3 nil ≡ ok after)
    × (length after.values ≡ 4)
    × (after.frames ≡ [])
    × (get_elem? after.values 2 ≡ some nil)
fill-slots_example = fill-slots stack 1 3 nil 2 (omega arith) (omega arith)

-- The windows overlap.
shift-slots_example :
    (after : Stack) × (shift stack 0 1 3 ≡ ok after)
    × (after.frames ≡ [])
    × (get_elem? after.values 2 ≡ some (int (pos 2)))
shift-slots_example = shift-slots stack 0 1 3 2 (omega arith) (omega arith)
