-- ===== src/Runtime/Machine/Settling.antt =====
-- Where a call's results land: `settle` of crates/ruta-runtime/src/vm/call.rs.
use ruta.Prelude.{
  ℕ, ◌+◌, ◌-◌, ◌<◌, min, if◌then◌else◌, Option, some, List, [], ◌∷◌, length, get_elem?,
}
use ruta.Runtime.Value.{Value, nil}
use ruta.Runtime.Stack.{Stack, Frame, Want, exactly, all}
use ruta.Runtime.Stack.Windows.{inside}

-- The frames after a call's results have been moved.
abbrev pub settled_frames : Want → ℕ → List Frame → List Frame
settled_frames (exactly count) end frames = frames
settled_frames all end [] = []
settled_frames all end (frame ∷ frames) = record frame { top = end } ∷ frames

-- A row of all results needs a frame to end in.
abbrev pub HasFrame : Want → List Frame → Type 0
HasFrame (exactly count) frames = Unit
HasFrame all frames = 0 < length frames

-- What stands in a slot of the stack once so many results have been moved from one slot to another and
-- a number of them is kept: a result, the nil of a missing one, or what stood there before.
abbrev pub landed : List Value → ℕ → ℕ → ℕ → ℕ → ℕ → Option Value
landed values from to produced kept i =
    if inside to (min produced kept) i
    then get_elem? values (from + (i - to))
    else if inside to kept i
    then some nil
    else get_elem? values i
