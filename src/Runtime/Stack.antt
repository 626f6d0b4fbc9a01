-- ===== src/Runtime/Stack.antt =====
-- The value stack and the frame stack: crates/ruta-runtime/src/stack/frame.rs and values.rs.
pub mod Windows
mod Tests
use ruta.Prelude.{
  ℕ, zero, suc, ◌+◌, ◌-◌, ◌%◌, ◌^◌, ltb, leb, ◌&&◌, if◌then◌else◌, Option, none, some, List, [],
  ◌∷◌, ◌++◌, length, get_elem?, set, take, drop, replicate, ok, panic, expect, ◌>>=◌,
}
use ruta.Runtime.Value.{Value, nil}
use ruta.Runtime.Heap.{Run}

pub data Want : Type 0 where
  exactly : ℕ → Want
  all : Want

-- `Frame::Lua`, the only kind of frame.
pub record Frame : Type 0 where
  pub func : ℕ
  pub base : ℕ
  pub top : ℕ
  pub pc : ℕ
  pub want : Want
  pub ret_to : ℕ
  pub varargs : ℕ

-- The frame that runs is the first of `frames`.
pub record Stack : Type 0 where
  pub values : List Value
  pub frames : List Frame

-- A slice `&values[from..to]`.
abbrev slice : List Value → ℕ → ℕ → Run (List Value)
slice values from to =
    if leb from to && leb to (length values)
    then ok (take (to - from) (drop from values))
    else panic

-- `Frame::roots`: the values that it visits.
unfoldable pub frame_roots : Frame → List Value → Run (List Value)
frame_roots frame values =
    if ltb frame.base frame.varargs
    then panic
    else slice values (frame.base - frame.varargs) frame.top

unfoldable pub roots_of : List Frame → List Value → Run (List Value)
unfolding frame_roots
roots_of [] values = ok []
roots_of (frame ∷ frames) values = do
  later ← roots_of frames values
  own ← frame_roots frame values
  ok (later ++ own)

-- `Stack::roots`, from the outermost frame on.
unfoldable pub roots : Stack → Run (List Value)
unfolding roots_of
roots s = roots_of s.frames s.values

-- `depth`
abbrev pub depth : Stack → ℕ
depth s = length s.frames

-- `enter`
abbrev pub enter : Stack → Frame → Stack
enter s frame = record s { frames = frame ∷ s.frames }

abbrev left_of : Stack → List Frame → Option Frame × Stack
left_of s [] = (none, s)
left_of s (frame ∷ frames) = (some frame, record s { frames = frames })

-- `leave`
abbrev pub leave : Stack → Option Frame × Stack
leave s = left_of s s.frames

-- `current`
abbrev pub current : Stack → Run Frame
current s = expect (get_elem? s.frames 0)

-- `current_mut`, with what is written through it
abbrev pub set_current : Stack → (Frame → Frame) → Run Stack
set_current s change =
    current s >>= λ frame. ok (record s { frames = set s.frames 0 (change frame) })

-- `height`
abbrev pub height : Stack → ℕ
height s = length s.values % 2 ^ 32

-- `at`
abbrev pub at : Stack → ℕ → Run Value
at s index = expect (get_elem? s.values index)

-- `put`
unfoldable pub put : Stack → ℕ → Value → Run Stack
put s index value =
    if ltb index (length s.values)
    then ok (record s { values = set s.values index value })
    else panic

-- `reserve`
unfoldable pub reserve : Stack → ℕ → Stack
reserve s height =
    if ltb (length s.values) height
    then record s { values = s.values ++ replicate (height - length s.values) nil }
    else s

-- The loop of `fill`, over so many slots.
unfoldable pub fill_from : ℕ → Stack → ℕ → Value → Run Stack
unfolding put
fill_from zero s index value = ok s
fill_from (suc count) s index value =
    put s index value >>= λ after. fill_from count after (index + 1) value

-- `fill`
unfoldable pub fill : Stack → ℕ → ℕ → Value → Run Stack
unfolding fill_from
fill s from to value = fill_from (to - from) s from value

-- `shift`, by `copy_within`
unfoldable pub shift : Stack → ℕ → ℕ → ℕ → Run Stack
shift s from to count =
    if leb (from + count) (length s.values) && leb (to + count) (length s.values)
    then ok (record s {
      values = take to s.values ++ (take count (drop from s.values) ++ drop (to + count) s.values);
    })
    else panic

-- `push`
abbrev pub push : Stack → Value → Stack
push s value = record s { values = s.values ++ (value ∷ []) }

-- `truncate`
abbrev pub truncate : Stack → ℕ → Stack
truncate s height = record s { values = take height s.values }
