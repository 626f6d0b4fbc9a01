-- ===== src/Bytecode/RoundTrip/Operands.antt =====
-- The operands of an instruction: `read_operands` reads what `Encoder::write` appended.
use mathlib.Core.List.{append_assoc}
use ruta.Prelude.{
  ℕ, ◌+◌, ◌^◌, ◌<◌, ◌≤◌, ◌≡◌, refl, ◌∙◌, arith, List, [], ◌∷◌, ◌++◌, some, length, take, drop,
  length-append, drop-append, take-append, ok,
}
use ruta.Bytecode.OpCode.{Operand, u8, u16, u32, i32, width, total}
use ruta.Bytecode.Encode.{to_le_bytes, operand_bytes}
use ruta.Bytecode.Decode.{slice, from_le_bytes, read_slots}

-- Each word fits the operand that it is written as, and there is a word for each operand.
abbrev pub Fits : List ℕ → List Operand → Type 0
Fits [] [] = Unit
Fits [] (kind ∷ kinds) = ⊥
Fits (raw ∷ raws) [] = ⊥
Fits (raw ∷ raws) (kind ∷ kinds) = (raw < 256 ^ width kind) × Fits raws kinds

operand : Operand → ℕ → List ℕ
unfolding width to_le_bytes
operand kind raw = take (width kind) (to_le_bytes raw)

length-operand : (kind : Operand) (raw : ℕ) → length (operand kind raw) ≡ width kind
unfolding operand
length-operand u8 raw = refl
length-operand _ raw = refl

from_le_bytes-operand :
    (kind : Operand) (raw : ℕ) → raw < 256 ^ width kind → from_le_bytes (operand kind raw) ≡ raw
unfolding operand from_le_bytes
from_le_bytes-operand u8 raw h = omega arith
from_le_bytes-operand u16 raw h = omega arith
from_le_bytes-operand u32 raw h = omega arith
from_le_bytes-operand i32 raw h = omega arith

slice-append :
    (pre bytes post : List ℕ) (n : ℕ)
    → length bytes ≡ n
    → slice (pre ++ (bytes ++ post)) (length pre) n ≡ some bytes
unfolding slice
slice-append pre bytes post n e =
    rw (← e, drop-append pre (bytes ++ post), take-append bytes post)
      (ground (arith, length-append pre (bytes ++ post), length-append bytes post))

pub length-operand_bytes :
    (raws : List ℕ) (kinds : List Operand)
    → Fits raws kinds
    → length (operand_bytes raws kinds) ≡ total kinds
unfolding operand_bytes total operand
length-operand_bytes [] [] h = refl
length-operand_bytes [] (kind ∷ kinds) h = absurd h
length-operand_bytes (raw ∷ raws) [] h = absurd h
length-operand_bytes (raw ∷ raws) (kind ∷ kinds) h =
    length-append (operand kind raw) (operand_bytes raws kinds)
    ∙ omega (arith, length-operand kind raw, length-operand_bytes raws kinds h.1)

read_slots-cons :
    (code slots bytes rest : List ℕ) (at slot : ℕ) (kind : Operand) (kinds : List Operand)
    → slice code at (width kind) ≡ some bytes
    → read_slots code (at + width kind) slots kinds ≡ ok rest
    → read_slots code at (slot ∷ slots) (kind ∷ kinds) ≡ ok (from_le_bytes bytes ∷ rest)
unfolding read_slots
read_slots-cons code slots bytes rest at slot kind kinds e f = rw (e, f)

-- The slots that no operand fills keep what they held.
pub read_slots-operand_bytes :
    (pre post slots : List ℕ) (raws : List ℕ) (kinds : List Operand)
    → Fits raws kinds
    → length raws ≤ length slots
    → read_slots (pre ++ (operand_bytes raws kinds ++ post)) (length pre) slots kinds
      ≡ ok (raws ++ drop (length raws) slots)
unfolding operand_bytes operand
read_slots-operand_bytes pre post [] [] [] h l = unfold read_slots in refl
read_slots-operand_bytes pre post (slot ∷ slots) [] [] h l = unfold read_slots in refl
read_slots-operand_bytes pre post slots [] (kind ∷ kinds) h l = absurd h
read_slots-operand_bytes pre post slots (raw ∷ raws) [] h l = absurd h
read_slots-operand_bytes pre post [] (raw ∷ raws) (kind ∷ kinds) h l = absurd (omega arith)
read_slots-operand_bytes pre post (slot ∷ slots) (raw ∷ raws) (kind ∷ kinds) h l =
    let bytes = operand kind raw in
    let more = operand_bytes raws kinds ++ post in
    let rest = raws ++ drop (length raws) slots in
    let whole : pre ++ ((bytes ++ operand_bytes raws kinds) ++ post) ≡ pre ++ (bytes ++ more) =
      rw (append_assoc bytes (operand_bytes raws kinds) post) in
    let next : length (pre ++ bytes) ≡ length pre + width kind =
      omega (arith, length-append pre bytes, length-operand kind raw) in
    let ih : read_slots (pre ++ (bytes ++ more)) (length pre + width kind) slots kinds ≡ ok rest =
      rw (← next, ← append_assoc pre bytes more)
        (read_slots-operand_bytes (pre ++ bytes) post slots raws kinds h.1 (omega arith)) in
    rw whole (
      read_slots-cons _ slots bytes rest (length pre) slot kind kinds
        (slice-append pre bytes more (width kind) (length-operand kind raw)) ih
      ∙ rw (from_le_bytes-operand kind raw h.0))
