-- ===== src/Bytecode/Walk.antt =====
-- A whole code buffer: the instructions the encoder appends one after the other, and the walk over
-- them of `Code::of` in crates/ruta-runtime/src/vm/origin.rs.
use mathlib.Core.List.{append_assoc, append-nil}
use ruta.Prelude.{
  ℕ, zero, suc, ◌+◌, ◌%◌, ◌^◌, ◌<◌, ◌≤◌, ◌≡◌, sym, ap, ◌∙◌, subst, arith, List, [], ◌∷◌, ◌++◌,
  Option, none, some, ltb, true, false, if◌then◌else◌, length, length-append, Outcome, ok, err,
  panic, ◌>>=◌,
}
use ruta.Prelude.Int.{ℤ, to_word}
use ruta.Bytecode.Op.{Op, IsOp}
use ruta.Bytecode.Encode.{Encoder, new, emit}
use ruta.Bytecode.Decode.{DecodeError, decode}
use ruta.Bytecode.RoundTrip.{bytes_of, decode-bytes_of, emit-code, bytes_of-pos}

-- Instructions with the lines they come from, appended in order.
unfoldable pub emit_all : Encoder → List (Op × ℕ) → Encoder
emit_all enc [] = enc
emit_all enc ((op, line) ∷ program) = emit_all (emit enc op line).0 program

-- The displacement of a jump.
unfoldable pub displacement : Op → Option ℤ
displacement (Op.jump offset) = some offset
displacement (Op.jump_if_true cond offset) = some offset
displacement (Op.jump_if_false cond offset) = some offset
displacement (Op.for_prep control offset) = some offset
displacement (Op.for_loop control offset) = some offset
displacement _ = none

pub record Code : Type 0 where
  pub ops : List (ℕ × Op)
  pub jumps : List (ℕ × ℕ)

-- Where the jump at `pc`, of `len` bytes, lands: `next.wrapping_add_signed(offset)`.
unfoldable pub landing : ℕ → ℕ → Op → List (ℕ × ℕ)
unfolding displacement
landing pc len op = elim (displacement op) [
  | none ↦ []
  | some offset ↦ (pc, (pc + len + to_word (2 ^ 32) offset) % 2 ^ 32) ∷ []
]

-- The `while` loop of `Code::of`, with fuel: an instruction takes a byte at least, so the length
-- of the code is enough. Running out reads as a panic, as a refused `decode` does.
unfoldable pub walk : ℕ → List ℕ → ℕ → Outcome DecodeError Code
unfolding landing
walk zero code pc = if ltb pc (length code) then panic else ok (record { ops = []; jumps = [] })
walk (suc fuel) code pc = elim (ltb pc (length code)) [
  | false ↦ ok (record { ops = []; jumps = [] })
  | true ↦ elim (decode code pc) [
    | err e ↦ panic
    | panic ↦ panic
    | ok (op, len) ↦ do
      rest ← walk fuel code ((pc + len) % 2 ^ 32)
      ok (record { ops = (pc, op) ∷ rest.ops; jumps = landing pc len op ++ rest.jumps })
  ]
]

-- `Code::of`, on the running function's code.
unfoldable pub code_of : List ℕ → Outcome DecodeError Code
unfolding walk
code_of code = walk (length code) code 0

-- Every operand of a program is in the range of its type.
abbrev pub AreOps : List (Op × ℕ) → Type 0
AreOps [] = Unit
AreOps ((op, line) ∷ program) = IsOp op × AreOps program

-- The bytes of a program, and where its instructions and jumps stand from `pc` on.
unfoldable pub image : List (Op × ℕ) → List ℕ
image [] = []
image ((op, line) ∷ program) = bytes_of op ++ image program

unfoldable pub layout : ℕ → List (Op × ℕ) → Code
unfolding landing
layout pc [] = record { ops = []; jumps = [] }
layout pc ((op, line) ∷ program) =
    let len = length (bytes_of op) in
    let rest = layout (pc + len) program in
    record { ops = (pc, op) ∷ rest.ops; jumps = landing pc len op ++ rest.jumps }

pub emit_all-code :
    (enc : Encoder) (program : List (Op × ℕ))
    → (emit_all enc program).code ≡ enc.code ++ image program
unfolding emit_all image
emit_all-code enc [] = sym (append-nil enc.code)
emit_all-code enc ((op, line) ∷ program) =
    rw (emit_all-code (emit enc op line).0 program, emit-code, append_assoc)

walk-ok :
    (fuel pc len : ℕ) (code : List ℕ) (op : Op) (rest : Code)
    → decode code pc ≡ ok (op, len)
    → pc < length code
    → walk fuel code ((pc + len) % 2 ^ 32) ≡ ok rest
    → walk (suc fuel) code pc
      ≡ ok (record { ops = (pc, op) ∷ rest.ops; jumps = landing pc len op ++ rest.jumps })
unfolding walk
walk-ok fuel pc len code op rest e h f = ground arith

walk_past :
    (fuel pc : ℕ) (code : List ℕ)
    → length code ≤ pc
    → walk fuel code pc ≡ ok (record { ops = []; jumps = [] })
unfolding walk
walk_past zero pc code h = ground arith
walk_past (suc fuel) pc code h = ground arith

walk-layout :
    (fuel : ℕ) (pre : List ℕ) (program : List (Op × ℕ))
    → AreOps program
    → length (image program) ≤ fuel
    → length pre + length (image program) < 2 ^ 32
    → walk fuel (pre ++ image program) (length pre) ≡ ok (layout (length pre) program)
unfolding image layout
walk-layout fuel pre [] h f s = walk_past fuel (length pre) _ (omega (arith, length-append pre []))
walk-layout zero pre ((op, line) ∷ program) h f s =
    absurd (omega (arith, length-append (bytes_of op) (image program), bytes_of-pos op))
walk-layout (suc fuel) pre ((op, line) ∷ program) h f s =
    let bytes = bytes_of op in
    let ahead = length-append bytes (image program) in
    let ih : walk fuel (pre ++ (bytes ++ image program)) (length pre + length bytes)
        ≡ ok (layout (length pre + length bytes) program) =
      rw (← append_assoc pre bytes (image program), ← length-append pre bytes)
        (walk-layout fuel (pre ++ bytes) program h.1 (omega (arith, ahead, bytes_of-pos op))
          (omega (arith, ahead, length-append pre bytes))) in
    let pc_fits : (length pre + length bytes) % 2 ^ 32 ≡ length pre + length bytes =
      omega (arith, ahead) in
    let onward = ap (λ (at : ℕ). walk fuel (pre ++ (bytes ++ image program)) at) pc_fits ∙ ih in
    walk-ok fuel (length pre) (length bytes) _ op (layout (length pre + length bytes) program)
      (decode-bytes_of pre (image program) op h.0)
      (omega (arith, length-append pre (bytes ++ image program), ahead, bytes_of-pos op)) onward

-- The walk of `Code::of` over the code of any emitted program finds every instruction, unchanged,
-- at the pc where it was emitted, and every jump with the pc where it lands. The operands must be
-- in the ranges of their types, and the code shorter than 2 ^ 32 bytes.
pub code_of-emit_all :
    (program : List (Op × ℕ))
    → AreOps program
    → length (emit_all new program).code < 2 ^ 32
    → code_of (emit_all new program).code ≡ ok (layout 0 program)
unfolding code_of
code_of-emit_all program h s =
    let short : length (image program) < 2 ^ 32 =
      subst (λ (code : List ℕ). length code < 2 ^ 32) (emit_all-code new program) s in
    rw (emit_all-code new program) (walk-layout _ [] program h (omega arith) (omega (arith, short)))
