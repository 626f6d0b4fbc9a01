-- ===== src/Bytecode/Patch.antt =====
-- `Encoder::patch_jump` (crates/ruta-bytecode/src/encode.rs) rewrites one displacement.
use mathlib.Core.List.{append_assoc}
use ruta.Prelude.{
  checked, ◌<◌, ℕ, ◌+◌, ◌-◌, ◌%◌, ◌^◌, ◌≡◌, refl, sym, ap, ◌∙◌, arith, List, [], ◌∷◌, ◌++◌, some,
  length, length-append, drop, take-append, drop-append, get_elem?, ok,
}
use ruta.Prelude.Int.{ℤ, IsSigned, sub_ℕ, to_word}
use ruta.Bytecode.OpCode.{instruction_len}
use ruta.Bytecode.Op.{Op}
use ruta.Bytecode.Encode.{Encoder, to_le_bytes, written, instruction, try_i32, splice, patch_jump}
use ruta.Bytecode.RoundTrip.{bytes_of}
use ruta.Bytecode.Walk.{displacement}

-- The instruction with another displacement; only jumps have one.
unfoldable pub retarget : Op → ℤ → Op
retarget (Op.jump offset) to = Op.jump to
retarget (Op.jump_if_true cond offset) to = Op.jump_if_true cond to
retarget (Op.jump_if_false cond offset) to = Op.jump_if_false cond to
retarget (Op.for_prep control offset) to = Op.for_prep control to
retarget (Op.for_loop control offset) to = Op.for_loop control to
retarget op to = op

drop_past : (pre old post : List ℕ) → drop (length pre + length old) (pre ++ (old ++ post)) ≡ post
drop_past pre old post =
    rw (← length-append pre old, ← append_assoc pre old post) (drop-append (pre ++ old) post)

splice-append :
    (pre old bytes post : List ℕ)
    → length old ≡ length bytes
    → splice (pre ++ (old ++ post)) (length pre) bytes ≡ some (pre ++ (bytes ++ post))
unfolding splice
splice-append pre old bytes post e =
    rw (← e, take-append pre (old ++ post), drop_past pre old post)
      (ground (arith, length-append pre (old ++ post), length-append old post))

get_elem?-append : (pre post : List ℕ) (b : ℕ) → get_elem? (pre ++ (b ∷ post)) (length pre) ≡ some b
get_elem?-append [] post b = refl
get_elem?-append (x ∷ pre) post b = get_elem?-append pre post b

try_i32-IsSigned : (a : ℤ) → IsSigned (2 ^ 31) a → try_i32 a ≡ some a
unfolding try_i32
try_i32-IsSigned (ℤ.pos n) h = ground arith
try_i32-IsSigned (ℤ.negsuc n) h = ground arith

patch_at :
    (enc : Encoder) (pre tail old post : List ℕ) (byte target next : ℕ)
    → enc.code ≡ pre ++ ((byte ∷ tail) ++ (old ++ post))
    → instruction_len byte ≡ some (length tail + 5)
    → length old ≡ 4
    → next ≡ length pre + (length tail + 5)
    → next < 2 ^ 32
    → IsSigned (2 ^ 31) (sub_ℕ target next)
    → patch_jump enc (length pre) target
      ≡ ok (record enc {
        code =
            pre ++ ((byte ∷ tail) ++ (to_le_bytes (to_word (2 ^ 32) (sub_ℕ target next)) ++ post));
      })
unfolding patch_jump
patch_at enc pre tail old post byte target next e f four n short fits =
    let head = byte ∷ tail in
    let bytes = to_le_bytes (to_word (2 ^ 32) (sub_ℕ target next)) in
    let slot : next - 4 ≡ length (pre ++ head) = omega (arith, length-append pre head) in
    let spliced : splice (pre ++ (head ++ (old ++ post))) (length (pre ++ head)) bytes
        ≡ some (pre ++ (head ++ (bytes ++ post))) =
      rw (← append_assoc pre head (old ++ post), ← append_assoc pre head (bytes ++ post))
        (splice-append (pre ++ head) old bytes post (unfold to_le_bytes in four)) in
    let held : checked (2 ^ 32) next ≡ some next = ground (arith, short) in
    rw (e, get_elem?-append pre _ byte, f, ← n, held, try_i32-IsSigned _ fits, slot, spliced)

-- A jump's bytes are an opcode and a register, if it has one, and then its displacement.
record Shape (op : Op) (old : ℤ) : Type 0 where
  byte : ℕ
  tail : List ℕ
  bytes : (to : ℤ) → bytes_of (retarget op to) ≡ (byte ∷ tail) ++ to_le_bytes (to_word (2 ^ 32) to)
  same : retarget op old ≡ op
  len : instruction_len byte ≡ some (length tail + 5)

jump_Shape : (op : Op) (old : ℤ) → displacement op ≡ some old → Shape op old
unfolding bytes_of written retarget displacement instruction_len instruction to_le_bytes
jump_Shape (Op.jump offset) old d = record {
  byte = 43;
  tail = [];
  bytes = λ to. refl;
  same = cc;
  len = refl;
}
jump_Shape (Op.jump_if_true cond offset) old d = record {
  byte = 44;
  tail = (cond % 256) ∷ [];
  bytes = λ to. refl;
  same = cc;
  len = refl;
}
jump_Shape (Op.jump_if_false cond offset) old d = record {
  byte = 45;
  tail = (cond % 256) ∷ [];
  bytes = λ to. refl;
  same = cc;
  len = refl;
}
jump_Shape (Op.for_prep control offset) old d = record {
  byte = 46;
  tail = (control % 256) ∷ [];
  bytes = λ to. refl;
  same = cc;
  len = refl;
}
jump_Shape (Op.for_loop control offset) old d = record {
  byte = 47;
  tail = (control % 256) ∷ [];
  bytes = λ to. refl;
  same = cc;
  len = refl;
}
jump_Shape op old d = absurd (cc)

-- Patching the jump that stands at `at` rewrites its displacement to the distance from the
-- instruction after it to the target, and changes nothing else, wherever that distance is an `i32` and
-- the jump ends below 2^32.
pub patch_jump-retarget :
    (enc : Encoder) (pre post : List ℕ) (op : Op) (old : ℤ) (target : ℕ)
    → enc.code ≡ pre ++ (bytes_of op ++ post)
    → displacement op ≡ some old
    → length pre + length (bytes_of op) < 2 ^ 32
    → IsSigned (2 ^ 31) (sub_ℕ target (length pre + length (bytes_of op)))
    → patch_jump enc (length pre) target
      ≡ ok (record enc {
        code =
            pre
            ++ (bytes_of (retarget op (sub_ℕ target (length pre + length (bytes_of op)))) ++ post);
      })
patch_jump-retarget enc pre post op old target e d short fits =
    let shape = jump_Shape op old d in
    let own : bytes_of op ≡ (shape.byte ∷ shape.tail) ++ to_le_bytes (to_word (2 ^ 32) old) =
      ap bytes_of (sym shape.same) ∙ shape.bytes old in
    let n : length pre + length (bytes_of op) ≡ length pre + (length shape.tail + 5) = rw own (
      unfold to_le_bytes in
      omega (arith, length-append shape.tail (to_le_bytes (to_word (2 ^ 32) old)))) in
    let old_bytes = to_le_bytes (to_word (2 ^ 32) old) in
    let to = sub_ℕ target (length pre + length (bytes_of op)) in
    let new_bytes = to_le_bytes (to_word (2 ^ 32) to) in
    let stands : enc.code ≡ pre ++ ((shape.byte ∷ shape.tail) ++ (old_bytes ++ post)) =
      e
      ∙ ap (λ (l : List ℕ). pre ++ (l ++ post)) own
      ∙ ap (λ (l : List ℕ). pre ++ l) (append_assoc (shape.byte ∷ shape.tail) old_bytes post) in
    rw (shape.bytes to, append_assoc (shape.byte ∷ shape.tail) new_bytes post)
      (patch_at enc pre shape.tail (to_le_bytes (to_word (2 ^ 32) old)) post shape.byte target _
        stands shape.len (unfold to_le_bytes in refl) n short fits)
