-- ===== src/Bytecode/Tests.antt =====
-- Runs of the bytecode's theorems on concrete instructions.
use ruta.Prelude.{
  ◌+◌, ◌-◌, ◌≡◌, refl, arith, List, [], ◌∷◌, ◌++◌, ℕ, length, ok, ltb, if◌then◌else◌,
}
use ruta.Prelude.Int.{pos, negsuc, sub_ℕ}
use ruta.Bytecode.Op.{Op}
use ruta.Bytecode.Encode.{Encoder, new, emit, patch_jump, written, instruction, pc}
use ruta.Bytecode.Decode.{decode}
use ruta.Bytecode.Debug.{line_at}
use ruta.Bytecode.RoundTrip.{decode-emit, bytes_of}
use ruta.Bytecode.RoundTrip.Errors.{Ends, decode-Ends}
use ruta.Bytecode.Lines.{IsLined, emit-IsLined, line_at-emit}
use ruta.Bytecode.Walk.{displacement, emit_all, code_of, layout, code_of-emit_all}
use ruta.Bytecode.Patch.{retarget, patch_jump-retarget}

abbrev wide : Op
wide = Op.load_const 3 70000

decode-emit_example :
    decode ((emit new wide 7).0.code ++ (9 ∷ [])) (emit new wide 7).1
    ≡ ok (wide, length (emit new wide 7).0.code - length new.code)
decode-emit_example = decode-emit new wide 7 (9 ∷ []) (omega arith) (omega arith)

abbrev countdown : List (Op × ℕ)
countdown = (Op.load_nil 1, 1) ∷ (Op.jump_if_false 1 (negsuc 7), 2) ∷ (Op.return 0 1, 2) ∷ []

code_of-emit_all_example : code_of (emit_all new countdown).code ≡ ok (layout 0 countdown)
unfolding emit_all emit pc written instruction
code_of-emit_all_example = code_of-emit_all countdown (ground arith) (omega arith)

decode-Ends_example : Ends (4 ∷ 1 ∷ []) 0 (decode (4 ∷ 1 ∷ []) 0)
decode-Ends_example = decode-Ends (4 ∷ 1 ∷ []) 0

-- An encoder whose last instruction stands on line 3.
abbrev one_line : Encoder
one_line = record { code = 0 ∷ 1 ∷ []; lines = (0, 3) ∷ [] }

emit-IsLined_example : IsLined (emit one_line wide 4).0
emit-IsLined_example = emit-IsLined one_line wide 4 (omega arith) (omega arith)

line_at-emit_example :
    line_at (emit one_line wide 4).0.lines 5
    ≡ (if ltb 5 (length one_line.code) then line_at one_line.lines 5 else 4)
line_at-emit_example = line_at-emit one_line wide 4 (omega arith) (omega arith) 5

abbrev forward : Op
forward = Op.jump (pos 0)

abbrev with_jump : Encoder
with_jump = record { code = (1 ∷ 1 ∷ []) ++ (bytes_of forward ++ (9 ∷ [])); lines = [] }

patch_jump-retarget_example :
    patch_jump with_jump 2 20
    ≡ ok (record with_jump {
      code =
          (1 ∷ 1 ∷ [])
          ++ (bytes_of (retarget forward (sub_ℕ 20 (2 + length (bytes_of forward)))) ++ (9 ∷ []));
    })
unfolding displacement written instruction
patch_jump-retarget_example =
    patch_jump-retarget with_jump (1 ∷ 1 ∷ []) (9 ∷ []) forward (pos 0) 20 refl refl
      (unfold bytes_of in omega arith) (unfold bytes_of in omega arith)
