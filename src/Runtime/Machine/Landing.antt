-- ===== src/Runtime/Machine/Landing.antt =====
-- Where a jump lands: `jump` of crates/ruta-runtime/src/vm/dispatch.rs, and what `Code::of` of
-- vm/origin.rs makes of the same instruction.
use ruta.Prelude.{
  checked, ℕ, ◌+◌, ◌%◌, ◌^◌, ◌<◌, ◌≡◌, refl, ap, ◌∙◌, arith, some, List, [], ◌∷◌, ok, ◌>>=◌,
}
use ruta.Prelude.Int.{ℤ, pos, negsuc, pos_part, neg_part, to_word, IsSigned}
use ruta.Bytecode.Op.{Op}
use ruta.Bytecode.Walk.{displacement, landing}
use ruta.Runtime.Stack.{Frame}
use ruta.Runtime.Machine.{Vm}
use ruta.Runtime.Machine.Dispatch.{jump, moved_pc}
use ruta.Runtime.Machine.Loop.{advance_pc}

-- The target is the pc moved by the displacement, and a pc again.
abbrev pub IsTarget : ℕ → ℤ → ℕ → Type 0
IsTarget pc offset target = (pc + pos_part offset ≡ target + neg_part offset) × (target < 2 ^ 32)

moved_pc-target :
    (pc target : ℕ) (offset : ℤ) → IsTarget pc offset target → moved_pc pc offset ≡ ok target
moved_pc-target pc target (pos n) h = ground (arith, h.0, h.1)
moved_pc-target pc target (negsuc n) h = ground (arith, h.0, h.1)

word-target :
    (pc target : ℕ) (offset : ℤ)
    → IsSigned (2 ^ 31) offset
    → IsTarget pc offset target
    → (pc + to_word (2 ^ 32) offset) % 2 ^ 32 ≡ target
word-target pc target (pos n) s h = omega (arith, s.0, h.0, h.1)
word-target pc target (negsuc n) s h = omega (arith, s.1, h.0, h.1)

landing-target :
    (pc len target : ℕ) (op : Op) (offset : ℤ)
    → displacement op ≡ some offset
    → IsSigned (2 ^ 31) offset
    → IsTarget (pc + len) offset target
    → landing pc len op ≡ (pc, target) ∷ []
unfolding landing
landing-target pc len target op offset e s h =
    rw (landing, e) (ap (λ n. (pc, n) ∷ []) (word-target (pc + len) target offset s h))

-- The machine with its frame at a pc.
abbrev pub at_pc : Vm → Frame → List Frame → ℕ → Vm
at_pc vm frame frames pc = record vm {
  stack = record vm.stack { frames = record frame { pc = pc } ∷ frames };
}

advance_pc-at_pc :
    (vm : Vm) (frame : Frame) (frames : List Frame) (len : ℕ)
    → vm.stack.frames ≡ frame ∷ frames
    → frame.pc + len < 2 ^ 32
    → advance_pc vm len ≡ ok (at_pc vm frame frames (frame.pc + len))
advance_pc-at_pc vm frame frames len f short =
    let held : checked (2 ^ 32) (frame.pc + len) ≡ some (frame.pc + len) = ground (arith, short) in
    rw (f, held) refl

jump-at_pc :
    (vm : Vm) (frame : Frame) (frames : List Frame) (pc target : ℕ) (offset : ℤ)
    → moved_pc pc offset ≡ ok target
    → jump (at_pc vm frame frames pc) offset ≡ ok (at_pc vm frame frames target)
unfolding jump
jump-at_pc vm frame frames pc target offset e = rw e refl

-- A jump that ends below 2^32, whose displacement is an `i32`, and whose target is a pc, moves the frame to the place that
-- `Code::of` records for the instruction, and changes nothing else.
pub jump-landing :
    (vm : Vm) (frame : Frame) (frames : List Frame) (len target : ℕ) (op : Op) (offset : ℤ)
    → vm.stack.frames ≡ frame ∷ frames
    → displacement op ≡ some offset
    → IsSigned (2 ^ 31) offset
    → frame.pc + len < 2 ^ 32
    → IsTarget (frame.pc + len) offset target
    → ((advance_pc vm len >>= λ next. jump next offset) ≡ ok (at_pc vm frame frames target))
      × (landing frame.pc len op ≡ (frame.pc, target) ∷ [])
jump-landing vm frame frames len target op offset f d s short h = (
  ap (λ o. o >>= λ next. jump next offset) (advance_pc-at_pc vm frame frames len f short)
      ∙ jump-at_pc vm frame frames (frame.pc + len) target offset
          (moved_pc-target (frame.pc + len) target offset h),
  landing-target frame.pc len target op offset d s h,
)
