-- ===== src/Runtime/Machine/Tests.antt =====
-- Runs of the machine, and of the theorems about it at concrete states.
use ruta.Prelude.{
  ◌+◌, arith, inl, inr, subst, ℕ, zero, suc, ◌≡◌, refl, List, [], ◌∷◌, Option, none, some, Outcome,
  ok, err, panic, ◌>>=◌,
}
use ruta.Prelude.Int.{pos, negsuc}
use ruta.Bytecode.Op.{Op}
use ruta.Bytecode.Encode as Encode
use ruta.Bytecode.Walk.{emit_all}
use ruta.Bytecode.Prototype as Proto_data
use ruta.Bytecode.Prototype.{Prototype, prototype, no_vararg, anonymous, no_children}
use ruta.Runtime.Value.{nil, int, func}
use ruta.Syntax.Text.{codes}
use ruta.Runtime.Machine.{Host, Vm, Answer, thrown, endless}
use ruta.Runtime.Heap.{Heap, Proto, lua, func_object, proto_object, upval_object, open_at}
use ruta.Runtime.Stack.{Frame, exactly}
use ruta.Bytecode.Walk.{Code, displacement, landing}
use ruta.Runtime.Machine.{close, capture}
use ruta.Runtime.Machine.Text.{message, chunk}
use ruta.Runtime.Machine.Origin.{writes}
use ruta.Runtime.Machine.Trace.{trace}
use ruta.Runtime.Machine.Dispatch.{jump, perform}
use ruta.Runtime.Machine.Loop.{advance_pc, round, run_chunk}
use ruta.Runtime.Machine.Cells.{Entry}
use ruta.Runtime.Machine.Closing.{IsAt, IsAt-unique, IsOpen, Closes, close-Closes}
use ruta.Runtime.Machine.Capturing.{Captures, capture-Captures}
use ruta.Runtime.Machine.Naming.{Shows, chunk-Shows}
use ruta.Runtime.Machine.Tracing.{Agree, trace-enough}
use ruta.Runtime.Machine.Landing.{at_pc, jump-landing}
use ruta.Runtime.Machine.Ends.{Ends}
use ruta.Runtime.Machine.Quiet.{Holds}
use ruta.Runtime.Machine.Writes.{perform-Holds}
use ruta.Runtime.Machine.Depth.{Shallow}
use ruta.Runtime.Machine.Reached.{here, then, Reaches-Shallow}
use ruta.Runtime.Machine.Tame.{base_functions-KeepFrames}
use ruta.Runtime.Machine.Library.{new, base_functions}

-- A host that rounds nothing and reads no float.
abbrev host : Host
host = record {
  rounding = record {
    of_i64 = λ n. 0;
    add = λ a b. a;
    sub = λ a b. a;
    mul = λ a b. a;
    div = λ a b. a;
    rem = λ a b. a;
    powf = λ a b. a;
    round_down = λ a. a;
  };
  layout = record { value_size = 16; node_size = 40 };
  rebuilds = 3;
  read_f64 = λ text. none;
  read_i32 = λ text. none;
  lossy = λ bytes. bytes;
  scientific = λ digits value. [];
  fixed = λ digits value. [];
}

-- `print(select("#", 7, 8))`, then an index of a number.
abbrev program : List (Op × ℕ)
program =
    (Op.get_upval 4 0, 1)
    ∷ (Op.load_const 5 0, 1)
    ∷ (Op.index 0 4 5, 1)
    ∷ (Op.load_const 6 1, 1)
    ∷ (Op.index 1 4 6, 1)
    ∷ (Op.load_const 2 2, 1)
    ∷ (Op.load_const 3 3, 1)
    ∷ (Op.load_const 4 3, 1)
    ∷ (Op.call 1 3 255, 1)
    ∷ (Op.call 0 255 1, 1)
    ∷ (Op.load_const 1 3, 2)
    ∷ (Op.index 2 1 1, 2)
    ∷ (Op.return 0 1, 3)
    ∷ []

abbrev chunk_main : Prototype
chunk_main =
    prototype
      (record {
        params = 0;
        vararg = anonymous;
        max_registers = 8;
        code = (emit_all Encode.new program).code;
        upvals = (record { source = Proto_data.parent_local 0; name = codes "_ENV" }) ∷ [];
        line_defined = 0;
        last_line_defined = 0;
        lines = (emit_all Encode.new program).lines;
        locals = [];
      })
      (codes "@demo.lua")
      (Proto_data.str (codes "print")
        ∷ Proto_data.str (codes "select")
        ∷ Proto_data.str (codes "#")
        ∷ Proto_data.int (pos 7)
        ∷ [])
      no_children

-- What a run ends with: its output and its error's message.
abbrev ending : Option (Answer Vm) → List ℕ × List ℕ
ending (some (ok vm)) = (vm.stdout, [])
ending (some (err (thrown value vm))) = (vm.stdout, shown (message host vm value))
  where
    shown : Outcome ⊥ (List ℕ) → List ℕ
    shown (ok text) = text
    shown _ = []
ending (some (err endless)) = (codes "endless", [])
ending (some panic) = (codes "panic", [])
ending none = (codes "out of fuel", [])

abbrev begun : Answer Vm → Option (Answer Vm)
begun (ok vm) = run_chunk 30 host (base_functions host) vm chunk_main
begun other = some other

abbrev outcome : List ℕ × List ℕ
outcome = ending (begun (new host))

-- Two slots captured, of three.
abbrev captured_heap : Heap
captured_heap = record {
  objects = upval_object (open_at 0) ∷ upval_object (open_at 2) ∷ [];
  interned = [];
  interned_len = 0;
}

abbrev captured_cells : List (ℕ × ℕ)
captured_cells = (0, 0) ∷ (2, 1) ∷ []

abbrev one_frame : Frame
one_frame = record {
  func = 0;
  base = 0;
  top = 3;
  pc = 4;
  want = exactly 0;
  ret_to = 0;
  varargs = 0;
}

abbrev captured : Vm
captured = record {
  heap = captured_heap;
  stack = record { values = int (pos 7) ∷ nil ∷ int (pos 9) ∷ []; frames = one_frame ∷ [] };
  globals = 0;
  open_upvals = captured_cells;
  next = 0;
  ipairs_step = 0;
  stdout = [];
}

captured_complete :
    (slot handle : ℕ) → IsAt captured_heap.objects slot handle → Entry captured_cells slot handle
captured_complete slot zero e = inl (IsAt-unique captured_heap.objects 0 slot 0 refl e, refl)
captured_complete slot (suc zero) e =
    inr (inl (IsAt-unique captured_heap.objects 2 slot 1 refl e, refl))
captured_complete slot (suc (suc n)) e = let f : ⊥ = cc in absurd f

captured-IsOpen : IsOpen captured_heap.objects captured_cells
captured-IsOpen = record {
  increasing = (
    λ slot handle e. elim e [ inl one ↦ omega (arith, one.0) | inr two ↦ elim two [ ] ],
    (λ slot handle e. elim e [ ], tt),
  );
  listed = λ slot handle e. elim e [
    | inl same ↦
        subst (λ n. IsAt captured_heap.objects n handle) same.0
          (subst (λ n. IsAt captured_heap.objects 0 n) same.1 refl)
    | inr rest ↦ elim rest [
      | inl same ↦
          subst (λ n. IsAt captured_heap.objects n handle) same.0
            (subst (λ n. IsAt captured_heap.objects 2 n) same.1 refl)
      | inr more ↦ elim more [ ]
    ]
  ];
  complete = captured_complete;
}

close-Closes_example : (after : Vm) × (close captured 1 ≡ ok after) × Closes captured 1 after
close-Closes_example = close-Closes captured 1 captured-IsOpen (λ slot handle e. elim e [
  | inl same ↦ omega (arith, same.0)
  | inr rest ↦ elim rest [ inl same ↦ omega (arith, same.0) | inr more ↦ elim more [ ] ]
])

capture-Captures_example :
    (handle : ℕ) × (after : Vm) × (capture captured 1 ≡ ok (handle, after))
    × Captures captured 1 handle after
capture-Captures_example = capture-Captures captured 1 captured-IsOpen (omega arith)

-- A move from the third register to the first leaves the second.
perform-Holds_example :
    Ends (Holds (0 + 1) captured) (perform host (base_functions host) captured 0 (Op.move 0 2))
unfolding writes
perform-Holds_example = perform-Holds host (base_functions host) captured 0 (Op.move 0 2) 1 tt refl

abbrev plain_proto : Proto
plain_proto = record {
  body = record {
    params = 0;
    vararg = no_vararg;
    max_registers = 2;
    code = [];
    upvals = [];
    line_defined = 0;
    last_line_defined = 0;
    lines = [];
    locals = [];
  };
  constants = [];
  children = [];
  source = 0;
}

-- A function that returns at once, entered.
abbrev returning : Vm
returning = record {
  heap = record {
    objects =
        proto_object
          (record plain_proto { body = record plain_proto.body { code = 42 ∷ 0 ∷ 0 ∷ [] } })
        ∷ func_object (lua 0 [])
        ∷ [];
    interned = [];
    interned_len = 0;
  };
  stack = record {
    values = func 1 ∷ nil ∷ nil ∷ [];
    frames =
        record { func = 1; base = 1; top = 3; pc = 0; want = exactly 0; ret_to = 0; varargs = 0 }
        ∷ [];
  };
  globals = 0;
  open_upvals = [];
  next = 0;
  ipairs_step = 0;
  stdout = [];
}

abbrev returned : Vm
returned = record returning { stack = record returning.stack { frames = [] } }

returns : round host (base_functions host) returning ≡ ok returned
unfolding round
returns = refl

Reaches-Shallow_example : Shallow returned
Reaches-Shallow_example =
    Reaches-Shallow host (base_functions host) returning returned (base_functions-KeepFrames host)
      (omega arith) (then returns here)

abbrev called : Vm
called = record returning {
  stack = record returning.stack { values = func 1 ∷ int (pos 1) ∷ int (pos 7) ∷ int (pos 8) ∷ [] };
}

abbrev moves : Code
moves = record { ops = (0, Op.load_nil 1) ∷ (2, Op.move 0 1) ∷ []; jumps = [] }

trace-enough_example :
    Agree
      (trace 6 captured_heap plain_proto moves 0 5)
      (trace 9 captured_heap plain_proto moves 0 5)
trace-enough_example =
    trace-enough 6 9 captured_heap plain_proto moves 0 5 (omega arith) (omega arith)

-- A jump back by 3 of 5 bytes, at pc 4.
jump-landing_example :
    ((advance_pc captured 5 >>= λ next. jump next (negsuc 2)) ≡ ok (at_pc captured one_frame [] 6))
    × (landing 4 5 (Op.jump (negsuc 2)) ≡ (4, 6) ∷ [])
unfolding displacement
jump-landing_example =
    jump-landing captured one_frame [] 5 6 (Op.jump (negsuc 2)) (negsuc 2) refl refl
      (omega arith, omega arith) (omega arith) (omega arith, omega arith)

chunk-Shows_example :
    (text : List ℕ) × (chunk (61 ∷ codes "demo") ≡ ok text) × Shows 61 (codes "demo") text
chunk-Shows_example = chunk-Shows 61 (codes "demo")
