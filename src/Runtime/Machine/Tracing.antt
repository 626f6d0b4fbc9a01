-- ===== src/Runtime/Machine/Tracing.antt =====
-- How far `trace` of crates/ruta-runtime/src/vm/origin.rs goes back.
use ruta.Prelude.{
  ℕ, zero, suc, ◌<◌, ◌≡◌, inl, inr, refl, sym, ap, ◌∙◌, arith, ltb, Bool, if◌then◌else◌, Bool-cases,
  Option-cases, Option, none, some, List, [], ◌∷◌, ok, err, panic, ◌>>=◌,
}
use ruta.Bytecode.Op.{Op}
use ruta.Bytecode.Walk.{Code}
use ruta.Runtime.Heap.{Run, Heap, Proto}
use ruta.Runtime.Machine.Origin.{Origin, writes, last_writer, jumped_over, setter}
use ruta.Runtime.Machine.Trace.{
  Key, Traced, local_at, through, follow, trace, key_of, name, small, other, field_of, is_env,
}

abbrev start_of : ℕ → Option (ℕ × Op) → ℕ
start_of otherwise none = otherwise
start_of otherwise (some (n, op)) = n

-- What a register was set by stands before the pc.
last_writer-before :
    (ops : List (ℕ × Op)) (reg at : ℕ) (found : Option (ℕ × Op)) (pc : ℕ) (op : Op)
    → ((p : ℕ) (o : Op) → found ≡ some (p, o) → p < at)
    → last_writer ops reg at found ≡ some (pc, op)
    → pc < at
unfolding last_writer
last_writer-before [] reg at found pc op h e = h pc op e
last_writer-before ((start, o) ∷ ops) reg at found pc op h e = elim (Bool-cases (ltb start at)) [
  | inl t ↦
      last_writer-before ops reg at (if writes o reg then some (start, o) else found) pc op
        (λ p q f. elim (Bool-cases (writes o reg)) [
          | inl w ↦
              let same : some (start, o) ≡ some (p, q) =
                ap (λ b. if b then some (start, o) else found) (sym w) ∙ f in
              let one : start ≡ p = ap (start_of start) same in ground (arith, t, one)
          | inr w ↦ h p q (ap (λ b. if b then some (start, o) else found) (sym w) ∙ f)
        ])
        (ap
            (λ b.
              if b
              then last_writer ops reg at (if writes o reg then some (start, o) else found)
              else found)
            (sym t)
          ∙ e)
  | inr t ↦ h pc op (
      ap
        (λ b.
          if b
          then last_writer ops reg at (if writes o reg then some (start, o) else found)
          else found)
        (sym t)
      ∙ e)
]

setter-before :
    (code : Code) (reg at pc : ℕ) (op : Op) → setter code reg at ≡ some (pc, op) → pc < at
unfolding setter
setter-before code reg at pc op e = elim (Option-cases (last_writer code.ops reg at none)) [
  | inl t ↦ let f : ⊥ = (let g = ap chosen (sym t) ∙ e in cc) in absurd f
  | inr ((p, o), t) ↦ elim (Bool-cases (jumped_over code.jumps p at)) [
    | inl u ↦ let f : ⊥ = (let g = ap (kept p o) (sym u) ∙ ap chosen (sym t) ∙ e in cc) in absurd f
    | inr u ↦
        let one : p ≡ pc = ap (start_of p) (ap (kept p o) (sym u) ∙ ap chosen (sym t) ∙ e) in
        let early = last_writer-before code.ops reg at none p o (λ n x f. absurd (cc)) t in
        omega (arith, one, early)
  ]
]
  where
    kept : ℕ → Op → Bool → Option (ℕ × Op)
    kept p o b = if b then none else some (p, o)

    chosen : Option (ℕ × Op) → Option (ℕ × Op)
    chosen found = elim found [
      | none ↦ none
      | some (p, o) ↦ if jumped_over code.jumps p at then none else some (p, o)
    ]

-- Both end, in the same answer.
abbrev pub Agree : Traced → Traced → Type 0
Agree one two = (answer : Run (Option Origin)) × (one ≡ some answer) × (two ≡ some answer)

same : (answer : Run (Option Origin)) → Agree (some answer) (some answer)
same answer = (answer, refl, refl)

through-Agree :
    (one two : Traced) (key : Key) → Agree one two → Agree (through one key) (through two key)
through-Agree one two small h = same _
through-Agree one two other h = same _
through-Agree one two (name text) (answer, e, f) =
    (answer >>= λ held. ok (some (field_of (name text) (is_env held))), rw e refl, rw f refl)

follow-Agree :
    (heap : Heap) (proto : Proto) (code : Code) (go also : ℕ → ℕ → Traced) (pc : ℕ) (op : Op)
    → ((reg : ℕ) → Agree (go reg pc) (also reg pc))
    → Agree
        (follow heap proto code go (some (pc, op)))
        (follow heap proto code also (some (pc, op)))
unfolding follow
follow-Agree heap proto code go also pc (Op.move dest src) h = h src
follow-Agree heap proto code go also pc (Op.index dest object key) h =
    elim (key_of heap proto code key pc)
      as (λ k.
        Agree
          (elim k [
            | ok found ↦ through (go object pc) found
            | err e ↦ some (err e)
            | panic ↦ some panic
          ])
          (elim k [
            | ok found ↦ through (also object pc) found
            | err e ↦ some (err e)
            | panic ↦ some panic
          ])) [
            | ok found ↦ through-Agree (go object pc) (also object pc) found (h object)
            | err e ↦ same _
            | panic ↦ same _
          ]
follow-Agree heap proto code go also pc _ h = same _

trace-setter :
    (fuel more : ℕ) (heap : Heap) (proto : Proto) (code : Code) (reg at : ℕ)
    → ((r pc : ℕ)
        → pc < at
        → Agree (trace fuel heap proto code r pc) (trace more heap proto code r pc))
    → Agree (trace (suc fuel) heap proto code reg at) (trace (suc more) heap proto code reg at)
unfolding trace
trace-setter fuel more heap proto code reg at h = elim (Option-cases (local_at proto reg at)) [
  | inr (held, t) ↦ rw (trace, t) (same _)
  | inl t ↦
      rw (trace, t)
        (elim (Option-cases (setter code reg at)) [
          | inl u ↦ rw u (unfold follow in same _)
          | inr ((pc, op), u) ↦ rw u (
              follow-Agree heap proto code (λ r p. trace fuel heap proto code r p)
                (λ r p. trace more heap proto code r p) pc op
                (λ r. h r pc (setter-before code reg at pc op u)))
        ])
]

-- With more steps than the pc, `trace` ends and does not run out of steps: there is one answer that it
-- gives with any such number of steps.
pub trace-enough :
    (fuel more : ℕ) (heap : Heap) (proto : Proto) (code : Code) (reg at : ℕ)
    → at < fuel
    → at < more
    → Agree (trace fuel heap proto code reg at) (trace more heap proto code reg at)
trace-enough zero more heap proto code reg at h g = absurd (omega arith)
trace-enough (suc fuel) zero heap proto code reg at h g = absurd (omega arith)
trace-enough (suc fuel) (suc more) heap proto code reg at h g =
    trace-setter fuel more heap proto code reg at
      (λ r pc b. trace-enough fuel more heap proto code r pc (omega (arith, b)) (omega (arith, b)))
