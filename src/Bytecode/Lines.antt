-- ===== src/Bytecode/Lines.antt =====
-- The line table that `Encoder::emit` builds answers every pc with the line of its instruction.
use ruta.Prelude.{
  ℕ, zero, suc, ◌^◌, ◌<◌, ◌≤◌, ◌≡◌, ◌⊎◌, inl, inr, refl, ◌∙◌, arith, List, [], ◌∷◌, ◌++◌, some, ltb,
  leb, if◌then◌else◌, length, length-append, get_or,
}
use ruta.Bytecode.Op.{Op}
use ruta.Bytecode.Encode.{Encoder, pc, written, instruction, last_line, is_line, emit}
use ruta.Bytecode.Debug.{Found, hit, miss, next_found, search, line_of_found, line_at}

-- The keys increase, from `low` on, and stay below `high`.
abbrev pub Increasing : ℕ → List (ℕ × ℕ) → ℕ → Type 0
Increasing low [] high = low ≤ high
Increasing low ((k, l) ∷ entries) high = (low ≤ k) × Increasing (suc k) entries high

-- The line of the last entry at or below `pc`, and `d` before the first.
pub floor_line : ℕ → List (ℕ × ℕ) → ℕ → ℕ
floor_line d [] pc = d
floor_line d ((k, l) ∷ entries) pc = if leb k pc then floor_line l entries pc else d

abbrev found_or : ℕ → List (ℕ × ℕ) → Found → ℕ
found_or d entries (miss zero) = d
found_or d entries (hit index) = (get_or entries index (0, 0)).1
found_or d entries (miss (suc index)) = (get_or entries index (0, 0)).1

found_or-next_found :
    (d k l : ℕ) (entries : List (ℕ × ℕ)) (f : Found)
    → found_or d ((k, l) ∷ entries) (next_found f) ≡ found_or l entries f
found_or-next_found d k l entries (hit index) = refl
found_or-next_found d k l entries (miss zero) = refl
found_or-next_found d k l entries (miss (suc index)) = refl

Increasing-le :
    (low : ℕ) (entries : List (ℕ × ℕ)) (high : ℕ) → Increasing low entries high → low ≤ high
Increasing-le low [] high h = h
Increasing-le low ((k, l) ∷ entries) high h =
    omega (arith, Increasing-le (suc k) entries high h.1, h.0)

floor_line-below :
    (d low : ℕ) (entries : List (ℕ × ℕ)) (high pc : ℕ)
    → Increasing low entries high
    → pc < low
    → floor_line d entries pc ≡ d
unfolding floor_line
floor_line-below d low [] high pc h p = refl
floor_line-below d low ((k, l) ∷ entries) high pc h p = ground (arith, h.0)

found_or-search :
    (d low : ℕ) (entries : List (ℕ × ℕ)) (high pc : ℕ)
    → Increasing low entries high
    → found_or d entries (search entries pc) ≡ floor_line d entries pc
unfolding search floor_line
found_or-search d low [] high pc h = refl
found_or-search d low ((k, l) ∷ entries) high pc h = ground (
  arith,
  found_or-search l (suc k) entries high pc h.1,
  found_or-next_found d k l entries (search entries pc),
  floor_line-below l (suc k) entries high pc h.1,
)

line_of_found-eq :
    (entries : List (ℕ × ℕ)) (f : Found) → line_of_found entries f ≡ found_or 0 entries f
line_of_found-eq entries (hit index) = refl
line_of_found-eq entries (miss zero) = refl
line_of_found-eq entries (miss (suc index)) = refl

-- On increasing keys `line_at` answers the line of the last entry at or below the pc, and 0
-- before the first.
pub line_at-floor_line :
    (low : ℕ) (entries : List (ℕ × ℕ)) (high pc : ℕ)
    → Increasing low entries high
    → line_at entries pc ≡ floor_line 0 entries pc
unfolding line_at
line_at-floor_line low entries high pc h =
    line_of_found-eq entries (search entries pc) ∙ found_or-search 0 low entries high pc h

Increasing-snoc :
    (low : ℕ) (entries : List (ℕ × ℕ)) (at line high : ℕ)
    → Increasing low entries at
    → at < high
    → Increasing low (entries ++ ((at, line) ∷ [])) high
Increasing-snoc low [] at line high h l = omega arith
Increasing-snoc low ((k, m) ∷ entries) at line high h l =
    (h.0, Increasing-snoc (suc k) entries at line high h.1 l)

Increasing-mono :
    (low : ℕ) (entries : List (ℕ × ℕ)) (at high : ℕ)
    → Increasing low entries at
    → at ≤ high
    → Increasing low entries high
Increasing-mono low [] at high h l = omega arith
Increasing-mono low ((k, m) ∷ entries) at high h l =
    (h.0, Increasing-mono (suc k) entries at high h.1 l)

floor_line-snoc_above :
    (d low : ℕ) (entries : List (ℕ × ℕ)) (at line pc : ℕ)
    → Increasing low entries at
    → at ≤ pc
    → floor_line d (entries ++ ((at, line) ∷ [])) pc ≡ line
unfolding floor_line
floor_line-snoc_above d low [] at line pc h l = ground arith
floor_line-snoc_above d low ((k, m) ∷ entries) at line pc h l = ground (
  arith,
  floor_line-snoc_above m (suc k) entries at line pc h.1 l,
  Increasing-le (suc k) entries at h.1,
)

floor_line-snoc_below :
    (d low : ℕ) (entries : List (ℕ × ℕ)) (at line pc : ℕ)
    → Increasing low entries at
    → pc < at
    → floor_line d (entries ++ ((at, line) ∷ [])) pc ≡ floor_line d entries pc
unfolding floor_line
floor_line-snoc_below d low [] at line pc h l = ground arith
floor_line-snoc_below d low ((k, m) ∷ entries) at line pc h l =
    ground (arith, floor_line-snoc_below m (suc k) entries at line pc h.1 l)

floor_line-last :
    (d low : ℕ) (entries : List (ℕ × ℕ)) (at line pc : ℕ)
    → Increasing low entries at
    → at ≤ pc
    → last_line entries ≡ some line
    → floor_line d entries pc ≡ line
unfolding floor_line last_line
floor_line-last d low [] at line pc h l e = cc
floor_line-last d low ((k, m) ∷ []) at line pc h l e = ground arith
floor_line-last d low ((k, m) ∷ (k', m') ∷ entries) at line pc h l e = ground (
  arith,
  floor_line-last m (suc k) ((k', m') ∷ entries) at line pc h.1 l e,
  Increasing-le (suc k) ((k', m') ∷ entries) at h.1,
)

-- The entries begin at instructions that are already in the code, in order.
abbrev pub IsLined : Encoder → Type 0
IsLined enc = Increasing 0 enc.lines (length enc.code)

module _ (enc : Encoder) (op : Op) (line : ℕ) (lined : IsLined enc)
    (short : length enc.code < 2 ^ 32) where
  grows : length enc.code < length (emit enc op line).0.code
  unfolding emit written
  grows = omega (arith, length-append enc.code (written (instruction op).0 (instruction op).1))

  emit-lines :
      ((emit enc op line).0.lines ≡ enc.lines ++ ((length enc.code, line) ∷ []))
      ⊎ (((emit enc op line).0.lines ≡ enc.lines) × (last_line enc.lines ≡ some line))
  unfolding emit pc is_line
  emit-lines = ground arith

  -- `emit` keeps the line table in order: its keys increase and lie inside the code. The code must
  -- be shorter than 2 ^ 32 bytes.
  pub emit-IsLined : IsLined (emit enc op line).0
  emit-IsLined = elim emit-lines [
    | inl e ↦ rw e (Increasing-snoc 0 enc.lines (length enc.code) line _ lined grows)
    | inr (e, f) ↦
        rw e (Increasing-mono 0 enc.lines (length enc.code) _ lined (omega (arith, grows)))
  ]

  emit-floor_line :
      (pc : ℕ)
      → floor_line 0 (emit enc op line).0.lines pc
        ≡ (if ltb pc (length enc.code) then floor_line 0 enc.lines pc else line)
  emit-floor_line pc = elim emit-lines [
    | inl e ↦ rw e (
        ground (
          arith,
          floor_line-snoc_above 0 0 enc.lines (length enc.code) line pc lined,
          floor_line-snoc_below 0 0 enc.lines (length enc.code) line pc lined,
        ))
    | inr (e, f) ↦
        rw e (ground (arith, floor_line-last 0 0 enc.lines (length enc.code) line pc lined))
  ]

  -- After `emit`, `line_at` answers the instruction's line at every pc from its first byte on, and
  -- what it answered before at every earlier pc. The line table must be in order before, which
  -- `emit` keeps, and the code shorter than 2 ^ 32 bytes.
  pub line_at-emit :
      (pc : ℕ)
      → line_at (emit enc op line).0.lines pc
        ≡ (if ltb pc (length enc.code) then line_at enc.lines pc else line)
  line_at-emit pc =
      rw (line_at-floor_line 0 _ _ pc emit-IsLined, line_at-floor_line 0 _ _ pc lined)
        (emit-floor_line pc)
