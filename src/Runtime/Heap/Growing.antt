-- ===== src/Runtime/Heap/Growing.antt =====
-- Growing the table of short strings: crates/ruta-runtime/src/heap/string.rs.
use ruta.Prelude.{
  ℕ, zero, suc, ◌+◌, ◌<◌, ◌≡◌, ◌≢◌, ◌⊎◌, inl, inr, refl, sym, ap, ◌∙◌, arith, Option, none, some,
  List, [], ◌∷◌, length, get_elem?, get_elem?-set, get_elem?-set_other, length-set, set, replicate,
  ok,
}
use ruta.Prelude.Bits.{doubled}
use ruta.Runtime.Heap.{Heap}
use ruta.Runtime.Heap.Strings.{bytes_at, reinsert}
use ruta.Runtime.Heap.Probing.{Slots, Holds, Empty, apart}
use ruta.Runtime.Heap.Interned.{In, IsTable, Inserted, insert-Inserted, written-cases}

-- The slots in use.
abbrev pub used : Slots → ℕ
used [] = 0
used (none ∷ slots) = used slots
used (some handle ∷ slots) = suc (used slots)

pub used-room : (slots : Slots) → used slots < length slots → (e : ℕ) × Empty slots e
used-room [] h = absurd (omega arith)
used-room (none ∷ slots) h = (0, refl)
used-room (some handle ∷ slots) h = let (e, m) = used-room slots (omega arith) in (suc e, m)

pub used-set :
    (slots : Slots) (i handle : ℕ)
    → Empty slots i
    → used (set slots i (some handle)) ≡ suc (used slots)
used-set [] i handle m = absurd cc
used-set (none ∷ slots) zero handle m = refl
used-set (some other ∷ slots) zero handle m = absurd cc
used-set (none ∷ slots) (suc i) handle m = used-set slots i handle m
used-set (some other ∷ slots) (suc i) handle m = ap (λ n. suc n) (used-set slots i handle m)

-- A table of unused slots.
pub used-replicate : (n : ℕ) → used (replicate n none) ≡ 0
used-replicate zero = refl
used-replicate (suc n) = used-replicate n

pub length-replicate : (n : ℕ) → length (replicate {A = Option ℕ} n none) ≡ n
length-replicate zero = refl
length-replicate (suc n) = ap (λ m. suc m) (length-replicate n)

pub nothing-Holds : (n i handle : ℕ) → Holds (replicate n none) i handle → ⊥
nothing-Holds zero i handle h = cc
nothing-Holds (suc n) zero handle h = cc
nothing-Holds (suc n) (suc i) handle h = nothing-Holds n i handle h

module _ (key : ℕ → List ℕ) where
  pub nothing-IsTable : (k n : ℕ) → n ≡ doubled k → IsTable key (replicate n none)
  nothing-IsTable k n e = record {
    power = k;
    sized = length-replicate n ∙ e;
    reached = λ i handle u h m. absurd (nothing-Holds n i handle h);
    distinct = λ i j first second g h same. absurd (nothing-Holds n i first g);
  }

  -- What an insertion keeps and adds.
  pub In-Inserted :
      (slots after : Slots) (handle other : ℕ)
      → Inserted key slots after handle
      → In key slots other ⊎ (other ≡ handle)
      → In key after other
  In-Inserted slots after handle other p (inl (i, h)) =
      let kept =
        get_elem?-set_other slots p.index i (some handle)
          (λ e. apart slots i p.index other h p.unused (sym e)) in
      (i, ap (λ s. get_elem? s i) p.written ∙ (kept ∙ h))
  In-Inserted slots after handle other p (inr same) = (
    p.index,
    ap (λ s. get_elem? s p.index) p.written
        ∙ (get_elem?-set slots p.index none (some handle) p.unused
            ∙ ap (λ n. some (some n)) (sym same)),
  )

  -- What it holds was there or was added.
  pub Inserted-In :
      (slots after : Slots) (handle other : ℕ)
      → Inserted key slots after handle
      → In key after other
      → In key slots other ⊎ (other ≡ handle)
  Inserted-In slots after handle other p (i, h) =
      elim (written-cases key slots p.index i handle (some other) p.unused
        (ap (λ s. get_elem? s i) (sym p.written) ∙ h)) [
          | inl (at, slot) ↦ inr cc
          | inr (away, old) ↦ inl (i, old)
        ]

  pub used-Inserted :
      (slots after : Slots) (handle : ℕ)
      → Inserted key slots after handle
      → used after ≡ suc (used slots)
  used-Inserted slots after handle p =
      ap (λ s. used s) p.written ∙ used-set slots p.index handle p.unused

  pub length-Inserted :
      (slots after : Slots) (handle : ℕ)
      → Inserted key slots after handle
      → length after ≡ length slots
  length-Inserted slots after handle p =
      ap (λ (s : Slots). length s) p.written ∙ length-set slots p.index (some handle)

  -- What reinserting an old table's handles leaves.
  pub record Reinserted (old slots after : Slots) : Type 0 where
    pub is_table : IsTable key after
    pub counted : used after ≡ used slots + used old
    pub as_long : length after ≡ length slots
    pub keeps : (handle : ℕ) → In key slots handle ⊎ In key old handle → In key after handle
    pub adds : (handle : ℕ) → In key after handle → In key slots handle ⊎ In key old handle

  -- The bytes of every handle can be read.
  abbrev pub Readable : Heap → Slots → Type 0
  Readable h slots = (i handle : ℕ) → Holds slots i handle → bytes_at h handle ≡ ok (key handle)

  abbrev pub Distinct : Slots → Type 0
  Distinct slots =
      (i j first second : ℕ)
      → Holds slots i first
      → Holds slots j second
      → key first ≡ key second
      → i ≡ j

  abbrev Fresh : Slots → Slots → Type 0
  Fresh old slots =
      (i j first second : ℕ) → Holds old i first → Holds slots j second → key second ≢ key first

  shifted : (slot : Option ℕ) (old : Slots) → Distinct (slot ∷ old) → Distinct old
  shifted slot old d i j first second g h same =
      let e : suc i ≡ suc j = d (suc i) (suc j) first second g h same in omega (arith, e)

  behind : (old : Slots) (handle : ℕ) → In key (none ∷ old) handle → In key old handle
  behind old handle (zero, g) = absurd cc
  behind old handle (suc i, g) = (i, g)

  -- The handle that was inserted is one that the table holds.
  moved :
      (handle : ℕ) (old slots placed : Slots) (other : ℕ)
      → Inserted key slots placed handle
      → In key slots other ⊎ In key (some handle ∷ old) other
      → In key placed other ⊎ In key old other
  moved handle old slots placed other q (inl i) =
      inl (In-Inserted slots placed handle other q (inl i))
  moved handle old slots placed other q (inr (zero, g)) =
      let same : other ≡ handle = cc in inl (In-Inserted slots placed handle other q (inr same))
  moved handle old slots placed other q (inr (suc i, g)) = inr (i, g)

  Fresh-Inserted :
      (handle : ℕ) (old slots placed : Slots)
      → Inserted key slots placed handle
      → Distinct (some handle ∷ old)
      → Fresh (some handle ∷ old) slots
      → Fresh old placed
  Fresh-Inserted handle old slots placed q d f i j first second g k same =
      elim (Inserted-In slots placed handle second q (j, k)) [
        | inl (l, there) ↦ f (suc i) l first second g there same
        | inr new ↦
            let e : suc i ≡ 0 = d (suc i) 0 first handle g refl (sym same ∙ ap key new) in
            omega (arith, e)
      ]

  pub reinsert-Reinserted :
      (h : Heap) (old slots : Slots)
      → IsTable key slots
      → Readable h old
      → Distinct old
      → Fresh old slots
      → used slots + used old < length slots
      → (after : Slots) × (reinsert h old slots ≡ ok after) × Reinserted old slots after
  unfolding reinsert
  reinsert-Reinserted h [] slots t r d f room = (
    slots,
    refl,
    record {
      is_table = t;
      counted = omega arith;
      as_long = refl;
      keeps = λ handle o. elim o [ inl i ↦ i | inr (i, g) ↦ absurd cc ];
      adds = λ handle i. inl i;
    },
  )
  reinsert-Reinserted h (none ∷ old) slots t r d f room =
      let (after, run, p) =
        reinsert-Reinserted h old slots t (λ i handle g. r (suc i) handle g) (shifted none old d)
          (λ i j first second g k. f (suc i) j first second g k) room in
      (
        after,
        run,
        record {
          is_table = p.is_table;
          counted = p.counted;
          as_long = p.as_long;
          keeps = λ handle o.
              p.keeps handle (elim o [ inl i ↦ inl i | inr i ↦ inr (behind old handle i) ]);
          adds = λ handle i. elim (p.adds handle i) [ inl g ↦ inl g | inr (j, g) ↦ inr (suc j, g) ];
        },
      )
  reinsert-Reinserted h (some handle ∷ old) slots t r d f room =
      let (e, m) = used-room slots (omega arith) in
      let (placed, put, q) =
        insert-Inserted key slots handle e t m (λ i other g. f 0 i handle other refl g) in
      let size = length-Inserted slots placed handle q in
      let count = used-Inserted slots placed handle q in
      let still : Fresh old placed =
        λ i j first second g k. Fresh-Inserted handle old slots placed q d f i j first second g k in
      let (after, run, p) =
        reinsert-Reinserted h old placed q.is_table (λ i other g. r (suc i) other g)
          (shifted (some handle) old d) still (omega (arith, size, count)) in
      (
        after,
        rw (r 0 handle refl, put) run,
        record {
          is_table = p.is_table;
          counted = omega (arith, p.counted, count);
          as_long = p.as_long ∙ size;
          keeps = λ other o. p.keeps other (moved handle old slots placed other q o);
          adds = λ other i. elim (p.adds other i) [
            | inr (j, g) ↦ inr (suc j, g)
            | inl g ↦ elim (Inserted-In slots placed handle other q g) [
              | inl old_one ↦ inl old_one
              | inr same ↦ inr (0, ap (λ n. some (some n)) (sym same))
            ]
          ];
        },
      )
