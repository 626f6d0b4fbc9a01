-- ===== src/Runtime/Table/Bucket.antt =====
-- The slices of the integer keys: `bucket_of` of crates/ruta-runtime/src/heap/table/store.rs.
use native.Mathlib.Decide.{dec_lt}
use native.Mathlib.Nat.{pow-suc, pow-le-pow_right}
use ruta.Prelude.{
  ℕ, zero, suc, ◌+◌, ◌*◌, ◌/◌, ◌^◌, ◌<◌, ◌≤◌, ◌≡◌, refl, arith, ◌==◌, if◌then◌else◌, Option, none,
  some,
}
use ruta.Prelude.Int.{ℤ, pos, negsuc, IsI64}
use ruta.Runtime.Table.Size.{halvings, ilog2, bucket_of}

halvings_lem :
    (fuel n : ℕ)
    → 1 ≤ n
    → n < 2 ^ (fuel + 1)
    → (2 ^ halvings fuel n ≤ n) × (n < 2 ^ (halvings fuel n + 1))
unfolding halvings
halvings_lem zero n l h = ground arith
halvings_lem (suc fuel) n l h =
    let half = halvings fuel (n / 2) in
    ground
      (arith, halvings_lem fuel (n / 2), pow-suc 2 (fuel + 1), pow-suc 2 half, pow-suc 2 (suc half))

-- The slice of a bucket: the keys above the half of its power of two, up to it.
abbrev pub InBucket : ℤ → Option ℕ → Type 0
InBucket (pos k) (some b) = (k ≤ 2 ^ b) × (2 ^ b < 2 * k) × (b < 64)
InBucket (negsuc k) (some b) = 1 ≤ 0
InBucket (pos k) none = k ≡ 0
InBucket (negsuc k) none = 0 ≤ k

small : (p : ℕ) → 2 ^ p < 2 ^ 63 → p < 63
small p h = elim (dec_lt p 63) [
  | yes l ↦ l
  | no n ↦ ground (arith, pow-le-pow_right {n = 2} (omega arith) {i = 63} {j = p})
]

slice :
    (n p : ℕ)
    → 2 ^ p ≤ n
    → n < 2 ^ (p + 1)
    → p < 63
    → InBucket (pos n) (some (if n == 2 ^ p then p else p + 1))
slice n p l u h = ground (arith, pow-suc 2 p)

-- `bucket_of` answers, for an `i64`, the power of two whose slice it is in, or that it is not positive.
pub bucket_of-InBucket : (key : ℤ) → IsI64 key → InBucket key (bucket_of key)
unfolding bucket_of
bucket_of-InBucket (pos zero) h = refl
bucket_of-InBucket (pos (suc k)) h =
    let (l, u) = halvings_lem 64 (suc k) (omega arith) (omega arith) in
    slice (suc k) (ilog2 (suc k)) l u (small (ilog2 (suc k)) (omega arith))
bucket_of-InBucket (negsuc k) h = omega arith
