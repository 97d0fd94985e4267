-- ===== src/Net/Swim/Gossip.antt =====
-- How much gossip a ping carries: `adaptive_piggyback_count` of crates/craftec-net/src/swim.rs.
use craftec.Prelude.{
  ℕ, zero, suc, ◌+◌, ◌/◌, ◌^◌, ◌≤◌, ◌<◌, ◌≡◌, max, arith, ◌==◌, ltb, leb, Bool-cases, ==_iff, inl,
  inr,
}
use native.Mathlib.Nat.{pow-suc, pow-le-pow_right, one-le-pow}
use craftec.Net.Swim.{log2_rounds, adaptive_piggyback_count}

-- `2 ^ r` is the greatest power of two that is at most `n`.
log2_rounds_lem :
    (f n : ℕ) → 1 ≤ n → n < 2 ^ suc f → (2 ^ log2_rounds f n ≤ n) × (n < 2 ^ suc (log2_rounds f n))
unfolding log2_rounds
log2_rounds_lem zero n p h = (p, h)
log2_rounds_lem (suc f) n p h = elim (Bool-cases (ltb n 2)) [
  | inl b ↦ rw b (p, ground arith)
  | inr b ↦
      let r = log2_rounds f (n / 2) in
      let ih : (2 ^ r ≤ n / 2) × (n / 2 < 2 ^ suc r) =
        log2_rounds_lem f (n / 2) (ground arith) (omega (arith, pow-suc 2 (suc f))) in
      let e : r + 1 ≡ suc r = omega arith in
      rw (b, e) (omega (arith, pow-suc 2 r, ih), omega (arith, pow-suc 2 (suc r), ih))
]

below_pow : (n r k : ℕ) → 2 ^ r ≤ n → n ≤ 2 ^ k → r ≤ k
below_pow n r k p q = elim (Bool-cases (leb r k)) [
  | inl h ↦ ground arith
  | inr h ↦ absurd (
      omega (
        arith,
        pow-suc 2 k,
        one-le-pow k 2,
        pow-le-pow_right {n = 2} (omega arith) {i = suc k} {j = r} (ground arith),
      ))
]

below_pow_lt : (n r k : ℕ) → 2 ^ r < n → n ≤ 2 ^ k → r < k
below_pow_lt n r k p q = elim (Bool-cases (ltb r k)) [
  | inl h ↦ ground arith
  | inr h ↦
      absurd (omega (arith, pow-le-pow_right {n = 2} (omega arith) {i = k} {j = r} (ground arith)))
]

-- The gossip count `c` of a cluster of `n < 2 ^ 64` is at least 4, suffices for `n ≤ 2 ^ c`, and no
-- smaller `k` from 4 on does: any `k` that suffices is at least `c`.
pub adaptive_piggyback_count_lem :
    (n k : ℕ)
    → n < 2 ^ 64
    → 4 ≤ k
    → n ≤ 2 ^ k
    → let c = adaptive_piggyback_count n in (4 ≤ c) × (n ≤ 2 ^ c) × (c ≤ k)
unfolding adaptive_piggyback_count
adaptive_piggyback_count_lem n k h p q = elim (Bool-cases (leb n 16)) [
  | inl small ↦ rw small (omega arith, ground arith, p)
  | inr large ↦
      let r = log2_rounds 64 n in
      let e = log2_rounds_lem 64 n (ground arith) (omega arith) in
      elim (Bool-cases (n == 2 ^ r)) [
        | inl exact ↦
            rw (large, exact)
              (
                omega arith,
                omega (
                  (==_iff n (2 ^ r)).0 exact,
                  arith,
                  pow-le-pow_right {n = 2} (omega arith) {i = r} {j = max r 4} (omega arith),
                  e,
                ),
                omega (arith, below_pow n r k (e.0) q),
              )
        | inr between ↦
            rw (large, between)
              (
                omega arith,
                omega (
                  arith,
                  pow-le-pow_right {n = 2} (omega arith) {i = suc r} {j = max (r + 1) 4}
                      (omega arith),
                  e,
                ),
                omega (arith, below_pow_lt n r k (ground arith) q),
              )
      ]
]
