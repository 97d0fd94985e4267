-- ===== src/Health/Scanner/Fresh.antt =====
-- What a scan says of content that was just encoded: crates/craftec-health/src/scanner.rs and
-- `target_n` of crates/craftec-rlnc/src/encoder.rs.
use craftec.Prelude.{
  ℕ, ◌+◌, ◌-◌, ◌*◌, ◌/◌, ◌^◌, ◌≤◌, ◌<◌, ◌≡◌, refl, arith, some, ltb, max, true, false,
}
use craftec.Health.Scanner.{normal, evaluate_cid, k_or_default, target_piece_count}
use craftec.Health.Tracker.{PieceTracker, available_count, get_k}
use craftec.Rlnc.Redundancy.{target_n}
use craftec.Rlnc.Redundancy.Bounds.{target_n_lem}
use native.Mathlib.Nat.{div-eq_of_lt-le, mod-eq_of_lt}

target_piece_count-large : (k : ℕ) → 17 ≤ k → k ≤ 2 ^ 30 → target_piece_count k ≡ k * 3
unfolding target_piece_count
target_piece_count-large k low high =
    let same : max k 1 ≡ k = ground arith in
    let one_more : (16 + (k - 1)) / k ≡ 1 = div-eq_of_lt-le k (omega arith) (omega arith) in
    rw (same, one_more) (mod-eq_of_lt (omega arith))

between : (a k t : ℕ) → k ≤ a → a < t → (ltb a k ≡ false) × (ltb a t ≡ true)
between a k t p q = ground arith

-- For `k` from 18 to `2 ^ 30`: content of which there are as many pieces as the encoder makes is
-- put up for repair, towards three times `k` pieces.
pub evaluate_cid-target_n :
    (t : PieceTracker) (cid k : ℕ)
    → 18 ≤ k
    → k ≤ 2 ^ 30
    → get_k t cid ≡ some k
    → available_count t cid ≡ target_n k
    → evaluate_cid t cid ≡ some (normal cid (target_n k) (k * 3))
unfolding evaluate_cid k_or_default
evaluate_cid-target_n t cid k low high known all =
    let (least, most) = target_n_lem k (omega arith) high in
    let (enough, short) =
      between (target_n k) k (k * 3) (omega (arith, least)) (omega (arith, most)) in
    rw (known, all, target_piece_count-large k (omega arith) high, enough, short) refl
