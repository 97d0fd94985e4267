-- ===== src/Rlnc/Redundancy/Bounds.antt =====
-- How many pieces `target_n` asks for: crates/craftec-rlnc/src/encoder.rs.
use craftec.Prelude.{
  ℕ, true, ◌+◌, ◌-◌, ◌*◌, ◌/◌, ◌^◌, ◌≤◌, ◌<◌, ◌≡◌, arith, leb, ltb, Bool-cases, inl, inr,
}
use native.Mathlib.Nat.{mul-le-mul_right, mul-lt-mul_of_pos_right, one-le-pow, le-div_iff_mul-le}
use craftec.Rlnc.Redundancy.{F64, round, redundancy, ceil, target_n}
use craftec.Rlnc.Redundancy.Rounding.{round-IsNear}

cancel : (x y n : ℕ) → 0 < n → x * n ≤ y * n → x ≤ y
cancel x y n pos h = elim (Bool-cases (leb x y)) [
  | inl e ↦ ground arith
  | inr e ↦
      let more : y < x = ground arith in
      absurd (omega (arith, mul-lt-mul_of_pos_right {k = n} more pos, h))
]

product_pos : (a b : ℕ) → 0 < a → 0 < b → 0 < a * b
product_pos a b p q = omega (arith, mul-le-mul_right b p)

-- The three roundings, for the quotient `m / a`, the sum `n / b` and the product `p / c`.
module _ (k a m b n c p : ℕ) (small : k < 2 ^ 32) (a_pos : 0 < a) (b_pos : 0 < b) where
  too_many :
      2 ^ 53 * (m * k) ≤ (2 ^ 53 + 1) * (16 * a)
      → 2 ^ 53 * (n * a) ≤ (2 ^ 53 + 1) * ((2 * a + m) * b)
      → 2 ^ 53 * (p * b) ≤ (2 ^ 53 + 1) * ((k * n) * c)
      → p ≤ (2 * k + 17) * c
  too_many h1 h2 h3 =
      let p1 = mul-le-mul_right (b * c) h1 in
      let p2 = mul-le-mul_right (k * c) h2 in
      let p3 = mul-le-mul_right a h3 in
      let limit : k ≤ 2 ^ 32 = omega arith in
      let p4 = mul-le-mul_right (a * (b * c)) limit in
      cancel p ((2 * k + 17) * c) (a * b) (product_pos a b a_pos b_pos)
        (omega (arith, p1, p2, p3, p4))

  too_few :
      0 < c
      → (2 ^ 53 - 1) * (16 * a) ≤ 2 ^ 53 * (m * k)
      → (2 ^ 53 - 1) * ((2 * a + m) * b) ≤ 2 ^ 53 * (n * a)
      → (2 ^ 53 - 1) * ((k * n) * c) ≤ 2 ^ 53 * (p * b)
      → (2 * k + 15) * c < p
  too_few c_pos h1 h2 h3 =
      let p1 = mul-le-mul_right (b * c) h1 in
      let p2 = mul-le-mul_right (k * c) h2 in
      let p3 = mul-le-mul_right a h3 in
      let limit : k ≤ 2 ^ 32 = omega arith in
      let p4 = mul-le-mul_right (a * (b * c)) limit in
      let some = product_pos a (b * c) a_pos (product_pos b c b_pos c_pos) in
      elim (Bool-cases (leb p ((2 * k + 15) * c))) [
        | inl e ↦
            let few : p ≤ (2 * k + 15) * c = ground arith in
            let p5 = mul-le-mul_right (a * b) few in
            absurd (omega (arith, p1, p2, p3, p4, p5, some))
        | inr e ↦ ground arith
      ]

ceil-le : (x : F64) (n : ℕ) → x.significand ≤ n * 2 ^ x.scale → ceil x ≤ n
unfolding ceil
ceil-le x n h =
    let pos : 0 < 2 ^ x.scale = one-le-pow x.scale 2 (omega arith) in
    elim (Bool-cases (leb (ceil x) n)) [
      | inl e ↦ unfold ceil in ground arith
      | inr e ↦
          unfold ceil in
          let more : n + 1 ≤ (x.significand + (2 ^ x.scale - 1)) / 2 ^ x.scale = ground arith in
          let q = (le-div_iff_mul-le pos).0 more in absurd (omega (arith, q, h, pos))
    ]

lt-ceil : (x : F64) (n : ℕ) → n * 2 ^ x.scale < x.significand → n < ceil x
unfolding ceil
lt-ceil x n h =
    let pos : 0 < 2 ^ x.scale = one-le-pow x.scale 2 (omega arith) in
    let q : n + 1 ≤ (x.significand + (2 ^ x.scale - 1)) / 2 ^ x.scale =
      (le-div_iff_mul-le pos).1 (omega (arith, h, pos)) in
    omega (arith, q)

-- A quotient that is nearly 2 is not tiny.
sum_large :
    (a m b n : ℕ) → 0 < a → 0 < b → (2 ^ 53 - 1) * ((2 * a + m) * b) ≤ 2 ^ 53 * (n * a) → b ≤ n
sum_large a m b n a_pos b_pos h = elim (Bool-cases (leb b n)) [
  | inl e ↦ ground arith
  | inr e ↦
      let less : n + 1 ≤ b = ground arith in
      absurd (omega (arith, h, mul-le-mul_right a less, product_pos a b a_pos b_pos))
]

fits : (n k : ℕ) → n ≤ 2 * k + 17 → k ≤ 2 ^ 30 → ltb n (2 ^ 32) ≡ true
fits n k h limit = ground arith

-- For `k` from 1 to `2 ^ 30`: the number of pieces is `2 * k + 16`, or one more than that, whatever
-- the roundings.
pub target_n_lem :
    (k : ℕ) → 1 ≤ k → k ≤ 2 ^ 30 → (2 * k + 16 ≤ target_n k) × (target_n k ≤ 2 * k + 17)
unfolding target_n redundancy
target_n_lem k pos limit =
    let q = round 16 k in
    let a = 2 ^ q.scale in
    let r = round (2 * a + q.significand) a in
    let b = 2 ^ r.scale in
    let p = round (k * r.significand) b in
    let a_pos : 0 < a = one-le-pow q.scale 2 (omega arith) in
    let b_pos : 0 < b = one-le-pow r.scale 2 (omega arith) in
    let c_pos : 0 < 2 ^ p.scale = one-le-pow p.scale 2 (omega arith) in
    let near_q = round-IsNear 16 k pos (omega arith) in
    let near_r = round-IsNear (2 * a + q.significand) a a_pos (omega arith) in
    let large = sum_large a q.significand b r.significand a_pos b_pos near_r.below in
    let near_p =
      round-IsNear (k * r.significand) b b_pos
        (omega (arith, large, mul-le-mul_right r.significand pos)) in
    let high = ceil-le p (2 * k + 17) (
      too_many k a q.significand b r.significand (2 ^ p.scale) p.significand (omega arith) a_pos
        b_pos near_q.above near_r.above near_p.above) in
    let low = lt-ceil p (2 * k + 15) (
      too_few k a q.significand b r.significand (2 ^ p.scale) p.significand (omega arith) a_pos
        b_pos c_pos near_q.below near_r.below near_p.below) in
    rw (fits (ceil p) k high limit) (omega (arith, low), high)
