-- ===== src/Rlnc/Redundancy/Rounding.antt =====
-- How far a rounded quotient is from the exact one: crates/craftec-rlnc/src/encoder.rs.
use craftec.Prelude.{
  ℕ, zero, suc, ◌+◌, ◌-◌, ◌*◌, ◌/◌, ◌%◌, ◌^◌, ◌≤◌, ◌<◌, ◌≡◌, refl, sym, arith, leb, ltb, ◌==◌,
  Bool-cases, inl, inr,
}
use native.Mathlib.Nat.{div-add-mod, mod-lt}
use craftec.Rlnc.Redundancy.{F64, scale_for, nearest, round}

scale_for_lem :
    (fuel s a b : ℕ) → 2 ^ 52 * b ≤ a * 2 ^ (s + fuel) → 2 ^ 52 * b ≤ a * 2 ^ scale_for fuel s a b
unfolding scale_for
scale_for_lem zero s a b h = let e : s + 0 ≡ s = omega arith in rw e at h
scale_for_lem (suc fuel) s a b h = elim (Bool-cases (leb (2 ^ 52 * b) (a * 2 ^ s))) [
  | inl e ↦ rw e (let q : 2 ^ 52 * b ≤ a * 2 ^ s = ground arith in q)
  | inr e ↦ rw e (
      let same : s + suc fuel ≡ (s + 1) + fuel = omega arith in
      scale_for_lem fuel (s + 1) a b (rw (← same) h))
]

nearest_lem :
    (n b : ℕ) → 0 < b → (2 * (nearest n b * b) ≤ 2 * n + b) × (2 * n ≤ 2 * (nearest n b * b) + b)
unfolding nearest
nearest_lem n b pos =
    let q = n / b in
    let parts : n ≡ b * q + n % b = sym (div-add-mod n b) in
    let rem : n % b < b = mod-lt n pos in
    elim (Bool-cases (ltb (2 * (n % b)) b)) [
      | inl e ↦ rw e (ground (arith, parts), ground (arith, parts, rem))
      | inr e ↦ elim (Bool-cases (ltb b (2 * (n % b)))) [
        | inl f ↦ rw (e, f) (ground (arith, parts, rem), ground (arith, parts, rem))
        | inr f ↦ elim (Bool-cases (q % 2 == 0)) [
          | inl g ↦
              let even : q % 2 ≡ 0 = ground arith in
              rw (e, f, even) (ground (arith, parts), ground (arith, parts))
          | inr g ↦
              let odd : q % 2 ≡ 1 = ground arith in
              rw (e, f, odd) (ground (arith, parts), ground (arith, parts))
        ]
      ]
    ]

-- The number is `a / b` up to one part in `2 ^ 53`.
pub record IsNear (a b : ℕ) (x : F64) : Type 0 where
  pub above : 2 ^ 53 * (x.significand * b) ≤ (2 ^ 53 + 1) * (a * 2 ^ x.scale)
  pub below : (2 ^ 53 - 1) * (a * 2 ^ x.scale) ≤ 2 ^ 53 * (x.significand * b)

-- A quotient that is neither zero nor too small is rounded to a number near it.
pub round-IsNear : (a b : ℕ) → 0 < b → 2 ^ 52 * b ≤ a * 2 ^ 128 → IsNear a b (round a b)
unfolding round
round-IsNear a b pos h =
    let s = scale_for 128 0 a b in
    let n = a * 2 ^ s in
    let same : 0 + 128 ≡ 128 = refl in
    let big : 2 ^ 52 * b ≤ n = scale_for_lem 128 0 a b h in
    let (up, down) = nearest_lem n b pos in
    record { above = omega (arith, big, up, down); below = omega (arith, big, up, down) }
