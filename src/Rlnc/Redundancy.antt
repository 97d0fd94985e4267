-- ===== src/Rlnc/Redundancy.antt =====
-- How many pieces are made: `redundancy` and `target_n` of crates/craftec-rlnc/src/encoder.rs. A
-- number of type f64 is its 53 bit significand over a power of two; each operation rounds its exact
-- value to the nearest such number, and to the even one of two that are as near. The values here
-- are from 2 ^ (-28) to 2 ^ 34.
pub mod Rounding
pub mod Bounds
use craftec.Prelude.{
  ℕ, zero, suc, ◌+◌, ◌-◌, ◌*◌, ◌/◌, ◌%◌, ◌^◌, ◌==◌, ltb, leb, ◌&&◌, ◌||◌, if◌then◌else◌,
}

pub record F64 : Type 0 where
  pub significand : ℕ
  pub scale : ℕ

-- The least scale, from `s` on, at which the quotient has 53 bits.
unfoldable pub scale_for : ℕ → ℕ → ℕ → ℕ → ℕ
scale_for zero s a b = s
scale_for (suc fuel) s a b =
    let rest = scale_for fuel (s + 1) a b in if leb (2 ^ 52 * b) (a * 2 ^ s) then s else rest

-- The quotient of `n` by `b`, rounded to the nearest, to the even one of two.
unfoldable pub nearest : ℕ → ℕ → ℕ
nearest n b =
    let q = n / b in
    let r = n % b in if ltb (2 * r) b then q else if ltb b (2 * r) then q + 1 else q + q % 2

-- The number nearest to `a / b`.
unfoldable pub round : ℕ → ℕ → F64
unfolding scale_for nearest
round a b = let s = scale_for 128 0 a b in record { significand = nearest (a * 2 ^ s) b; scale = s }

-- `2.0 + 16.0 / k as f64`
unfoldable pub redundancy : ℕ → F64
unfolding round
redundancy k = let q = round 16 k in round (2 * 2 ^ q.scale + q.significand) (2 ^ q.scale)

unfoldable pub ceil : F64 → ℕ
ceil x = (x.significand + (2 ^ x.scale - 1)) / 2 ^ x.scale

-- For `k` from 1 on; `as u32` saturates.
unfoldable pub target_n : ℕ → ℕ
unfolding redundancy round ceil
target_n k =
    let r = redundancy k in
    let n = ceil (round (k * r.significand) (2 ^ r.scale)) in
    if ltb n (2 ^ 32) then n else 2 ^ 32 - 1
