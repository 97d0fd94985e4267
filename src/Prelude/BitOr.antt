-- ===== src/Prelude/BitOr.antt =====
-- Shifted numbers joined by `|`.
use Prim.Native.Nat.{ℕ, zero, suc, ◌+◌, ◌*◌, ◌/◌, ◌%◌, ◌^◌, ◌<◌, bit_or, bit_or-bitwise, max}
use mathlib.Core.Path.{◌≡◌, refl, ap}
use native.Mathlib.Nat.{pow-suc}
use native.Mathlib.Omega.{arith}
use craftec.Prelude.Digits.{lowest_digit, zero_right}

bit_or_step : (a b : ℕ) → bit_or a b ≡ bit_or (a / 2) (b / 2) * 2 + max (a % 2) (b % 2)
bit_or_step = lowest_digit (λ b. b) max bit_or (λ a b. bit_or-bitwise a b) (λ b. omega arith)

or_zero : (a : ℕ) → bit_or a 0 ≡ a
or_zero =
    zero_right (λ b. b) max bit_or (λ a b. bit_or-bitwise a b) (λ b. omega arith) (λ a. a) refl
      (λ a. omega arith)

pub bit_or-shifted : (k q r : ℕ) → r < 2 ^ k → bit_or (q * 2 ^ k) r ≡ q * 2 ^ k + r
bit_or-shifted zero q r h =
    let e : r ≡ 0 = omega arith in
    let e' : q * 2 ^ 0 ≡ q = omega arith in rw (e, e') (omega (arith, or_zero q))
bit_or-shifted (suc k) q r h =
    let twice : q * 2 ^ suc k ≡ 2 * (q * 2 ^ k) =
      omega (arith, pow-suc 2 k, ap (λ (t : ℕ). q * t) (pow-suc 2 k)) in
    let half : q * 2 ^ suc k / 2 ≡ q * 2 ^ k = omega arith in
    let even : q * 2 ^ suc k % 2 ≡ 0 = omega arith in
    rw (bit_or_step (q * 2 ^ suc k) r, half, even)
      (omega (arith, bit_or-shifted k q (r / 2) (omega (arith, pow-suc 2 k))))
