-- ===== src/Prelude/BitAnd.antt =====
-- Masks of low bits.
use Prim.Native.Nat.{ℕ, zero, suc, ◌+◌, ◌-◌, ◌*◌, ◌/◌, ◌%◌, ◌^◌, ◌<◌, bit_and, bit_and-bitwise, min}
use mathlib.Core.Path.{◌≡◌, refl, ap, sym, ◌∙◌}
use native.Mathlib.Nat.{
  pow-suc, one-le-pow, mod-lt, div-add-mod, mul-add-mod_self_left, mod-eq_of_lt,
}
use native.Mathlib.Omega.{arith}
use craftec.Prelude.Digits.{lowest_digit, zero_right}

bit_and_step : (a b : ℕ) → bit_and a b ≡ bit_and (a / 2) (b / 2) * 2 + min (a % 2) (b % 2)
bit_and_step = lowest_digit (λ b. zero) min bit_and (λ a b. bit_and-bitwise a b) (λ b. omega arith)

and_zero : (a : ℕ) → bit_and a 0 ≡ 0
and_zero =
    zero_right (λ b. zero) min bit_and (λ a b. bit_and-bitwise a b) (λ b. omega arith) (λ a. 0) refl
      (λ a. omega arith)

-- The remainder by twice a power, from the remainder of the half.
mod-double : (p a : ℕ) → 0 < p → a % (2 * p) ≡ a / 2 % p * 2 + a % 2
mod-double p a h =
    let r = a / 2 % p * 2 + a % 2 in
    let small : a / 2 % p < p = mod-lt (a / 2) h in
    let split : a ≡ 2 * p * (a / 2 / p) + r = omega (arith, div-add-mod (a / 2) p) in
    ap (λ (t : ℕ). t % (2 * p)) split
    ∙ mul-add-mod_self_left (2 * p) (a / 2 / p) r
    ∙ mod-eq_of_lt (omega arith)

pub bit_and-mask : (k a : ℕ) → bit_and a (2 ^ k - 1) ≡ a % 2 ^ k
bit_and-mask zero a = omega (arith, and_zero a)
bit_and-mask (suc k) a =
    let mask : 2 ^ suc k - 1 ≡ 2 * (2 ^ k - 1) + 1 = omega (arith, pow-suc 2 k, one-le-pow k 2) in
    let half : (2 * (2 ^ k - 1) + 1) / 2 ≡ 2 ^ k - 1 = omega arith in
    let odd : (2 * (2 ^ k - 1) + 1) % 2 ≡ 1 = omega arith in
    let twice : 2 ^ suc k ≡ 2 * 2 ^ k = omega (arith, pow-suc 2 k) in
    rw (mask, bit_and_step a (2 * (2 ^ k - 1) + 1), half, odd)
      (let e : bit_and (a / 2) (2 ^ k - 1) * 2 + min (a % 2) 1 ≡ a % (2 * 2 ^ k) =
          omega
            (arith, bit_and-mask k (a / 2), mod-double (2 ^ k) a (omega (arith, one-le-pow k 2))) in
        e ∙ ap (λ (t : ℕ). a % t) (sym twice))
