-- ===== src/Rlnc/Gf256.antt =====
-- GF(2^8) arithmetic: crates/craftec-rlnc/src/gf256.rs. A byte is a number below 256; `^` on bytes
-- is `bit_xor`, and `a <<= 1` on a byte drops the carried bit.
pub mod Table
pub mod Field
pub mod Slow
pub mod Rows
use Prim.Native.Nat.{bit_and, bit_xor}
use mathlib.Core.Bool
use craftec.Prelude.{
  ℕ, zero, suc, ◌+◌, ◌-◌, ◌*◌, ◌/◌, ◌%◌, Bool, true, false, ◌||◌, List, [], ◌∷◌, ltb, ◌==◌,
  if◌then◌else◌, get_or, set, replicate,
}

-- `a <<= 1`, and the reduction by 0x1B if the top bit was set.
unfoldable pub xtime : ℕ → ℕ
xtime a =
    let hi = bit_and a 0x80 in
    let shifted = a * 2 % 256 in if hi == 0 then shifted else bit_xor shifted 0x1b

-- The loop `while b > 0`; a byte has 8 bits, so 8 rounds end it.
unfoldable pub mul_rounds : ℕ → ℕ → ℕ → ℕ → ℕ
mul_rounds zero result a b = result
mul_rounds (suc fuel) result a b =
    let next =
      mul_rounds fuel (if bit_and b 1 == 0 then result else bit_xor result a) (xtime a) (b / 2) in
    if b == 0 then result else next

unfoldable pub gf_mul_slow : ℕ → ℕ → ℕ
unfolding mul_rounds xtime
gf_mul_slow a b = mul_rounds 8 0 a b

-- The loop of `build_exp_table` from index `i` on, with `left` rounds to go.
unfoldable pub exp_rounds : ℕ → ℕ → ℕ → List ℕ → List ℕ
exp_rounds zero i x table = table
exp_rounds (suc left) i x table =
    exp_rounds left (i + 1) (gf_mul_slow x 3) (set (set table i x) (i + 255) x)

unfoldable pub build_exp_table : List ℕ
unfolding exp_rounds gf_mul_slow
build_exp_table = set (set (exp_rounds 255 0 1 (replicate 512 0)) 255 1) 510 1

-- The loop of `build_log_table`.
unfoldable pub log_rounds : List ℕ → ℕ → ℕ → List ℕ → List ℕ
log_rounds exp zero i table = table
log_rounds exp (suc left) i table =
    log_rounds exp left (i + 1) (set table (get_or exp i 0) (i % 256))

unfoldable pub build_log_table : List ℕ → List ℕ
unfolding log_rounds
build_log_table exp = log_rounds exp 255 0 (replicate 256 0)

unfoldable pub exp_table : List ℕ
unfolding build_exp_table
exp_table = build_exp_table

unfoldable pub log_table : List ℕ
unfolding build_log_table exp_table
log_table = build_log_table exp_table

-- `EXP_TABLE[i]` and `LOG_TABLE[a]`.
unfoldable pub exp_at : ℕ → ℕ
exp_at i = get_or exp_table i 0

unfoldable pub log_at : ℕ → ℕ
log_at a = get_or log_table a 0

unfoldable pub gf_add : ℕ → ℕ → ℕ
gf_add a b = bit_xor a b

unfoldable pub gf_mul : ℕ → ℕ → ℕ
gf_mul a b = if a == 0 || b == 0 then 0 else exp_at (log_at a + log_at b)

-- The caller keeps `b` away from 0, where a debug build panics.
unfoldable pub gf_div : ℕ → ℕ → ℕ
gf_div a b = if a == 0 then 0 else exp_at (log_at a + 255 - log_at b)

-- The caller keeps `a` away from 0, where a debug build panics.
unfoldable pub gf_inv : ℕ → ℕ
gf_inv a = exp_at (255 - log_at a)

-- The two loops of `gf_vec_mul_add`: `zip` stops at the shorter slice, and the rest of `dst` stays.
unfoldable pub xor_into : List ℕ → List ℕ → List ℕ
xor_into [] src = []
xor_into (d ∷ dst) [] = d ∷ dst
xor_into (d ∷ dst) (s ∷ src) = bit_xor d s ∷ xor_into dst src

unfoldable pub mul_into : ℕ → List ℕ → List ℕ → List ℕ
mul_into log_c [] src = []
mul_into log_c (d ∷ dst) [] = d ∷ dst
mul_into log_c (d ∷ dst) (s ∷ src) =
    (if s == 0 then d else bit_xor d (exp_at (log_c + log_at s))) ∷ mul_into log_c dst src

unfoldable pub gf_vec_mul_add : List ℕ → List ℕ → ℕ → List ℕ
gf_vec_mul_add dst src coeff =
    if coeff == 0
    then dst
    else if coeff == 1
    then xor_into dst src
    else mul_into (log_at coeff) dst src
