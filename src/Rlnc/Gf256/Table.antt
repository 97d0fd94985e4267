-- ===== src/Rlnc/Gf256/Table.antt =====
-- Facts about the two tables, each checked by evaluating every entry.
use craftec.Prelude.{
  ℕ, ◌+◌, ◌%◌, ◌<◌, Bool, true, ◌&&◌, List, ltb, ◌==◌, ==_iff, ◌≡◌, refl, ◌||◌, get_or, arith,
  holds_below, holds_below_lem,
}
use craftec.Rlnc.Gf256.{exp_table, log_table, exp_at, log_at, gf_mul_slow}

-- The entries of the exponential table up to index 510 are powers of the generator 3.
abbrev check_step : List ℕ → Bool
check_step exp = holds_below 510 (λ i. get_or exp (i + 1) 0 == gf_mul_slow (get_or exp i 0) 3)

step_table : check_step exp_table ≡ true
unfolding holds_below exp_table gf_mul_slow
step_table = refl

pub exp_at-suc : (i : ℕ) → i < 510 → exp_at (i + 1) ≡ gf_mul_slow (exp_at i) 3
unfolding exp_at
exp_at-suc i h = (==_iff _ _).0 (holds_below_lem 510 _ i step_table h)

pub exp_at-zero : exp_at 0 ≡ 1
unfolding exp_at exp_table
exp_at-zero = refl

abbrev check_log : List ℕ → List ℕ → Bool
check_log exp log = holds_below 510 (λ i. get_or log (get_or exp i 0) 0 == i % 255)

log_check : check_log exp_table log_table ≡ true
unfolding holds_below log_table
log_check = refl

pub log_at-exp_at : (i : ℕ) → i < 510 → log_at (exp_at i) ≡ i % 255
unfolding exp_at log_at
log_at-exp_at i h = (==_iff _ _).0 (holds_below_lem 510 _ i log_check h)

abbrev check_exp : List ℕ → List ℕ → Bool
check_exp exp log =
    holds_below 256
      (λ a. (a == 0 || get_or exp (get_or log a 0) 0 == a) && ltb (get_or log a 0) 255)

exp_check : check_exp exp_table log_table ≡ true
unfolding holds_below log_table
exp_check = refl

exp_entry : (a : ℕ) → a < 256 → ((a == 0 || exp_at (log_at a) == a) && ltb (log_at a) 255) ≡ true
unfolding exp_at log_at
exp_entry a h = holds_below_lem 256 _ a exp_check h

-- The exponential of the logarithm is the identity on the bytes other than 0.
pub exp_at-log_at : (a : ℕ) → a < 256 → 0 < a → exp_at (log_at a) ≡ a
exp_at-log_at a h pos = ground (arith, exp_entry a h)

pub log_at-lt : (a : ℕ) → a < 256 → log_at a < 255
log_at-lt a h = ground (arith, exp_entry a h)

abbrev check_range : List ℕ → Bool
check_range exp =
    holds_below 512 (λ i. ltb (get_or exp i 0) 256 && (ltb 510 i || ltb 0 (get_or exp i 0)))

range_check : check_range exp_table ≡ true
unfolding holds_below exp_table
range_check = refl

exp_range : (i : ℕ) → i < 512 → (ltb (exp_at i) 256 && (ltb 510 i || ltb 0 (exp_at i))) ≡ true
unfolding exp_at
exp_range i h = holds_below_lem 512 _ i range_check h

pub exp_at-lt : (i : ℕ) → i < 512 → exp_at i < 256
exp_at-lt i h = ground (arith, exp_range i h)

pub exp_at-pos : (i : ℕ) → i < 511 → 0 < exp_at i
exp_at-pos i h = ground (arith, exp_range i (omega arith))
