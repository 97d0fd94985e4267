-- ===== src/Rlnc/Gf256/Slow.antt =====
-- Multiplication by the generator 3, as a linear map on bytes, and its powers.
use Prim.Native.Nat.{bit_xor}
use native.Mathlib.Nat.{add-zero}
use craftec.Prelude.{
  ℕ, zero, suc, ◌+◌, ◌/◌, ◌<◌, ◌≤◌, true, ◌&&◌, ◌==◌, ==_iff, ◌≡◌, refl, ap, sym, ◌∙◌, arith,
  holds_below, holds_below_lem, ltb,
}
use craftec.Prelude.Xor.{bit_xor_comm, bit_xor_assoc, bit_xor-lt}
use craftec.Rlnc.Gf256.{exp_at, log_at, gf_mul, gf_mul_slow, mul_rounds, xtime}
use craftec.Rlnc.Gf256.Table.{exp_at-suc, exp_at-zero, exp_at-log_at, log_at-lt}

pub xor_swap :
    (a b c d : ℕ) → bit_xor (bit_xor a b) (bit_xor c d) ≡ bit_xor (bit_xor a c) (bit_xor b d)
xor_swap a b c d = cc (
  bit_xor_assoc a b (bit_xor c d),
  bit_xor_assoc b c d,
  bit_xor_comm b c,
  bit_xor_assoc c b d,
  bit_xor_assoc a c (bit_xor b d),
)

xtime_rows :
    holds_below 256 (λ a. holds_below 256 (λ b. xtime (bit_xor a b) == bit_xor (xtime a) (xtime b)))
    ≡ true
unfolding holds_below xtime
xtime_rows = refl

pub xtime-bit_xor :
    (a b : ℕ) → a < 256 → b < 256 → xtime (bit_xor a b) ≡ bit_xor (xtime a) (xtime b)
xtime-bit_xor a b p q =
    (==_iff _ _).0 (holds_below_lem 256 _ b (holds_below_lem 256 _ a xtime_rows p) q)

xtime_range : holds_below 256 (λ a. ltb (xtime a) 256) ≡ true
unfolding holds_below xtime
xtime_range = refl

pub xtime-lt : (a : ℕ) → a < 256 → xtime a < 256
xtime-lt a h = ground (arith, holds_below_lem 256 _ a xtime_range h)

pub triple : ℕ → ℕ
triple a = gf_mul_slow a 3

triple_table : holds_below 256 (λ a. triple a == bit_xor a (xtime a)) ≡ true
unfolding holds_below triple gf_mul_slow
triple_table = refl

triple_lem : (a : ℕ) → a < 256 → triple a ≡ bit_xor a (xtime a)
triple_lem a h = (==_iff _ _).0 (holds_below_lem 256 _ a triple_table h)

pub xor-lt : (a b : ℕ) → a < 256 → b < 256 → bit_xor a b < 256
xor-lt a b p q = bit_xor-lt 8 a b p q

pub triple-lt : (a : ℕ) → a < 256 → triple a < 256
triple-lt a h = rw (triple_lem a h) (xor-lt a (xtime a) h (xtime-lt a h))

pub triple-bit_xor :
    (a b : ℕ) → a < 256 → b < 256 → triple (bit_xor a b) ≡ bit_xor (triple a) (triple b)
triple-bit_xor a b p q = cc (
  triple_lem (bit_xor a b) (xor-lt a b p q),
  triple_lem a p,
  triple_lem b q,
  xtime-bit_xor a b p q,
  xor_swap a b (xtime a) (xtime b),
)

xtime-triple : (a : ℕ) → a < 256 → xtime (triple a) ≡ triple (xtime a)
xtime-triple a h = cc (
  triple_lem a h,
  triple_lem (xtime a) (xtime-lt a h),
  xtime-bit_xor a (xtime a) h (xtime-lt a h),
)

-- Multiplication by the n-th power of the generator.
pub triples : ℕ → ℕ → ℕ
triples zero a = a
triples (suc n) a = triple (triples n a)

pub triples-lt : (n a : ℕ) → a < 256 → triples n a < 256
unfolding triples
triples-lt zero a h = h
triples-lt (suc n) a h = triple-lt (triples n a) (triples-lt n a h)

pub triples-bit_xor :
    (n a b : ℕ) → a < 256 → b < 256 → triples n (bit_xor a b) ≡ bit_xor (triples n a) (triples n b)
unfolding triples
triples-bit_xor zero a b p q = refl
triples-bit_xor (suc n) a b p q =
    ap triple (triples-bit_xor n a b p q)
    ∙ triple-bit_xor (triples n a) (triples n b) (triples-lt n a p) (triples-lt n b q)

triple-zero : triple 0 ≡ 0
unfolding triple gf_mul_slow
triple-zero = refl

pub triples-zero : (n : ℕ) → triples n 0 ≡ 0
unfolding triples
triples-zero zero = refl
triples-zero (suc n) = ap triple (triples-zero n) ∙ triple-zero

-- A step of n in the exponential table multiplies by the n-th power.
pub exp_at-add : (n i : ℕ) → n + i ≤ 510 → exp_at (n + i) ≡ triples n (exp_at i)
unfolding triples triple
exp_at-add zero i h = ap exp_at (omega arith)
exp_at-add (suc n) i h =
    let e : suc n + i ≡ n + i + 1 = omega arith in
    rw e (exp_at-suc (n + i) (omega arith) ∙ ap triple (exp_at-add n i (omega arith)))

pub gf_mul-triples : (a b : ℕ) → a < 256 → 0 < a → b < 256 → gf_mul a b ≡ triples (log_at a) b
unfolding gf_mul
gf_mul-triples a zero p pos q = ground (arith, triples-zero (log_at a))
gf_mul-triples a (suc b) p pos q = ground (
  arith,
  log_at-lt a p,
  log_at-lt (suc b) q,
  exp_at-add (log_at a) (log_at (suc b)),
  exp_at-log_at (suc b) q,
)

-- The bit loop is linear in the multiplicand.
rounds-triple :
    (f r a b : ℕ)
    → r < 256
    → a < 256
    → mul_rounds f (triple r) (triple a) b ≡ triple (mul_rounds f r a b)
unfolding mul_rounds
rounds-triple zero r a b p q = refl
rounds-triple (suc f) r a b p q = ground (
  arith,
  xtime-triple a q,
  xtime-lt a q,
  xor-lt r a p q,
  triple-bit_xor r a p q,
  rounds-triple f r (xtime a) (b / 2),
  rounds-triple f (bit_xor r a) (xtime a) (b / 2),
)

pub slow_lem : (a b : ℕ) → gf_mul_slow a b ≡ mul_rounds 8 0 a b
unfolding gf_mul_slow
slow_lem a b = refl

slow-triple : (a b : ℕ) → a < 256 → gf_mul_slow (triple a) b ≡ triple (gf_mul_slow a b)
slow-triple a b h =
    slow_lem (triple a) b
    ∙ ap (λ r. mul_rounds 8 r (triple a) b) (sym triple-zero)
    ∙ rounds-triple 8 0 a b (omega arith) h
    ∙ ap triple (sym (slow_lem a b))

slow-triples : (n a b : ℕ) → a < 256 → gf_mul_slow (triples n a) b ≡ triples n (gf_mul_slow a b)
unfolding triples
slow-triples zero a b h = refl
slow-triples (suc n) a b h =
    slow-triple (triples n a) b (triples-lt n a h) ∙ ap triple (slow-triples n a b h)

slow_edges : holds_below 256 (λ b. gf_mul_slow 1 b == b && gf_mul_slow 0 b == 0) ≡ true
unfolding holds_below gf_mul_slow
slow_edges = refl

slow_edge : (b : ℕ) → b < 256 → (gf_mul_slow 1 b == b && gf_mul_slow 0 b == 0) ≡ true
slow_edge b h = holds_below_lem 256 _ b slow_edges h

triples-one : (a : ℕ) → a < 256 → 0 < a → triples (log_at a) 1 ≡ a
triples-one a h pos = ground (
  arith,
  exp_at-add (log_at a) 0,
  log_at-lt a h,
  exp_at-zero,
  exp_at-log_at a h,
  add-zero (log_at a),
)

-- For all bytes, the multiplication by the logarithm tables equals the polynomial
-- multiplication, by shift and conditional exclusive or, modulo 0x11B.
pub gf_mul-eq-slow : (a b : ℕ) → a < 256 → b < 256 → gf_mul a b ≡ gf_mul_slow a b
gf_mul-eq-slow zero b p q = unfold gf_mul in ground (arith, slow_edge b q)
gf_mul-eq-slow (suc a) b p q = ground (
  arith,
  gf_mul-triples (suc a) b p,
  slow-triples (log_at (suc a)) 1 b,
  triples-one (suc a) p,
  slow_edge b q,
)
