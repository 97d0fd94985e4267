-- ===== src/Rlnc/Gf256/Field.antt =====
-- The laws of the operations of gf256.rs.
use Prim.Native.Nat.{bit_xor}
use craftec.Prelude.{
  ℕ, Bool-cases, ◌⊎◌, inl, inr, ltb→lt, ltb, zero, suc, ◌+◌, ◌-◌, ◌%◌, ◌<◌, ◌≡◌, refl, ap, sym, ◌∙◌,
  arith,
}
use craftec.Prelude.Xor.{bit_xor_self, zero-bit_xor, bit_xor-zero, bit_xor_comm, bit_xor_assoc}
use craftec.Rlnc.Gf256.{exp_at, log_at, gf_add, gf_mul, gf_inv}
use craftec.Rlnc.Gf256.Table.{
  log_at-exp_at, exp_at-zero, exp_at-log_at, log_at-lt, exp_at-lt, exp_at-pos,
}
use craftec.Rlnc.Gf256.Slow.{gf_mul-triples, triples-bit_xor, xor-lt}

pub gf_mul-zero : (a : ℕ) → gf_mul a 0 ≡ 0
unfolding gf_mul
gf_mul-zero a = ground arith

pub zero-gf_mul : (a : ℕ) → gf_mul 0 a ≡ 0
unfolding gf_mul
zero-gf_mul a = refl

pub gf_mul-lt : (a b : ℕ) → a < 256 → b < 256 → gf_mul a b < 256
unfolding gf_mul
gf_mul-lt a b p q = ground (arith, log_at-lt a p, log_at-lt b q, exp_at-lt (log_at a + log_at b))

pub gf_mul_comm : (a b : ℕ) → gf_mul a b ≡ gf_mul b a
unfolding gf_mul
gf_mul_comm a b =
    ground (arith, ap exp_at (let e : log_at a + log_at b ≡ log_at b + log_at a = omega arith in e))

-- A product of bytes other than 0, through the tables.
gf_mul-nonzero :
    (a b : ℕ)
    → a < 256
    → b < 256
    → 0 < a
    → 0 < b
    → (0 < gf_mul a b) × (log_at (gf_mul a b) ≡ (log_at a + log_at b) % 255)
unfolding gf_mul
gf_mul-nonzero a b p q pa pb = ground (
  arith,
  log_at-lt a p,
  log_at-lt b q,
  exp_at-pos (log_at a + log_at b),
  log_at-exp_at (log_at a + log_at b),
)

-- Two bytes other than 0 are equal if their logarithms are.
log_at-injective : (a b : ℕ) → a < 256 → b < 256 → 0 < a → 0 < b → log_at a ≡ log_at b → a ≡ b
log_at-injective a b p q pa pb e = sym (exp_at-log_at a p pa) ∙ ap exp_at e ∙ exp_at-log_at b q pb

gf_mul_assoc_pos :
    (a b c : ℕ)
    → a < 256
    → b < 256
    → c < 256
    → 0 < a
    → 0 < b
    → 0 < c
    → gf_mul (gf_mul a b) c ≡ gf_mul a (gf_mul b c)
gf_mul_assoc_pos a b c p q r pa pb pc =
    let ab = gf_mul-nonzero a b p q pa pb in
    let bc = gf_mul-nonzero b c q r pb pc in
    let ab_lt = gf_mul-lt a b p q in
    let bc_lt = gf_mul-lt b c q r in
    let left = gf_mul-nonzero (gf_mul a b) c ab_lt r ab.0 pc in
    let right = gf_mul-nonzero a (gf_mul b c) p bc_lt pa bc.0 in
    log_at-injective (gf_mul (gf_mul a b) c) (gf_mul a (gf_mul b c)) (gf_mul-lt _ c ab_lt r)
      (gf_mul-lt a _ p bc_lt) left.0 right.0 (omega arith)

pub gf_mul_assoc :
    (a b c : ℕ) → a < 256 → b < 256 → c < 256 → gf_mul (gf_mul a b) c ≡ gf_mul a (gf_mul b c)
gf_mul_assoc zero b c p q r =
    ap (λ t. gf_mul t c) (zero-gf_mul b) ∙ zero-gf_mul c ∙ sym (zero-gf_mul (gf_mul b c))
gf_mul_assoc (suc a) zero c p q r =
    ap (λ t. gf_mul t c) (gf_mul-zero (suc a))
    ∙ zero-gf_mul c
    ∙ sym (ap (gf_mul (suc a)) (zero-gf_mul c) ∙ gf_mul-zero (suc a))
gf_mul_assoc (suc a) (suc b) zero p q r =
    gf_mul-zero _ ∙ sym (ap (gf_mul (suc a)) (gf_mul-zero (suc b)) ∙ gf_mul-zero (suc a))
gf_mul_assoc (suc a) (suc b) (suc c) p q r =
    gf_mul_assoc_pos (suc a) (suc b) (suc c) p q r (omega arith) (omega arith) (omega arith)

pub gf_mul-gf_add :
    (a b c : ℕ)
    → a < 256
    → b < 256
    → c < 256
    → gf_mul a (gf_add b c) ≡ gf_add (gf_mul a b) (gf_mul a c)
unfolding gf_add
gf_mul-gf_add zero b c p q r =
    zero-gf_mul (bit_xor b c)
    ∙ sym (ap (λ t. bit_xor t (gf_mul 0 c)) (zero-gf_mul b) ∙ zero-bit_xor _ ∙ zero-gf_mul c)
gf_mul-gf_add (suc a) b c p q r = ground (
  arith,
  gf_mul-triples (suc a) b p,
  gf_mul-triples (suc a) c p,
  gf_mul-triples (suc a) (bit_xor b c) p,
  triples-bit_xor (log_at (suc a)) b c q r,
  xor-lt b c q r,
)

log_at-one : log_at 1 ≡ 0
log_at-one = ap log_at (sym exp_at-zero) ∙ log_at-exp_at 0 (omega arith)

pub gf_mul-one : (a : ℕ) → a < 256 → gf_mul a 1 ≡ a
unfolding gf_mul
gf_mul-one a p = ground (
  arith,
  log_at-one,
  exp_at-log_at a p,
  ap exp_at (let e : log_at a + 0 ≡ log_at a = omega arith in e),
)

pub gf_inv-range : (a : ℕ) → a < 256 → 0 < a → (gf_inv a < 256) × (0 < gf_inv a)
unfolding gf_inv
gf_inv-range a p pos =
    ground (arith, log_at-lt a p, exp_at-lt (255 - log_at a), exp_at-pos (255 - log_at a))

log_at-gf_inv : (a : ℕ) → a < 256 → 0 < a → log_at (gf_inv a) ≡ (255 - log_at a) % 255
unfolding gf_inv
log_at-gf_inv a p pos = ground (arith, log_at-lt a p, log_at-exp_at (255 - log_at a))

pub gf_mul-gf_inv : (a : ℕ) → a < 256 → 0 < a → gf_mul a (gf_inv a) ≡ 1
gf_mul-gf_inv a p pos =
    let inv = gf_inv-range a p pos in
    let product = gf_mul-nonzero a (gf_inv a) p inv.0 pos inv.1 in
    log_at-injective (gf_mul a (gf_inv a)) 1 (gf_mul-lt a (gf_inv a) p inv.0) (omega arith)
      product.0 (omega arith) (omega (arith, log_at-gf_inv a p pos, log_at-lt a p, log_at-one))

-- For all bytes a, b and c, with `gf_add` as the sum and `gf_mul` as the product: the sum and the
-- product are bytes, are associative and commutative, and have the units 0 and 1; the product
-- distributes over the sum; every byte is its own negative; and a byte other than 0 has `gf_inv` of
-- it, which is again a byte, as its inverse.
pub gf_field :
    (a b c : ℕ)
    → a < 256
    → b < 256
    → c < 256
    → (gf_add a b < 256)
      × (gf_add (gf_add a b) c ≡ gf_add a (gf_add b c))
      × (gf_add a b ≡ gf_add b a)
      × (gf_add a 0 ≡ a)
      × (gf_add a a ≡ 0)
      × (gf_mul a b < 256)
      × (gf_mul (gf_mul a b) c ≡ gf_mul a (gf_mul b c))
      × (gf_mul a b ≡ gf_mul b a)
      × (gf_mul a 1 ≡ a)
      × (gf_mul a (gf_add b c) ≡ gf_add (gf_mul a b) (gf_mul a c))
      × ((a ≡ 0) ⊎ ((gf_inv a < 256) × (gf_mul a (gf_inv a) ≡ 1)))
gf_field a b c p q r = (
  unfold gf_add in xor-lt a b p q,
  unfold gf_add in bit_xor_assoc a b c,
  unfold gf_add in bit_xor_comm a b,
  unfold gf_add in bit_xor-zero a,
  unfold gf_add in bit_xor_self a,
  gf_mul-lt a b p q,
  gf_mul_assoc a b c p q r,
  gf_mul_comm a b,
  gf_mul-one a p,
  gf_mul-gf_add a b c p q r,
  elim (Bool-cases (ltb 0 a)) [
    | inl h ↦ let pos = ltb→lt 0 a h in inr ((gf_inv-range a p pos).0, gf_mul-gf_inv a p pos)
    | inr h ↦ inl (ground arith)
  ],
)
