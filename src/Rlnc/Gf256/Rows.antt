-- ===== src/Rlnc/Gf256/Rows.antt =====
-- Rows of bytes: `gf_vec_mul_add` against its definition by elements, and sums of products.
use Prim.Native.Nat.{bit_xor}
use craftec.Prelude.{
  ℕ, zero, suc, ◌+◌, ◌<◌, false, ◌==◌, ◌≡◌, refl, ap, ap₂, sym, ◌∙◌, List, [], ◌∷◌, ◌++◌, arith,
  if◌then◌else◌, length, get_or, replicate, Bool-cases, inl, inr,
}
use craftec.Prelude.Xor.{bit_xor-zero, zero-bit_xor}
use craftec.Rlnc.Gf256.{exp_at, log_at, gf_add, gf_mul, gf_vec_mul_add, xor_into, mul_into}
use craftec.Rlnc.Gf256.Slow.{xor_swap, xor-lt}
use craftec.Rlnc.Gf256.Field.{
  gf_mul-zero, zero-gf_mul, gf_mul-lt, gf_mul_comm, gf_mul_assoc, gf_mul-gf_add, gf_mul-one,
}

abbrev pub IsBytes : List ℕ → Type 0
IsBytes [] = Unit
IsBytes (b ∷ bs) = (b < 256) × IsBytes bs

abbrev pub byte_at : List ℕ → ℕ → ℕ
byte_at bs i = get_or bs i 0

pub byte_at-lt : (bs : List ℕ) (i : ℕ) → IsBytes bs → byte_at bs i < 256
byte_at-lt [] i h = omega arith
byte_at-lt (b ∷ bs) zero h = h.0
byte_at-lt (b ∷ bs) (suc i) h = byte_at-lt bs i h.1

pub append-IsBytes : (xs ys : List ℕ) → IsBytes xs → IsBytes ys → IsBytes (xs ++ ys)
append-IsBytes [] ys p q = q
append-IsBytes (x ∷ xs) ys p q = (p.0, append-IsBytes xs ys p.1 q)

pub replicate-IsBytes : (n : ℕ) → IsBytes (replicate n 0)
replicate-IsBytes zero = tt
replicate-IsBytes (suc n) = (omega arith, replicate-IsBytes n)

-- `dst[i] += coeff * src[i]` by its definition, element by element.
unfoldable pub add_scaled : ℕ → List ℕ → List ℕ → List ℕ
add_scaled c [] src = []
add_scaled c (d ∷ dst) [] = d ∷ dst
add_scaled c (d ∷ dst) (s ∷ src) = gf_add d (gf_mul c s) ∷ add_scaled c dst src

add_scaled-zero : (dst src : List ℕ) → add_scaled 0 dst src ≡ dst
unfolding add_scaled gf_add
add_scaled-zero [] src = refl
add_scaled-zero (d ∷ dst) [] = refl
add_scaled-zero (d ∷ dst) (s ∷ src) =
    ap₂ ◌∷◌ (ap (bit_xor d) (zero-gf_mul s) ∙ bit_xor-zero d) (add_scaled-zero dst src)

add_scaled-one : (dst src : List ℕ) → IsBytes src → xor_into dst src ≡ add_scaled 1 dst src
unfolding add_scaled gf_add xor_into
add_scaled-one [] src h = refl
add_scaled-one (d ∷ dst) [] h = refl
add_scaled-one (d ∷ dst) (s ∷ src) h =
    ap₂ ◌∷◌ (ap (bit_xor d) (sym (gf_mul_comm 1 s ∙ gf_mul-one s h.0))) (add_scaled-one dst src h.1)

mul_into-head :
    (c d s : ℕ)
    → 0 < c
    → (if s == 0 then d else bit_xor d (exp_at (log_at c + log_at s))) ≡ bit_xor d (gf_mul c s)
unfolding gf_mul
mul_into-head c d s h = ground (arith, bit_xor-zero d)

add_scaled-general :
    (c : ℕ) (dst src : List ℕ) → 0 < c → mul_into (log_at c) dst src ≡ add_scaled c dst src
unfolding add_scaled gf_add mul_into
add_scaled-general c [] src h = refl
add_scaled-general c (d ∷ dst) [] h = refl
add_scaled-general c (d ∷ dst) (s ∷ src) h =
    ap₂ ◌∷◌ (mul_into-head c d s h) (add_scaled-general c dst src h)

-- For a byte slice `src` and any coefficient, the routine with its two fast paths computes
-- `dst[i] + coeff * src[i]` in the field at each index that both slices have, and leaves the rest.
pub gf_vec_mul_add_lem :
    (dst src : List ℕ) (c : ℕ) → IsBytes src → gf_vec_mul_add dst src c ≡ add_scaled c dst src
unfolding gf_vec_mul_add
gf_vec_mul_add_lem dst src zero h = sym (add_scaled-zero dst src)
gf_vec_mul_add_lem dst src (suc zero) h = add_scaled-one dst src h
gf_vec_mul_add_lem dst src (suc (suc c)) h =
    ground (arith, add_scaled-general (suc (suc c)) dst src)

pub length-add_scaled : (c : ℕ) (dst src : List ℕ) → length (add_scaled c dst src) ≡ length dst
unfolding add_scaled
length-add_scaled c [] src = refl
length-add_scaled c (d ∷ dst) [] = refl
length-add_scaled c (d ∷ dst) (s ∷ src) = ap suc (length-add_scaled c dst src)

pub add_scaled-IsBytes :
    (c : ℕ) (dst src : List ℕ)
    → c < 256
    → IsBytes dst
    → IsBytes src
    → IsBytes (add_scaled c dst src)
unfolding add_scaled gf_add
add_scaled-IsBytes c [] src p q r = tt
add_scaled-IsBytes c (d ∷ dst) [] p q r = q
add_scaled-IsBytes c (d ∷ dst) (s ∷ src) p q r =
    (xor-lt d (gf_mul c s) q.0 (gf_mul-lt c s p r.0), add_scaled-IsBytes c dst src p q.1 r.1)

pub byte_at-add_scaled :
    (c : ℕ) (dst src : List ℕ) (i : ℕ)
    → length dst ≡ length src
    → byte_at (add_scaled c dst src) i ≡ bit_xor (byte_at dst i) (gf_mul c (byte_at src i))
unfolding add_scaled gf_add
byte_at-add_scaled c [] [] i e = sym (ap (bit_xor 0) (gf_mul-zero c))
byte_at-add_scaled c [] (s ∷ src) i e = absurd (omega arith)
byte_at-add_scaled c (d ∷ dst) [] i e = absurd (omega arith)
byte_at-add_scaled c (d ∷ dst) (s ∷ src) zero e = refl
byte_at-add_scaled c (d ∷ dst) (s ∷ src) (suc i) e = byte_at-add_scaled c dst src i (omega arith)

-- Sums of products of two sequences of bytes.
unfoldable pub dot : ℕ → (ℕ → ℕ) → (ℕ → ℕ) → ℕ
dot zero f g = 0
dot (suc n) f g = bit_xor (dot n f g) (gf_mul (f n) (g n))

pub dot-lt : (n : ℕ) (f g : ℕ → ℕ) → ((i : ℕ) → f i < 256) → ((i : ℕ) → g i < 256) → dot n f g < 256
unfolding dot
dot-lt zero f g p q = omega arith
dot-lt (suc n) f g p q = xor-lt _ _ (dot-lt n f g p q) (gf_mul-lt (f n) (g n) (p n) (q n))

pub dot_cong : (n : ℕ) (f f' g : ℕ → ℕ) → ((i : ℕ) → i < n → f i ≡ f' i) → dot n f g ≡ dot n f' g
unfolding dot
dot_cong zero f f' g h = refl
dot_cong (suc n) f f' g h =
    ap₂ bit_xor (dot_cong n f f' g (λ i lt. h i (omega arith)))
      (ap (λ t. gf_mul t (g n)) (h n (omega arith)))

-- (d + c s) g = d g + c (s g).
pub mul_add_scaled :
    (c d s g : ℕ)
    → c < 256
    → d < 256
    → s < 256
    → g < 256
    → gf_mul (bit_xor d (gf_mul c s)) g ≡ bit_xor (gf_mul d g) (gf_mul c (gf_mul s g))
unfolding gf_add
mul_add_scaled c d s g hc hd hs hg = cc (
  gf_mul_comm (bit_xor d (gf_mul c s)) g,
  gf_mul-gf_add g d (gf_mul c s) hg hd (gf_mul-lt c s hc hs),
  gf_mul_comm g d,
  gf_mul_comm g (gf_mul c s),
  gf_mul_assoc c s g hc hs hg,
)

pub mul_xor :
    (c a b : ℕ)
    → c < 256
    → a < 256
    → b < 256
    → gf_mul c (bit_xor a b) ≡ bit_xor (gf_mul c a) (gf_mul c b)
unfolding gf_add
mul_xor c a b hc ha hb = gf_mul-gf_add c a b hc ha hb

-- The sum is linear in its first sequence.
pub dot-add_scaled :
    (n c : ℕ) (f s g : ℕ → ℕ)
    → c < 256
    → ((i : ℕ) → f i < 256)
    → ((i : ℕ) → s i < 256)
    → ((i : ℕ) → g i < 256)
    → dot n (λ i. bit_xor (f i) (gf_mul c (s i))) g ≡ bit_xor (dot n f g) (gf_mul c (dot n s g))
unfolding dot
dot-add_scaled zero c f s g hc hf hs hg = sym (ap (bit_xor 0) (gf_mul-zero c))
dot-add_scaled (suc n) c f s g hc hf hs hg = cc (
  dot-add_scaled n c f s g hc hf hs hg,
  mul_add_scaled c (f n) (s n) (g n) hc (hf n) (hs n) (hg n),
  xor_swap (dot n f g) (gf_mul c (dot n s g)) (gf_mul (f n) (g n)) (gf_mul c (gf_mul (s n) (g n))),
  mul_xor c (dot n s g) (gf_mul (s n) (g n)) hc (dot-lt n s g hs hg)
      (gf_mul-lt (s n) (g n) (hs n) (hg n)),
)

pub dot-scale :
    (n c : ℕ) (s g : ℕ → ℕ)
    → c < 256
    → ((i : ℕ) → s i < 256)
    → ((i : ℕ) → g i < 256)
    → dot n (λ i. gf_mul c (s i)) g ≡ gf_mul c (dot n s g)
unfolding dot
dot-scale zero c s g hc hs hg = sym (gf_mul-zero c)
dot-scale (suc n) c s g hc hs hg = cc (
  dot-scale n c s g hc hs hg,
  gf_mul_assoc c (s n) (g n) hc (hs n) (hg n),
  mul_xor c (dot n s g) (gf_mul (s n) (g n)) hc (dot-lt n s g hs hg)
      (gf_mul-lt (s n) (g n) (hs n) (hg n)),
)

pub dot-zeros : (n : ℕ) (f g : ℕ → ℕ) → ((i : ℕ) → i < n → f i ≡ 0) → dot n f g ≡ 0
unfolding dot
dot-zeros zero f g h = refl
dot-zeros (suc n) f g h =
    ap₂ bit_xor (dot-zeros n f g (λ i lt. h i (omega arith)))
      (ap (λ t. gf_mul t (g n)) (h n (omega arith)) ∙ zero-gf_mul (g n))

-- A sequence that is 1 at one index and 0 at the others selects an element.
pub dot-unit :
    (n c : ℕ) (f g : ℕ → ℕ)
    → c < n
    → f c ≡ 1
    → ((i : ℕ) → i < n → (i == c) ≡ false → f i ≡ 0)
    → g c < 256
    → dot n f g ≡ g c
unfolding dot
dot-unit zero c f g h one zeros hg = elim h [ ]
dot-unit (suc n) c f g h one zeros hg = elim (Bool-cases (n == c)) [
  | inl here ↦
      let e : n ≡ c = ground arith in
      cc (
        e,
        one,
        dot-zeros n f g (λ i lt. zeros i (omega arith) (ground arith)),
        gf_mul_comm 1 (g c),
        gf_mul-one (g c) hg,
        zero-bit_xor (g c),
      )
  | inr other ↦ cc (
    zeros n (omega arith) other,
    zero-gf_mul (g n),
    bit_xor-zero (dot n f g),
    dot-unit n c f g (ground arith) one (λ i lt. zeros i (omega arith)) hg,
  )
]
