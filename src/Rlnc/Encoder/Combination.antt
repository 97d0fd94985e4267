-- ===== src/Rlnc/Encoder/Combination.antt =====
-- What `combine_rows` computes: at each index, the sum of the products.
use Prim.Native.Nat.{bit_xor}
use craftec.Prelude.{ℕ, zero, suc, ◌≡◌, refl, ap, sym, ◌∙◌, List, [], ◌∷◌, arith, length, get_or}
use craftec.Prelude.Xor.{bit_xor_assoc, bit_xor-zero, zero-bit_xor}
use craftec.Rlnc.Encoder.{combine_rows}
use craftec.Rlnc.Gf256.{gf_mul, gf_vec_mul_add}
use craftec.Rlnc.Gf256.Rows.{
  IsBytes, byte_at, gf_vec_mul_add_lem, length-add_scaled, add_scaled-IsBytes, byte_at-add_scaled,
  dot,
}

-- Rows of bytes, all of one size.
abbrev pub AllRows : ℕ → List (List ℕ) → Type 0
AllRows size [] = Unit
AllRows size (p ∷ ps) = (length p ≡ size) × IsBytes p × AllRows size ps

pub combine_rows-IsBytes :
    (size : ℕ) (acc : List ℕ) (ps : List (List ℕ)) (cs : List ℕ)
    → AllRows size ps
    → IsBytes cs
    → IsBytes acc
    → IsBytes (combine_rows acc ps cs)
unfolding combine_rows
combine_rows-IsBytes size acc [] cs hp hc ha = ha
combine_rows-IsBytes size acc (p ∷ ps) [] hp hc ha = ha
combine_rows-IsBytes size acc (p ∷ ps) (c ∷ cs) hp hc ha =
    combine_rows-IsBytes size (gf_vec_mul_add acc p c) ps cs hp.2 hc.1
      (rw (gf_vec_mul_add_lem acc p c hp.1) (add_scaled-IsBytes c acc p hc.0 ha hp.1))

pub length-combine_rows :
    (size : ℕ) (acc : List ℕ) (ps : List (List ℕ)) (cs : List ℕ)
    → AllRows size ps
    → length (combine_rows acc ps cs) ≡ length acc
unfolding combine_rows
length-combine_rows size acc [] cs hp = refl
length-combine_rows size acc (p ∷ ps) [] hp = refl
length-combine_rows size acc (p ∷ ps) (c ∷ cs) hp =
    length-combine_rows size (gf_vec_mul_add acc p c) ps cs hp.2
    ∙ ap length (gf_vec_mul_add_lem acc p c hp.1)
    ∙ length-add_scaled c acc p

-- The first product can be split off instead of the last.
dot-suc :
    (n : ℕ) (f g : ℕ → ℕ)
    → dot (suc n) f g ≡ bit_xor (gf_mul (f 0) (g 0)) (dot n (λ i. f (suc i)) (λ i. g (suc i)))
unfolding dot
dot-suc zero f g = zero-bit_xor _ ∙ sym (bit_xor-zero _)
dot-suc (suc n) f g =
    ap (λ t. bit_xor t (gf_mul (f (suc n)) (g (suc n)))) (dot-suc n f g)
    ∙ bit_xor_assoc (gf_mul (f 0) (g 0)) (dot n (λ i. f (suc i)) (λ i. g (suc i))) _

pub byte_at-combine_rows :
    (size t : ℕ) (acc : List ℕ) (ps : List (List ℕ)) (cs : List ℕ)
    → AllRows size ps
    → length acc ≡ size
    → length cs ≡ length ps
    → byte_at (combine_rows acc ps cs) t
      ≡ bit_xor (byte_at acc t) (dot (length ps) (byte_at cs) (λ j. byte_at (get_or ps j []) t))
unfolding combine_rows
byte_at-combine_rows size t acc [] cs hp ha hc = unfold dot in sym (bit_xor-zero (byte_at acc t))
byte_at-combine_rows size t acc (p ∷ ps) [] hp ha hc = absurd (omega arith)
byte_at-combine_rows size t acc (p ∷ ps) (c ∷ cs) hp ha hc =
    byte_at-combine_rows size t (gf_vec_mul_add acc p c) ps cs hp.2
      (ap length (gf_vec_mul_add_lem acc p c hp.1) ∙ length-add_scaled c acc p ∙ ha) (omega arith)
    ∙ ap (λ s. bit_xor s rest)
        (ap (λ r. byte_at r t) (gf_vec_mul_add_lem acc p c hp.1)
          ∙ byte_at-add_scaled c acc p t (ha ∙ sym hp.0))
    ∙ bit_xor_assoc (byte_at acc t) (gf_mul c (byte_at p t)) rest
    ∙ ap (bit_xor (byte_at acc t))
        (sym (dot-suc (length ps) (byte_at (c ∷ cs)) (λ j. byte_at (get_or (p ∷ ps) j []) t)))
  where
    rest : ℕ
    rest = dot (length ps) (byte_at cs) (λ j. byte_at (get_or ps j []) t)
