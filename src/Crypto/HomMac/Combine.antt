-- ===== src/Crypto/HomMac/Combine.antt =====
-- Sums of pieces and of their tags: `compute_tag`, `combine_tags` and `verify_mac`.
use Prim.Native.Nat.{bit_xor}
use craftec.Prelude.{
  ℕ, zero, suc, ◌+◌, ◌<◌, ◌≡◌, refl, ap, ap₂, sym, ◌∙◌, List, [], ◌∷◌, ◌++◌, true, arith, length,
  length-append, replicate, ◌↔◌,
}
use craftec.Crypto.HomMac.{
  gf256_mul, bytes_eq, tag_byte, tag_from, combine_step, compute_tag, verify_mac,
}
use craftec.Crypto.HomMac.Linear.{
  products_agree, inner, tag_byte-inner, inner-lt, inner-add_scaled, inner-zeros,
}
use craftec.Rlnc.Gf256.{gf_add, gf_mul}
use craftec.Rlnc.Gf256.Rows.{
  IsBytes, add_scaled, append-IsBytes, replicate-IsBytes, add_scaled-IsBytes,
}
use craftec.Types.Piece.{CodedPiece, gf256_mul_0x11b}

pub bytes_eq_refl : (xs : List ℕ) → bytes_eq xs xs ≡ true
unfolding bytes_eq
bytes_eq_refl [] = refl
bytes_eq_refl (x ∷ xs) = ground (arith, bytes_eq_refl xs)

pub bytes_eq-eq : (xs ys : List ℕ) → bytes_eq xs ys ≡ true → xs ≡ ys
unfolding bytes_eq
bytes_eq-eq [] [] h = refl
bytes_eq-eq [] (y ∷ ys) h = cc
bytes_eq-eq (x ∷ xs) [] h = cc
bytes_eq-eq (x ∷ xs) (y ∷ ys) h = ground (arith, bytes_eq-eq xs ys)

pub tag_from_cong :
    (f g : ℕ → ℕ) (left j : ℕ) → ((i : ℕ) → f i ≡ g i) → tag_from f left j ≡ tag_from g left j
unfolding tag_from
tag_from_cong f g zero j h = refl
tag_from_cong f g (suc left) j h = ap₂ ◌∷◌ (h j) (tag_from_cong f g left (j + 1) h)

tag_from-add_scaled :
    (f g : ℕ → ℕ) (c left j : ℕ)
    → tag_from (λ i. bit_xor (f i) (gf_mul c (g i))) left j
      ≡ add_scaled c (tag_from f left j) (tag_from g left j)
unfolding tag_from add_scaled gf_add
tag_from-add_scaled f g c zero j = refl
tag_from-add_scaled f g c (suc left) j =
    ap (◌∷◌ (bit_xor (f j) (gf_mul c (g j)))) (tag_from-add_scaled f g c left (j + 1))

pub tag_from-IsBytes :
    (f : ℕ → ℕ) (left j : ℕ) → ((i : ℕ) → f i < 256) → IsBytes (tag_from f left j)
unfolding tag_from
tag_from-IsBytes f zero j h = tt
tag_from-IsBytes f (suc left) j h = (h j, tag_from-IsBytes f left (j + 1) h)

tag_from-zeros :
    (f : ℕ → ℕ) (left j : ℕ) → ((i : ℕ) → f i ≡ 0) → tag_from f left j ≡ replicate left 0
unfolding tag_from
tag_from-zeros f zero j h = refl
tag_from-zeros f (suc left) j h = ap₂ ◌∷◌ (h j) (tag_from-zeros f left (j + 1) h)

pub combine_step-add_scaled :
    (acc tag : List ℕ) (c : ℕ)
    → c < 256
    → IsBytes tag
    → combine_step acc tag c ≡ add_scaled c acc tag
unfolding combine_step add_scaled gf_add
combine_step-add_scaled [] tag c p h = refl
combine_step-add_scaled (a ∷ acc) [] c p h = refl
combine_step-add_scaled (a ∷ acc) (t ∷ tag) c p h =
    ap₂ ◌∷◌ (ap (bit_xor a) (products_agree c t p h.0).0) (combine_step-add_scaled acc tag c p h.1)

pub add_scaled-append :
    (c : ℕ) (xs ys us vs : List ℕ)
    → length xs ≡ length us
    → add_scaled c (xs ++ ys) (us ++ vs) ≡ add_scaled c xs us ++ add_scaled c ys vs
unfolding add_scaled
add_scaled-append c [] ys [] vs e = refl
add_scaled-append c [] ys (u ∷ us) vs e = absurd (omega arith)
add_scaled-append c (x ∷ xs) ys [] vs e = absurd (omega arith)
add_scaled-append c (x ∷ xs) ys (u ∷ us) vs e =
    ap (◌∷◌ (gf_add x (gf_mul c u))) (add_scaled-append c xs ys us vs (omega arith))

replicate-append : (m n : ℕ) → replicate m 0 ++ replicate n 0 ≡ replicate {A = ℕ} (m + n) 0
replicate-append zero n = ap (λ t. replicate t 0) (let e : n ≡ 0 + n = omega arith in e)
replicate-append (suc m) n =
    let e : suc (m + n) ≡ suc m + n = omega arith in
    ap (◌∷◌ 0) (replicate-append m n) ∙ ap (λ t. replicate t 0) e

module _ (xof : ℕ → ℕ → ℕ → ℕ) (range : (key j i : ℕ) → xof key j i < 256) (key : ℕ) where
  -- The tag through inner products.
  pub compute_tag-inner :
      (cv bytes : List ℕ)
      → IsBytes cv
      → IsBytes bytes
      → compute_tag xof key cv bytes ≡ tag_from (λ j. inner (xof key j) 0 (cv ++ bytes)) 32 0
  unfolding compute_tag
  compute_tag-inner cv bytes p q =
      tag_from_cong _ (λ j. inner (xof key j) 0 (cv ++ bytes)) 32 0
        (λ j.
          tag_byte-inner gf256_mul (λ a b s t. (products_agree a b s t).0) (xof key j) (range key j)
            cv bytes p q)

  pub compute_tag-IsBytes :
      (cv bytes : List ℕ) → IsBytes cv → IsBytes bytes → IsBytes (compute_tag xof key cv bytes)
  compute_tag-IsBytes cv bytes p q = rw (compute_tag-inner cv bytes p q) (
      tag_from-IsBytes (λ j. inner (xof key j) 0 (cv ++ bytes)) 32 0
        (λ j. inner-lt (xof key j) (range key j) 0 (cv ++ bytes) (append-IsBytes cv bytes p q)))

  pub compute_tag-zeros :
      (m n : ℕ) → compute_tag xof key (replicate m 0) (replicate n 0) ≡ replicate 32 0
  compute_tag-zeros m n =
      compute_tag-inner (replicate m 0) (replicate n 0) (replicate-IsBytes m) (replicate-IsBytes n)
      ∙ tag_from-zeros (λ j. inner (xof key j) 0 (replicate m 0 ++ replicate n 0)) 32 0
          (λ j.
            ap (inner (xof key j) 0) (replicate-append m n)
            ∙ inner-zeros (xof key j) (range key j) 0 (m + n))

  -- For a stream of bytes, pieces of bytes of the same lengths and a byte as the factor: the tag of a
  -- sum of one piece and a multiple of another is that sum of their tags.
  pub compute_tag-add_scaled :
      (c : ℕ) (cv bytes cv' bytes' : List ℕ)
      → c < 256
      → length cv ≡ length cv'
      → length bytes ≡ length bytes'
      → IsBytes cv
      → IsBytes bytes
      → IsBytes cv'
      → IsBytes bytes'
      → compute_tag xof key (add_scaled c cv cv') (add_scaled c bytes bytes')
        ≡ add_scaled c (compute_tag xof key cv bytes) (compute_tag xof key cv' bytes')
  compute_tag-add_scaled c cv bytes cv' bytes' p e e' hc hb hc' hb' =
      compute_tag-inner (add_scaled c cv cv') (add_scaled c bytes bytes')
        (add_scaled-IsBytes c cv cv' p hc hc') (add_scaled-IsBytes c bytes bytes' p hb hb')
      ∙ tag_from_cong _ (λ j. bit_xor (f j) (gf_mul c (g j))) 32 0
          (λ j.
            ap (inner (xof key j) 0) (sym (add_scaled-append c cv bytes cv' bytes' e))
            ∙ inner-add_scaled (xof key j) (range key j) c 0 (cv ++ bytes) (cv' ++ bytes') p
                (length-append cv bytes ∙ ap₂ ◌+◌ e e' ∙ sym (length-append cv' bytes'))
                (append-IsBytes cv bytes hc hb) (append-IsBytes cv' bytes' hc' hb'))
      ∙ tag_from-add_scaled f g c 32 0
      ∙ ap₂ (add_scaled c) (sym (compute_tag-inner cv bytes hc hb))
          (sym (compute_tag-inner cv' bytes' hc' hb'))
    where
      f : ℕ → ℕ
      f j = inner (xof key j) 0 (cv ++ bytes)

      g : ℕ → ℕ
      g j = inner (xof key j) 0 (cv' ++ bytes')

-- For a stream of bytes and a piece of bytes: the tag that `compute_tag` gives to a piece passes
-- `CodedPiece::verify_mac` and no other does, although the two use separate copies of the product.
pub verify_mac_iff :
    (xof : ℕ → ℕ → ℕ → ℕ)
    → ((key j i : ℕ) → xof key j i < 256)
    → (p : CodedPiece) → IsBytes p.coding_vector
    → IsBytes p.data_bytes
    → (verify_mac xof p ≡ true)
      ↔ (p.hommac_tag ≡ compute_tag xof p.cid p.coding_vector p.data_bytes)
unfolding verify_mac
verify_mac_iff xof range p hc hb = (
  λ h. sym (bytes_eq-eq _ p.hommac_tag h) ∙ same,
  λ e. ap (bytes_eq tag) (e ∙ sym same) ∙ bytes_eq_refl tag,
)
  where
    tag : List ℕ
    tag = tag_from (λ j. tag_byte gf256_mul_0x11b (xof p.cid j) p.coding_vector p.data_bytes) 32 0

    same : tag ≡ compute_tag xof p.cid p.coding_vector p.data_bytes
    same =
        tag_from_cong _ (λ j. inner (xof p.cid j) 0 (p.coding_vector ++ p.data_bytes)) 32 0
          (λ j.
            tag_byte-inner gf256_mul_0x11b (λ a b s t. (products_agree a b s t).1) (xof p.cid j)
              (range p.cid j) p.coding_vector p.data_bytes hc hb)
        ∙ sym (compute_tag-inner xof range p.cid p.coding_vector p.data_bytes hc hb)
