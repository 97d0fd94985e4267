-- ===== src/Crypto/HomMac/Linear.antt =====
-- The loops of `compute_tag` against an inner product over the field.
use Prim.Native.Nat.{bit_xor, bit_and}
use craftec.Prelude.{
  ℕ, zero, suc, ◌+◌, ◌/◌, ◌<◌, ◌≤◌, ◌≡◌, refl, ap, ap₂, sym, ◌∙◌, List, [], ◌∷◌, ◌++◌, ◌==◌, arith,
  length, length-take, length-drop, take, drop, take-append-drop, replicate, if◌then◌else◌,
}
use craftec.Prelude.Xor.{bit_xor_assoc, bit_xor-zero, zero-bit_xor}
use craftec.Crypto.HomMac.{gf256_mul, mac_bytes, mac_chunks, tag_byte}
use craftec.Rlnc.Gf256.{gf_add, gf_mul, mul_rounds, xtime}
use craftec.Rlnc.Gf256.Slow.{gf_mul-eq-slow, slow_lem, xor_swap, xor-lt}
use craftec.Rlnc.Gf256.Field.{gf_mul-zero, gf_mul-lt, gf_mul_comm, gf_mul_assoc}
use craftec.Rlnc.Gf256.Rows.{IsBytes, add_scaled, mul_xor}
use craftec.Types.Piece.{shift_rounds, gf256_mul_0x11b}

shift_rounds-zero : (n r a : ℕ) → shift_rounds n r a 0 ≡ r
unfolding shift_rounds
shift_rounds-zero zero r a = refl
shift_rounds-zero (suc n) r a = shift_rounds-zero n r _

-- Leaving the loop early when no bit is left changes nothing.
shift_rounds-mul_rounds : (n r a b : ℕ) → shift_rounds n r a b ≡ mul_rounds n r a b
unfolding shift_rounds mul_rounds xtime
shift_rounds-mul_rounds zero r a b = refl
shift_rounds-mul_rounds (suc n) r a zero = shift_rounds-zero (suc n) r a
shift_rounds-mul_rounds (suc n) r a (suc b) = ground (
  arith,
  shift_rounds-mul_rounds n (if bit_and (suc b) 1 == 0 then r else bit_xor r a) (xtime a)
      (suc b / 2),
)

-- The three products of the code base (the table one of gf256.rs, and the bit loops of hommac.rs
-- and piece.rs) agree on all bytes.
pub products_agree :
    (a b : ℕ)
    → a < 256
    → b < 256
    → (gf256_mul a b ≡ gf_mul a b) × (gf256_mul_0x11b a b ≡ gf_mul a b)
unfolding gf256_mul gf256_mul_0x11b
products_agree a b p q = (e, e)
  where
    e : shift_rounds 8 0 a b ≡ gf_mul a b
    e = shift_rounds-mul_rounds 8 0 a b ∙ sym (gf_mul-eq-slow a b p q ∙ slow_lem a b)

-- The inner product with the stream from position `pos` on.
pub inner : (ℕ → ℕ) → ℕ → List ℕ → ℕ
inner stream pos [] = 0
inner stream pos (x ∷ xs) = bit_xor (gf_mul (stream pos) x) (inner stream (pos + 1) xs)

abbrev pub IsStream : (ℕ → ℕ) → Type 0
IsStream stream = (i : ℕ) → stream i < 256

-- A product that computes the field's on bytes.
abbrev pub IsProduct : (ℕ → ℕ → ℕ) → Type 0
IsProduct mul = (a b : ℕ) → a < 256 → b < 256 → mul a b ≡ gf_mul a b

pub inner-append :
    (stream : ℕ → ℕ) (pos : ℕ) (xs ys : List ℕ)
    → inner stream pos (xs ++ ys)
      ≡ bit_xor (inner stream pos xs) (inner stream (pos + length xs) ys)
unfolding inner
inner-append stream pos [] ys =
    let e : pos ≡ pos + 0 = omega arith in ap (λ t. inner stream t ys) e ∙ sym (zero-bit_xor _)
inner-append stream pos (x ∷ xs) ys =
    let e : pos + 1 + length xs ≡ pos + suc (length xs) = omega arith in
    ap (bit_xor (gf_mul (stream pos) x)) (
      inner-append stream (pos + 1) xs ys
      ∙ ap (λ t. bit_xor (inner stream (pos + 1) xs) (inner stream t ys)) e)
    ∙ sym (bit_xor_assoc (gf_mul (stream pos) x) (inner stream (pos + 1) xs) _)

module _ (mul : ℕ → ℕ → ℕ) (product : IsProduct mul) (stream : ℕ → ℕ)
    (range : IsStream stream) where
  mac_bytes-inner :
      (pos acc : ℕ) (xs : List ℕ)
      → IsBytes xs
      → mac_bytes mul stream pos acc xs ≡ bit_xor acc (inner stream pos xs)
  unfolding mac_bytes inner
  mac_bytes-inner pos acc [] h = sym (bit_xor-zero acc)
  mac_bytes-inner pos acc (x ∷ xs) h =
      mac_bytes-inner (pos + 1) (bit_xor acc (mul (stream pos) x)) xs h.1
      ∙ bit_xor_assoc acc (mul (stream pos) x) (inner stream (pos + 1) xs)
      ∙ ap (λ t. bit_xor acc (bit_xor t (inner stream (pos + 1) xs)))
          (product (stream pos) x (range pos) h.0)

  mac_bytes-append :
      (pos acc : ℕ) (xs ys : List ℕ)
      → mac_bytes mul stream pos acc (xs ++ ys)
        ≡ mac_bytes mul stream (pos + length xs) (mac_bytes mul stream pos acc xs) ys
  unfolding mac_bytes
  mac_bytes-append pos acc [] ys =
      let e : pos ≡ pos + 0 = omega arith in ap (λ t. mac_bytes mul stream t acc ys) e
  mac_bytes-append pos acc (x ∷ xs) ys =
      let e : pos + 1 + length xs ≡ pos + suc (length xs) = omega arith in
      mac_bytes-append (pos + 1) (bit_xor acc (mul (stream pos) x)) xs ys
      ∙ ap
          (λ t.
            mac_bytes mul stream t
              (mac_bytes mul stream (pos + 1) (bit_xor acc (mul (stream pos) x)) xs) ys)
          e

  mac_bytes-nil : (pos acc : ℕ) → mac_bytes mul stream pos acc [] ≡ acc
  unfolding mac_bytes
  mac_bytes-nil pos acc = refl

  -- The chunks make no difference, and the fuel is enough.
  mac_chunks-mac_bytes :
      (fuel pos acc : ℕ) (xs : List ℕ)
      → length xs ≤ fuel
      → mac_chunks mul stream fuel pos acc xs ≡ (pos + length xs, mac_bytes mul stream pos acc xs)
  unfolding mac_chunks
  mac_chunks-mac_bytes zero pos acc [] h =
      let e : pos ≡ pos + 0 = omega arith in ap₂ (λ s t. (s, t)) e (sym (mac_bytes-nil pos acc))
  mac_chunks-mac_bytes zero pos acc (x ∷ xs) h = absurd (omega arith)
  mac_chunks-mac_bytes (suc fuel) pos acc [] h =
      let e : pos ≡ pos + 0 = omega arith in ap₂ (λ s t. (s, t)) e (sym (mac_bytes-nil pos acc))
  mac_chunks-mac_bytes (suc fuel) pos acc (x ∷ xs) h =
      mac_chunks-mac_bytes fuel (pos + length chunk) (mac_bytes mul stream pos acc chunk) rest
        (omega (arith, length-drop 256 (x ∷ xs)))
      ∙ ap₂ (λ s t. (s, t)) (omega (arith, length-drop 256 (x ∷ xs), length-take 256 (x ∷ xs)))
          (sym (mac_bytes-append pos acc chunk rest)
            ∙ ap (mac_bytes mul stream pos acc) (take-append-drop 256 (x ∷ xs)))
    where
      chunk : List ℕ
      chunk = take 256 (x ∷ xs)

      rest : List ℕ
      rest = drop 256 (x ∷ xs)

  -- One byte of the tag is the inner product of the piece with the stream.
  pub tag_byte-inner :
      (cv bytes : List ℕ)
      → IsBytes cv
      → IsBytes bytes
      → tag_byte mul stream cv bytes ≡ inner stream 0 (cv ++ bytes)
  unfolding tag_byte
  tag_byte-inner cv bytes p q =
      ap (λ (t : ℕ × ℕ). (mac_chunks mul stream (length bytes) t.0 t.1 bytes).1)
        (mac_chunks-mac_bytes (length cv) 0 0 cv (omega arith))
      ∙ ap (λ (t : ℕ × ℕ). t.1)
          (mac_chunks-mac_bytes (length bytes) (0 + length cv) (mac_bytes mul stream 0 0 cv) bytes
            (omega arith))
      ∙ mac_bytes-inner (0 + length cv) (mac_bytes mul stream 0 0 cv) bytes q
      ∙ ap (λ t. bit_xor t (inner stream (0 + length cv) bytes))
          (mac_bytes-inner 0 0 cv p ∙ zero-bit_xor _)
      ∙ sym (inner-append stream 0 cv bytes)

module _ (stream : ℕ → ℕ) (range : IsStream stream) where
  pub inner-lt : (pos : ℕ) (xs : List ℕ) → IsBytes xs → inner stream pos xs < 256
  unfolding inner
  inner-lt pos [] h = omega arith
  inner-lt pos (x ∷ xs) h =
      xor-lt _ _ (gf_mul-lt (stream pos) x (range pos) h.0) (inner-lt (pos + 1) xs h.1)

  pub inner-add_scaled :
      (c pos : ℕ) (ds ss : List ℕ)
      → c < 256
      → length ds ≡ length ss
      → IsBytes ds
      → IsBytes ss
      → inner stream pos (add_scaled c ds ss)
        ≡ bit_xor (inner stream pos ds) (gf_mul c (inner stream pos ss))
  unfolding inner add_scaled gf_add
  inner-add_scaled c pos [] [] p e hd hs = sym (ap (bit_xor 0) (gf_mul-zero c))
  inner-add_scaled c pos [] (s ∷ ss) p e hd hs = absurd (omega arith)
  inner-add_scaled c pos (d ∷ ds) [] p e hd hs = absurd (omega arith)
  inner-add_scaled c pos (d ∷ ds) (s ∷ ss) p e hd hs =
      let r = stream pos in
      let lt = range pos in
      let cs = gf_mul-lt c s p hs.0 in
      cc (
        mul_xor r d (gf_mul c s) lt hd.0 cs,
        inner-add_scaled c (pos + 1) ds ss p (omega arith) hd.1 hs.1,
        xor_swap (gf_mul r d) (gf_mul r (gf_mul c s)) (inner stream (pos + 1) ds)
            (gf_mul c (inner stream (pos + 1) ss)),
        gf_mul_assoc r c s lt p hs.0,
        gf_mul_comm r c,
        gf_mul_assoc c r s p lt hs.0,
        mul_xor c (gf_mul r s) (inner stream (pos + 1) ss) p (gf_mul-lt r s lt hs.0)
            (inner-lt (pos + 1) ss hs.1),
      )

  pub inner-zeros : (pos n : ℕ) → inner stream pos (replicate n 0) ≡ 0
  unfolding inner
  inner-zeros pos zero = refl
  inner-zeros pos (suc n) = ap₂ bit_xor (gf_mul-zero (stream pos)) (inner-zeros (pos + 1) n)
