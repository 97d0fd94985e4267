-- ===== src/Crypto/HomMac.antt =====
-- The homomorphic MAC: crates/craftec-crypto/src/hommac.rs, and the two checks of a piece that
-- crates/craftec-types/src/piece.rs repeats it for. A tag of 32 bytes is a list; a key is the number
-- that its 32 bytes spell. BLAKE3's extendable output is the parameter `xof`: `xof key j i` is
-- byte `i` of the stream for `key || j`.
pub mod Linear
pub mod Combine
use Prim.Native.Nat.{bit_xor}
use craftec.Prelude.{
  ℕ, zero, suc, ◌+◌, List, [], ◌∷◌, Bool, true, false, ◌&&◌, ◌==◌, map, length, take, drop,
  replicate,
}
use craftec.Types.Piece.{CodedPiece, shift_rounds, gf256_mul_0x11b}

-- The same eight rounds as in piece.rs.
unfoldable pub gf256_mul : ℕ → ℕ → ℕ
unfolding shift_rounds
gf256_mul a b = shift_rounds 8 0 a b

-- `a == b` on byte arrays.
unfoldable pub bytes_eq : List ℕ → List ℕ → Bool
bytes_eq [] [] = true
bytes_eq [] (y ∷ ys) = false
bytes_eq (x ∷ xs) [] = false
bytes_eq (x ∷ xs) (y ∷ ys) = x == y && bytes_eq xs ys

-- One chunk against the stream from position `pos` on; `mul` is the local copy of the product.
unfoldable pub mac_bytes : (ℕ → ℕ → ℕ) → (ℕ → ℕ) → ℕ → ℕ → List ℕ → ℕ
mac_bytes mul stream pos acc [] = acc
mac_bytes mul stream pos acc (x ∷ xs) =
    mac_bytes mul stream (pos + 1) (bit_xor acc (mul (stream pos) x)) xs

-- The loop over `chunks(256)`, as the stream position and the accumulator. The fuel is the number of
-- bytes, and each round takes at least one.
unfoldable pub mac_chunks : (ℕ → ℕ → ℕ) → (ℕ → ℕ) → ℕ → ℕ → ℕ → List ℕ → ℕ × ℕ
mac_chunks mul stream zero pos acc xs = (pos, acc)
mac_chunks mul stream (suc fuel) pos acc [] = (pos, acc)
mac_chunks mul stream (suc fuel) pos acc (x ∷ xs) =
    let chunk = take 256 (x ∷ xs) in
    mac_chunks mul stream fuel (pos + length chunk) (mac_bytes mul stream pos acc chunk)
      (drop 256 (x ∷ xs))

unfoldable pub tag_byte : (ℕ → ℕ → ℕ) → (ℕ → ℕ) → List ℕ → List ℕ → ℕ
unfolding mac_chunks mac_bytes
tag_byte mul stream coding_vector data_bytes =
    let (pos, acc) = mac_chunks mul stream (length coding_vector) 0 0 coding_vector in
    (mac_chunks mul stream (length data_bytes) pos acc data_bytes).1

-- `for j in 0..32`, from position `j` on.
unfoldable pub tag_from : (ℕ → ℕ) → ℕ → ℕ → List ℕ
tag_from byte zero j = []
tag_from byte (suc left) j = byte j ∷ tag_from byte left (j + 1)

-- `combined[j] ^= gf256_mul(coeff, tag[j])`.
unfoldable pub combine_step : List ℕ → List ℕ → ℕ → List ℕ
combine_step [] tag coeff = []
combine_step (a ∷ acc) [] coeff = a ∷ acc
combine_step (a ∷ acc) (t ∷ tag) coeff = bit_xor a (gf256_mul coeff t) ∷ combine_step acc tag coeff

unfoldable pub combine_from : List ℕ → List (List ℕ) → List ℕ → List ℕ
combine_from acc [] coefficients = acc
combine_from acc (tag ∷ tags) [] = acc
combine_from acc (tag ∷ tags) (c ∷ coefficients) =
    combine_from (combine_step acc tag c) tags coefficients

unfoldable pub combine_tags : List (List ℕ) → List ℕ → List ℕ
combine_tags tags coefficients = combine_from (replicate 32 0) tags coefficients

module _ (xof : ℕ → ℕ → ℕ → ℕ) where
  unfoldable pub compute_tag : ℕ → List ℕ → List ℕ → List ℕ
  unfolding tag_from tag_byte gf256_mul
  compute_tag key coding_vector data_bytes =
      tag_from (λ j. tag_byte gf256_mul (xof key j) coding_vector data_bytes) 32 0

  unfoldable pub verify_tag : ℕ → List ℕ → List ℕ → List ℕ → Bool
  unfolding compute_tag bytes_eq
  verify_tag key coding_vector data_bytes tag =
      bytes_eq (compute_tag key coding_vector data_bytes) tag

  -- `CodedPiece::verify_mac`, over its own copy of the product.
  unfoldable pub verify_mac : CodedPiece → Bool
  verify_mac p =
      bytes_eq
        (tag_from (λ j. tag_byte gf256_mul_0x11b (xof p.cid j) p.coding_vector p.data_bytes) 32 0)
        p.hommac_tag
