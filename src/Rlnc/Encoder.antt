-- ===== src/Rlnc/Encoder.antt =====
-- The encoder: crates/craftec-rlnc/src/encoder.rs. The random generator is a parameter: `rng j` is
-- the byte drawn for coefficient `j`, with the byte from 1 to 255 that is drawn again if that is 0.
-- BLAKE3 is the parameters `hash` (the cid and the piece ids) and `xof` (the tags).
pub mod Combination
pub mod Sources
pub mod RoundTrip
use craftec.Prelude.{
  ℕ, zero, suc, ◌+◌, ◌-◌, ◌*◌, ◌/◌, List, [], ◌∷◌, ◌++◌, ltb, ◌==◌, if◌then◌else◌, length, take,
  drop, replicate, min,
}
use craftec.Crypto.HomMac.{compute_tag}
use craftec.Rlnc.Decoder.{Result, ok, err, insufficient_pieces}
use craftec.Rlnc.Gf256.{gf_vec_mul_add}
use craftec.Types.Piece
use craftec.Types.Piece.{CodedPiece}

pub record Encoder : Type 0 where
  pub k : ℕ
  pub piece_size : ℕ
  pub original_pieces : List (List ℕ)
  pub cid : ℕ

-- `total.div_ceil(k)`, and 1 for no data.
unfoldable pub piece_size_for : ℕ → ℕ → ℕ
piece_size_for total k = if total == 0 then 1 else (total + k - 1) / k

-- `vec![0u8; piece_size]` with the slice from `i * piece_size` on copied to its front.
pub source_piece : List ℕ → ℕ → ℕ → List ℕ
source_piece bytes piece_size i =
    let total = length bytes in
    let start = i * piece_size in
    let end = min ((i + 1) * piece_size) total in
    if ltb start total
    then take (end - start) (drop start bytes) ++ replicate (piece_size - (end - start)) 0
    else replicate piece_size 0

-- `for i in 0..k`, from `i` on.
pub split : List ℕ → ℕ → ℕ → ℕ → List (List ℕ)
split bytes piece_size zero i = []
split bytes piece_size (suc left) i =
    source_piece bytes piece_size i ∷ split bytes piece_size left (i + 1)

-- `for (j, piece) in pieces`: `acc += coeffs[j] * piece`.
unfoldable pub combine_rows : List ℕ → List (List ℕ) → List ℕ → List ℕ
combine_rows acc [] coeffs = acc
combine_rows acc (p ∷ pieces) [] = acc
combine_rows acc (p ∷ pieces) (c ∷ coeffs) = combine_rows (gf_vec_mul_add acc p c) pieces coeffs

-- A drawn coefficient: a zero is rolled again.
unfoldable pub coefficient : ℕ × ℕ → ℕ
coefficient (c, again) = if c == 0 then again else c

unfoldable pub draw : (ℕ → ℕ × ℕ) → ℕ → ℕ → List ℕ
unfolding coefficient
draw rng zero j = []
draw rng (suc left) j = coefficient (rng j) ∷ draw rng left (j + 1)

module _ (hash : List ℕ → ℕ) (xof : ℕ → ℕ → ℕ → ℕ) where
  unfoldable pub new : List ℕ → ℕ → Result Encoder
  unfolding piece_size_for split source_piece
  new bytes k =
      if k == 0
      then err (insufficient_pieces 0 1)
      else let piece_size = piece_size_for (length bytes) k in
        ok (record {
          k = k;
          piece_size = piece_size;
          original_pieces = split bytes piece_size k 0;
          cid = hash bytes;
        })

  unfoldable pub encode_piece : (ℕ → ℕ × ℕ) → Encoder → CodedPiece
  unfolding draw combine_rows
  encode_piece rng e =
      let coding_vector = draw rng e.k 0 in
      let coded_data = combine_rows (replicate e.piece_size 0) e.original_pieces coding_vector in
      Piece.new hash e.cid coding_vector coded_data (compute_tag xof e.cid coding_vector coded_data)

  -- Each piece has a generator of its own.
  unfoldable pub encode_n : List (ℕ → ℕ × ℕ) → Encoder → List CodedPiece
  unfolding encode_piece
  encode_n [] e = []
  encode_n (rng ∷ rngs) e = encode_piece rng e ∷ encode_n rngs e
