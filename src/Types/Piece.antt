-- ===== src/Types/Piece.antt =====
-- Coded pieces: crates/craftec-types/src/piece.rs. A `Cid` and a `PieceId` (32 bytes) are the
-- numbers that their bytes spell.
use Prim.Native.Nat.{bit_and, bit_xor}
use craftec.Prelude.{ℕ, zero, suc, ◌*◌, ◌/◌, ◌%◌, Bool, List, ◌++◌, ◌==◌, if◌then◌else◌}

pub record CodedPiece : Type 0 where
  pub piece_id : ℕ
  pub cid : ℕ
  pub coding_vector : List ℕ
  pub data_bytes : List ℕ
  pub hommac_tag : List ℕ

-- `hash` stands for BLAKE3.
module _ (hash : List ℕ → ℕ) where
  unfoldable pub new : ℕ → List ℕ → List ℕ → List ℕ → CodedPiece
  new cid coding_vector data_bytes hommac_tag = record {
    piece_id = hash (coding_vector ++ data_bytes);
    cid = cid;
    coding_vector = coding_vector;
    data_bytes = data_bytes;
    hommac_tag = hommac_tag;
  }

  unfoldable pub verify_piece_id : CodedPiece → Bool
  verify_piece_id p = hash (p.coding_vector ++ p.data_bytes) == p.piece_id

-- The eight rounds of `gf256_mul_0x11b`.
unfoldable pub shift_rounds : ℕ → ℕ → ℕ → ℕ → ℕ
shift_rounds zero result aa bb = result
shift_rounds (suc left) result aa bb =
    let high_bit = bit_and aa 0x80 in
    let shifted = aa * 2 % 256 in
    shift_rounds left (if bit_and bb 1 == 0 then result else bit_xor result aa)
      (if high_bit == 0 then shifted else bit_xor shifted 0x1b) (bb / 2)

unfoldable pub gf256_mul_0x11b : ℕ → ℕ → ℕ
unfolding shift_rounds
gf256_mul_0x11b a b = shift_rounds 8 0 a b
