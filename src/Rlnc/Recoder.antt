-- ===== src/Rlnc/Recoder.antt =====
-- The recoder: crates/craftec-rlnc/src/recoder.rs. The random generator and BLAKE3 are parameters,
-- as for the encoder.
pub mod Mac
pub mod Payload
use craftec.Prelude.{
  ℕ, zero, suc, List, [], ◌∷◌, Bool, true, false, ◌&&◌, ltb, ◌==◌, if◌then◌else◌, length, replicate,
  map,
}
use craftec.Crypto.HomMac.{combine_tags}
use craftec.Rlnc.Decoder.{Result, ok, err, insufficient_recode_inputs, mismatched_cids}
use craftec.Rlnc.Encoder.{draw, combine_rows}
use craftec.Types.Piece
use craftec.Types.Piece.{CodedPiece}

-- The loop over `pieces.iter().skip(1)`.
unfoldable pub same_cids : ℕ → List CodedPiece → Bool
same_cids cid [] = true
same_cids cid (p ∷ ps) = p.cid == cid && same_cids cid ps

abbrev pub vectors : List CodedPiece → List (List ℕ)
vectors = map (λ p. p.coding_vector)

abbrev pub payloads : List CodedPiece → List (List ℕ)
payloads = map (λ p. p.data_bytes)

abbrev pub tags : List CodedPiece → List (List ℕ)
tags = map (λ p. p.hommac_tag)

-- The combination, for a first piece and scalars that were drawn.
unfoldable pub combined : (List ℕ → ℕ) → CodedPiece → List CodedPiece → List ℕ → CodedPiece
combined hash first pieces scalars =
    Piece.new hash first.cid
      (combine_rows (replicate (length first.coding_vector) 0) (vectors pieces) scalars)
      (combine_rows (replicate (length first.data_bytes) 0) (payloads pieces) scalars)
      (combine_tags (tags pieces) scalars)

unfoldable pub recode : (List ℕ → ℕ) → (ℕ → ℕ × ℕ) → List CodedPiece → Result CodedPiece
recode hash rng [] = err (insufficient_recode_inputs 0)
recode hash rng (first ∷ []) = err (insufficient_recode_inputs 1)
recode hash rng (first ∷ second ∷ rest) =
    let pieces = first ∷ second ∷ rest in
    if same_cids first.cid (second ∷ rest)
    then ok (combined hash first pieces (draw rng (length pieces) 0))
    else err mismatched_cids
