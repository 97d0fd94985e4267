-- ===== src/Rlnc/Engine/Tests.antt =====
-- Examples for the code: three bytes through two engines and a node that recodes.
use craftec.Prelude.{ℕ, ◌+◌, ◌*◌, ◌%◌, ◌≡◌, ◌≤◌, refl, arith, List, [], ◌∷◌}
use craftec.Rlnc.Decoder
use craftec.Rlnc.Encoder
use craftec.Rlnc.Encoder.{Encoder, encode_n, encode_piece, draw}
use craftec.Rlnc.Engine
use craftec.Rlnc.Engine.{RlncEngine, generators}
use craftec.Rlnc.Engine.Decodes.{Decodes}
use craftec.Rlnc.Engine.Derived.{Derived}
use craftec.Rlnc.Recoder
use craftec.Rlnc.Recoder.{combined}
use craftec.Rlnc.Redundancy.{target_n}
use craftec.Rlnc.Redundancy.Bounds.{target_n_lem}
use craftec.Rlnc.Tests.{hash, xof}
use craftec.Types.Piece
use craftec.Types.Piece.{CodedPiece}

-- The roundings leave the exact number for 32 and raise it for 22.
target_n_32 : target_n 32 ≡ 80
unfolding target_n
target_n_32 = refl

target_n_22 : target_n 22 ≡ 61
unfolding target_n
target_n_22 = refl

target_n_lem_example : (2 * 22 + 16 ≤ target_n 22) × (target_n 22 ≤ 2 * 22 + 17)
target_n_lem_example = target_n_lem 22 (omega arith) (omega arith)

abbrev rng : ℕ → ℕ → ℕ × ℕ
rng i j = ((i + j) % 256, 1)

abbrev source : Encoder
source = record {
  k = 2;
  piece_size = 2;
  original_pieces = (5 ∷ 6 ∷ []) ∷ (7 ∷ 0 ∷ []) ∷ [];
  cid = 3;
}

abbrev sent : List CodedPiece
sent = encode_n hash xof (generators rng 20 0) source

abbrev first_piece : CodedPiece
first_piece = encode_piece hash xof (rng 0) source

abbrev second_piece : CodedPiece
second_piece = encode_piece hash xof (rng 1) source

abbrev both : List CodedPiece
both = first_piece ∷ second_piece ∷ []

abbrev mixture : CodedPiece
mixture = combined hash first_piece both (draw (rng 3) 2 0)

abbrev stray : CodedPiece
stray = record { cid = 3; piece_id = 0; coding_vector = 1 ∷ []; data_bytes = []; hommac_tag = [] }

abbrev received : List CodedPiece
received = stray ∷ mixture ∷ first_piece ∷ []
