-- ===== src/Rlnc/Engine/RoundTrip.antt =====
-- From data to pieces, through any recoding, and back: crates/craftec-rlnc/src/engine.rs.
use craftec.Prelude.{ℕ, ◌⊎◌, List, [], ◌∷◌, ◌≢◌, length}
use craftec.Rlnc.Decoder
use craftec.Rlnc.Decoder.{Decoder}
use craftec.Rlnc.Encoder
use craftec.Rlnc.Encoder.{Encoder, encode_piece}
use craftec.Rlnc.Engine.Decodes.{Decodes}
use craftec.Rlnc.Engine.Derived.{Derived}
use craftec.Types.Piece.{CodedPiece}

-- A piece of the wrong dimensions.
abbrev pub IsBroken : ℕ → ℕ → CodedPiece → Type 0
IsBroken k size p = (length p.coding_vector ≢ k) ⊎ (length p.data_bytes ≢ size)

-- Each piece is derived of the sent ones or broken.
abbrev pub AllReceived : (List ℕ → ℕ) → ℕ → ℕ → List CodedPiece → List CodedPiece → Type 0
AllReceived hash k size sent [] = Unit
AllReceived hash k size sent (p ∷ ps) =
    (Derived hash sent p ⊎ IsBroken k size p) × AllReceived hash k size sent ps
