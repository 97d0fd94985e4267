-- ===== src/Rlnc/Tests.antt =====
-- Examples for the code: three bytes in two pieces, encoded, recoded and decoded.
use craftec.Prelude.{ℕ, ◌+◌, ◌*◌, ◌%◌, ◌<◌, ◌≡◌, ◌⊎◌, refl, arith, List, [], ◌∷◌, length, true}
use craftec.Crypto.HomMac.{verify_mac}
use craftec.Rlnc.Decoder
use craftec.Rlnc.Decoder.{Decoder, Result, ok, err, decode, add_piece}
use craftec.Rlnc.Encoder.{Encoder, encode_piece}
use craftec.Rlnc.Encoder.RoundTrip.{
  IsRng, Carries, AllCarry, IsWellFormed, encode_piece-Carries, add_all,
}
use craftec.Rlnc.Decoder.Valid.{IsValid, IsClosed, new-IsValid}
use craftec.Rlnc.Decoder.Insert.{add_piece_lem}
use craftec.Rlnc.Decoder.Recovers.{Encodes, IsSource, Encodes-IsClosed, decode-recovers}
use craftec.Rlnc.Encoder.Sources.{AllRows-IsSource}
use craftec.Rlnc.Recoder.{recode}
use craftec.Rlnc.Recoder.Mac.{encode_piece-authentic, AllAuthentic, recode_lem}
use craftec.Rlnc.Decoder.{back_substitute}
use craftec.Rlnc.Gf256.{
  exp_table, log_table, exp_at, log_at, gf_vec_mul_add, gf_mul, gf_mul_slow, gf_inv, gf_add,
  xor_into, mul_into,
}
use craftec.Rlnc.Gf256.Slow.{gf_mul-eq-slow}
use craftec.Rlnc.Gf256.Field.{gf_field}
use craftec.Types.Piece
use craftec.Types.Piece.{CodedPiece}

abbrev pub hash : List ℕ → ℕ
hash bytes = length bytes

abbrev pub xof : ℕ → ℕ → ℕ → ℕ
xof key j i = (key + 3 * j + i) % 256

abbrev pub rng_0 : ℕ → ℕ × ℕ
rng_0 j = (j % 256, 1)

abbrev pub rng_1 : ℕ → ℕ × ℕ
rng_1 j = ((j + 1) % 256, 1)

pub rng_0-IsRng : IsRng rng_0
rng_0-IsRng j = (omega arith, omega arith, omega arith)

pub rng_1-IsRng : IsRng rng_1
rng_1-IsRng j = (omega arith, omega arith, omega arith)

abbrev pub small : Encoder
small = record {
  k = 2;
  piece_size = 2;
  original_pieces = (5 ∷ 6 ∷ []) ∷ (7 ∷ 0 ∷ []) ∷ [];
  cid = 9;
}

pub small-IsWellFormed : IsWellFormed small
small-IsWellFormed = record { count = refl; rows = ground arith }

abbrev pub piece_0 : CodedPiece
piece_0 = encode_piece hash xof rng_0 small

abbrev pub piece_1 : CodedPiece
piece_1 = encode_piece hash xof rng_1 small

pub pieces-AllCarry : AllCarry small (piece_0 ∷ piece_1 ∷ [])
pieces-AllCarry = (
  encode_piece-Carries hash xof rng_0 rng_0-IsRng small small-IsWellFormed,
  (encode_piece-Carries hash xof rng_1 rng_1-IsRng small small-IsWellFormed, tt),
)

abbrev filled : Decoder
filled = add_all (Decoder.new 2 2) (piece_0 ∷ piece_1 ∷ [])

full : filled.rank ≡ 2
unfolding encode_piece add_piece Decoder.new add_all Piece.new gf_vec_mul_add xor_into mul_into
    gf_mul gf_inv exp_at exp_table log_at log_table
full = refl

abbrev Carried : List ℕ → Type 0
Carried = Encodes 2 2 small.original_pieces

small-IsSource : IsSource 2 2 small.original_pieces
small-IsSource = AllRows-IsSource 2 2 small.original_pieces refl small-IsWellFormed.rows

Carried-IsClosed : IsClosed Carried 4
Carried-IsClosed = Encodes-IsClosed 2 2 small.original_pieces small-IsSource

one_piece-IsValid : IsValid Carried (add_piece (Decoder.new 2 2) piece_0).0
unfolding Decoder.new
one_piece-IsValid =
    (add_piece_lem Carried (Decoder.new 2 2) Carried-IsClosed (new-IsValid Carried 2 2) piece_0
      (pieces-AllCarry.0)).0

gf_mul-eq-slow_example : gf_mul 0x57 0x83 ≡ gf_mul_slow 0x57 0x83
gf_mul-eq-slow_example = gf_mul-eq-slow 0x57 0x83 (omega arith) (omega arith)

gf_field_example :
    (gf_add 5 7 < 256)
    × (gf_add (gf_add 5 7) 9 ≡ gf_add 5 (gf_add 7 9))
    × (gf_add 5 7 ≡ gf_add 7 5)
    × (gf_add 5 0 ≡ 5)
    × (gf_add 5 5 ≡ 0)
    × (gf_mul 5 7 < 256)
    × (gf_mul (gf_mul 5 7) 9 ≡ gf_mul 5 (gf_mul 7 9))
    × (gf_mul 5 7 ≡ gf_mul 7 5)
    × (gf_mul 5 1 ≡ 5)
    × (gf_mul 5 (gf_add 7 9) ≡ gf_add (gf_mul 5 7) (gf_mul 5 9))
    × ((◌≡◌ {A = ℕ} 5 0) ⊎ ((gf_inv 5 < 256) × (gf_mul 5 (gf_inv 5) ≡ 1)))
gf_field_example = gf_field 5 7 9 (omega arith) (omega arith) (omega arith)

pub pieces-AllAuthentic : AllAuthentic xof 9 (piece_0 ∷ piece_1 ∷ [])
pieces-AllAuthentic =
    let a =
      encode_piece-authentic hash xof (λ key j i. omega arith) rng_0 rng_0-IsRng small
        small-IsWellFormed in
    let b =
      encode_piece-authentic hash xof (λ key j i. omega arith) rng_1 rng_1-IsRng small
        small-IsWellFormed in
    ((a.2, a.0), ((b.2, b.0), tt))

recode_lem_example :
    (p : CodedPiece) × (recode hash rng_1 (piece_0 ∷ piece_1 ∷ []) ≡ ok p)
    × Carries small p
    × (p.cid ≡ 9)
    × (verify_mac xof p ≡ true)
    × (Piece.verify_piece_id hash p ≡ true)
recode_lem_example =
    recode_lem hash xof (λ key j i. omega arith) small small-IsWellFormed rng_1 rng_1-IsRng piece_0
      piece_1 [] pieces-AllCarry pieces-AllAuthentic

filled-IsValid : IsValid Carried filled
unfolding encode_piece add_piece Decoder.new add_all Piece.new gf_vec_mul_add xor_into mul_into
    gf_mul gf_inv exp_at exp_table log_at log_table
filled-IsValid =
    (add_piece_lem Carried (add_piece (Decoder.new 2 2) piece_0).0 Carried-IsClosed
      one_piece-IsValid piece_1 (pieces-AllCarry.1.0)).0

decode-recovers_example :
    ((decode filled).1 ≡ ok (5 ∷ 6 ∷ 7 ∷ 0 ∷ [])) × ((decode filled).0.decoded ≡ true)
unfolding encode_piece add_piece Decoder.new add_all Piece.new gf_vec_mul_add xor_into mul_into
    gf_mul gf_inv exp_at exp_table log_at log_table
decode-recovers_example =
    decode-recovers filled small.original_pieces small-IsSource filled-IsValid full
