-- ===== src/Rlnc/Recoder/Mac.antt =====
-- The pieces that `encode_piece` and `recode` make, and the checks of a piece.
use craftec.Prelude.{
  ℕ, ◌+◌, ◌<◌, ◌≡◌, refl, ap, sym, ◌∙◌, List, [], ◌∷◌, arith, length, replicate, true, eq_refl,
}
use craftec.Crypto.HomMac.{verify_mac, combine_tags, compute_tag}
use craftec.Crypto.HomMac.Combine.{verify_mac_iff, compute_tag-zeros}
use craftec.Rlnc.Decoder.{ok}
use craftec.Rlnc.Decoder.Recovers.{Encodes, Encodes-IsClosed}
use craftec.Rlnc.Decoder.Valid.{IsClosed}
use craftec.Rlnc.Encoder.{Encoder, draw, encode_piece}
use craftec.Rlnc.Encoder.RoundTrip.{
  Carries, AllCarry, IsRng, IsWellFormed, draw-IsBytes, encode_piece-Carries,
}
use craftec.Rlnc.Encoder.Sources.{AllRows-IsSource}
use craftec.Rlnc.Gf256.Rows.{IsBytes}
use craftec.Rlnc.Recoder.{recode, same_cids, combined}
use craftec.Rlnc.Recoder.Payload.{
  IsPair, AllFit, AllTagged, zeros-IsPair, combine_rows-IsPair, combine_from-compute_tag,
}
use craftec.Types.Piece
use craftec.Types.Piece.{CodedPiece}

-- Every piece has the encoder's cid and passes `verify_mac`.
abbrev pub AllAuthentic : (ℕ → ℕ → ℕ → ℕ) → ℕ → List CodedPiece → Type 0
AllAuthentic xof cid [] = Unit
AllAuthentic xof cid (p ∷ ps) =
    ((p.cid ≡ cid) × (verify_mac xof p ≡ true)) × AllAuthentic xof cid ps

same_cids_lem :
    (xof : ℕ → ℕ → ℕ → ℕ) (cid : ℕ) (ps : List CodedPiece)
    → AllAuthentic xof cid ps
    → same_cids cid ps ≡ true
unfolding same_cids
same_cids_lem xof cid [] h = refl
same_cids_lem xof cid (p ∷ ps) h = ground (arith, same_cids_lem xof cid ps h.1)

recode_ok :
    (hash : List ℕ → ℕ) (rng : ℕ → ℕ × ℕ) (first second : CodedPiece) (rest : List CodedPiece)
    → same_cids first.cid (second ∷ rest) ≡ true
    → recode hash rng (first ∷ second ∷ rest)
      ≡ ok (
          combined hash first (first ∷ second ∷ rest) (draw rng (length (first ∷ second ∷ rest)) 0))
unfolding recode
recode_ok hash rng first second rest e = rw e

module _ (hash : List ℕ → ℕ) (xof : ℕ → ℕ → ℕ → ℕ) (range : (key j i : ℕ) → xof key j i < 256) where
  -- For a stream of bytes, every piece of a well-formed encoder passes both checks of a piece,
  -- whatever the coefficients.
  pub encode_piece-authentic :
      (rng : ℕ → ℕ × ℕ)
      → IsRng rng
      → (e : Encoder) → IsWellFormed e
      → (verify_mac xof (encode_piece hash xof rng e) ≡ true)
        × (Piece.verify_piece_id hash (encode_piece hash xof rng e) ≡ true)
        × ((encode_piece hash xof rng e).cid ≡ e.cid)
  encode_piece-authentic rng ok_rng e w = (
    (verify_mac_iff xof range (encode_piece hash xof rng e) c.vector_bytes c.data_IsBytes).1
        (unfold encode_piece Piece.new in refl),
    unfold encode_piece Piece.new Piece.verify_piece_id in eq_refl (hash _),
    unfold encode_piece Piece.new in refl,
  )
    where
      c : Carries e (encode_piece hash xof rng e)
      c = encode_piece-Carries hash xof rng ok_rng e w

  module _ (e : Encoder) (w : IsWellFormed e) where
    abbrev P : List ℕ → Type 0
    P = Encodes e.k e.piece_size e.original_pieces

    closed : IsClosed P (e.k + e.piece_size)
    closed =
        Encodes-IsClosed e.k e.piece_size e.original_pieces
          (AllRows-IsSource e.k e.piece_size e.original_pieces w.count w.rows)

    carry_fit : (ps : List CodedPiece) → AllCarry e ps → AllFit P e.k e.piece_size closed ps
    carry_fit [] h = tt
    carry_fit (p ∷ ps) h = (h.0, carry_fit ps h.1)

    authentic_tagged :
        (cid : ℕ) (ps : List CodedPiece)
        → AllCarry e ps
        → AllAuthentic xof cid ps
        → AllTagged P e.k e.piece_size closed xof cid ps
    authentic_tagged cid [] c h = tt
    authentic_tagged cid (p ∷ ps) c h = (
      (verify_mac_iff xof range p c.0.vector_bytes c.0.data_IsBytes).0 h.0.1
          ∙ ap (λ t. compute_tag xof t p.coding_vector p.data_bytes) h.0.0,
      authentic_tagged cid ps c.1 h.1,
    )

    pub combined-Carries :
        (first : CodedPiece) (ps : List CodedPiece) (cs : List ℕ)
        → Carries e first
        → AllCarry e ps
        → IsBytes cs
        → IsPair P e.k e.piece_size
            (combined hash first ps cs).coding_vector
            (combined hash first ps cs).data_bytes
    unfolding combined Piece.new
    combined-Carries first ps cs f c hc =
        rw (f.vector_length, f.data_length)
          (combine_rows-IsPair P e.k e.piece_size closed ps cs (replicate e.k 0)
            (replicate e.piece_size 0) (carry_fit ps c) hc
            (zeros-IsPair e.k e.piece_size e.original_pieces))

    combined-tag :
        (cid : ℕ) (first : CodedPiece) (ps : List CodedPiece) (cs : List ℕ)
        → Carries e first
        → AllCarry e ps
        → AllAuthentic xof cid ps
        → IsBytes cs
        → (combined hash first ps cs).hommac_tag
          ≡ compute_tag xof cid
              (combined hash first ps cs).coding_vector
              (combined hash first ps cs).data_bytes
    unfolding combined Piece.new combine_tags
    combined-tag cid first ps cs f c a hc =
        rw (f.vector_length, f.data_length)
          (combine_from-compute_tag P e.k e.piece_size closed xof range cid ps cs (replicate e.k 0)
            (replicate e.piece_size 0) (replicate 32 0) (carry_fit ps c)
            (authentic_tagged cid ps c a) hc (zeros-IsPair e.k e.piece_size e.original_pieces)
            (sym (compute_tag-zeros xof range cid e.k e.piece_size)))

    combined-cid :
        (first : CodedPiece) (ps : List CodedPiece) (cs : List ℕ)
        → (combined hash first ps cs).cid ≡ first.cid
    unfolding combined Piece.new
    combined-cid first ps cs = refl

    combined-verify_piece_id :
        (first : CodedPiece) (ps : List CodedPiece) (cs : List ℕ)
        → Piece.verify_piece_id hash (combined hash first ps cs) ≡ true
    unfolding combined Piece.new Piece.verify_piece_id
    combined-verify_piece_id first ps cs = eq_refl (hash _)

    -- Two or more authentic pieces of one encoder's data, recoded with whatever random scalars,
    -- give a piece, and, for a stream of bytes, it again carries the data, has the same cid and
    -- passes both checks.
    pub recode_lem :
        (rng : ℕ → ℕ × ℕ)
        → IsRng rng
        → (first second : CodedPiece) (rest : List CodedPiece) → AllCarry e (first ∷ second ∷ rest)
        → AllAuthentic xof e.cid (first ∷ second ∷ rest)
        → (p : CodedPiece) × (recode hash rng (first ∷ second ∷ rest) ≡ ok p)
          × Carries e p
          × (p.cid ≡ e.cid)
          × (verify_mac xof p ≡ true)
          × (Piece.verify_piece_id hash p ≡ true)
    recode_lem rng ok_rng first second rest c a = (
      p,
      returns,
      record {
        vector_length = pair.vector_length;
        data_length = pair.data_length;
        vector_bytes = pair.vector_bytes;
        data_IsBytes = pair.data_IsBytes;
        good = pair.good;
      },
      cid,
      (verify_mac_iff xof range p pair.vector_bytes pair.data_IsBytes).1 (
          combined-tag e.cid first ps cs c.0 c a bytes
          ∙ ap (λ t. compute_tag xof t p.coding_vector p.data_bytes) (sym cid)),
      combined-verify_piece_id first ps cs,
    )
      where
        ps : List CodedPiece
        ps = first ∷ second ∷ rest

        cs : List ℕ
        cs = draw rng (length ps) 0

        p : CodedPiece
        p = combined hash first ps cs

        bytes : IsBytes cs
        bytes = draw-IsBytes rng (length ps) 0 ok_rng

        pair : IsPair P e.k e.piece_size p.coding_vector p.data_bytes
        pair = combined-Carries first ps cs c.0 c bytes

        cid : p.cid ≡ e.cid
        cid = combined-cid first ps cs ∙ a.0.0

        returns : recode hash rng ps ≡ ok p
        returns =
            recode_ok hash rng first second rest
              (rw a.0.0 (same_cids_lem xof e.cid (second ∷ rest) a.1))
