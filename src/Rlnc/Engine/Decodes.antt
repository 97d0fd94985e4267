-- ===== src/Rlnc/Engine/Decodes.antt =====
-- What `decode` answers: crates/craftec-rlnc/src/engine.rs.
use craftec.Prelude.{
  ℕ, ◌-◌, ◌*◌, ◌++◌, replicate, ◌<◌, ◌≤◌, ◌≡◌, ◌⊎◌, refl, ap, sym, subst, ◌∙◌, arith, List, Option,
  none, true, false, inl, inr, length, Bool-cases, ltb,
}
use craftec.Rlnc.Decoder
use craftec.Rlnc.Decoder.{Decoder, Result, RlncError, ok, err, insufficient_pieces}
use craftec.Rlnc.Decoder.Recovers.{concat}
use craftec.Rlnc.Decoder.Valid.{count_some-le, new-IsValid}
use craftec.Rlnc.Encoder.{Encoder}
use craftec.Rlnc.Encoder.RoundTrip.{IsWellFormed, HasData, decode-HasData, add_all}
use craftec.Rlnc.Encoder.Sources.{pad, pad_lem}
use craftec.Rlnc.Engine.{RlncEngine, decoded, count_decoded, conclude, feed, decode}
use craftec.Rlnc.Engine.Feeds.{AllUsable, feed_lem}
use craftec.Types.Piece.{CodedPiece}

-- Of data in `k` pieces of the given size: the engine answers the data, filled up with zeros to `k`
-- times the size, and counts that, or answers that the rank of the pieces is too low, which it then
-- is, and counts nothing.
pub data Decodes (g : RlncEngine) (bytes : List ℕ) (size rank k : ℕ)
    : RlncEngine × Result (List ℕ) → Type 0 where
  recovered :
      length bytes ≤ k * size
      → Decodes g bytes size rank k (
        record g { metrics = decoded g.metrics },
        ok (bytes ++ replicate (k * size - length bytes) 0),
      )
  too_few : rank < k → Decodes g bytes size rank k (g, err (insufficient_pieces rank k))

conclude-none :
    (g : RlncEngine) (x : Decoder × Option RlncError)
    → x.1 ≡ none
    → conclude g x ≡ count_decoded g (Decoder.decode x.0).1
unfolding conclude
conclude-none g (d, o) e = ap (λ t. conclude g (d, t)) e

decode-short :
    (d : Decoder) → d.rank < d.k → (Decoder.decode d).1 ≡ err (insufficient_pieces d.rank d.k)
unfolding Decoder.decode
decode-short d h = let e : ltb d.rank d.k ≡ true = ground arith in rw e refl

decode-open :
    (g : RlncEngine) (k size : ℕ) (ps : List CodedPiece)
    → g.closed ≡ false
    → decode g k size ps ≡ conclude g (feed (Decoder.new k size) ps)
unfolding decode
decode-open g k size ps h = rw h refl

module _ (e : Encoder) (w : IsWellFormed e) (bytes : List ℕ)
    (spells : concat e.original_pieces ≡ pad (e.k * e.piece_size) bytes)
    (room : length bytes ≤ e.k * e.piece_size) where
  rank-le : (d : Decoder) → HasData e w d → d.rank ≤ e.k
  rank-le d h = omega (arith, count_some-le d.pivot_col, h.2.rank_eq, h.2.pivots, h.0)

  conclude_lem :
      (g : RlncEngine) (d : Decoder) (rank : ℕ)
      → HasData e w d
      → (d.rank ≡ e.k) ⊎ (d.rank ≡ rank)
      → Decodes g bytes e.piece_size rank e.k (count_decoded g (Decoder.decode d).1)
  conclude_lem g d rank h which = elim (Bool-cases (ltb d.rank e.k)) [
    | inl short ↦
        let less : d.rank < e.k = ground arith in
        let same : d.rank ≡ rank = ground arith in
        let less' : d.rank < d.k = rw h.0 less in
        subst (λ x. Decodes g bytes e.piece_size rank e.k (count_decoded g x))
          (sym (
            decode-short d less'
            ∙ ap (λ r. err (insufficient_pieces r d.k)) same
            ∙ ap (λ n. err (insufficient_pieces rank n)) h.0))
          (too_few (rw (← same) less))
    | inr enough ↦
        let full : d.rank ≡ d.k = ground (arith, rank-le d h, h.0) in
        subst (λ x. Decodes g bytes e.piece_size rank e.k (count_decoded g x))
          (sym (
            decode-HasData e w d h full
            ∙ ap ok (spells ∙ sym (pad_lem (e.k * e.piece_size) bytes room))))
          (recovered room)
  ]

  -- For an engine that is open, a well-formed encoder whose source pieces joined are the data with
  -- zeros behind it, and any number of pieces in any order, each of which carries the data or is
  -- malformed: the engine answers the data, filled up with zeros to the length of the pieces, or
  -- says that the pieces are too few, which it says only if all of them together have a rank below
  -- `k`.
  pub decode_lem :
      (g : RlncEngine)
      → g.closed ≡ false
      → (ps : List CodedPiece) → AllUsable e ps
      → Decodes g bytes e.piece_size
          (add_all (Decoder.new e.k e.piece_size) ps).rank
          e.k
          (decode g e.k e.piece_size ps)
  decode_lem g is_open ps u =
      let start : HasData e w (Decoder.new e.k e.piece_size) =
        (unfold Decoder.new in refl, unfold Decoder.new in refl, new-IsValid _ e.k e.piece_size) in
      let rank = (add_all (Decoder.new e.k e.piece_size) ps).rank in
      let x = feed (Decoder.new e.k e.piece_size) ps in
      let (fine, h, ends) = feed_lem e w (Decoder.new e.k e.piece_size) ps start u in
      let which : (x.0.rank ≡ e.k) ⊎ (x.0.rank ≡ rank) = elim ends [
        | inl full ↦ inl full
        | inr all ↦ inr (ap (λ d. d.rank) all)
      ] in
      subst (Decodes g bytes e.piece_size rank e.k)
        (sym (decode-open g e.k e.piece_size ps is_open ∙ conclude-none g x fine))
        (conclude_lem g x.0 rank h which)
