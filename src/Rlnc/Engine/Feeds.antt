-- ===== src/Rlnc/Engine/Feeds.antt =====
-- The loop of `decode` over pieces of one encoder's data and malformed ones:
-- crates/craftec-rlnc/src/engine.rs.
use craftec.Prelude.{
  ℕ, ◌≡◌, ◌≢◌, ◌⊎◌, refl, ap, sym, subst, ◌∙◌, arith, List, [], ◌∷◌, Option, none, Bool, true,
  false, inl, inr, length, Bool-cases,
}
use craftec.Rlnc.Decoder.{Decoder, Result, RlncError, add_piece, is_decodable, reduced_row}
use craftec.Rlnc.Decoder.Insert.{Added, dependent, independent}
use craftec.Rlnc.Encoder.{Encoder}
use craftec.Rlnc.Encoder.RoundTrip.{
  Carries, IsWellFormed, HasData, add_piece-HasData, add_piece-Added, add_all,
}
use craftec.Rlnc.Engine.{fatal, feed, proceed}
use craftec.Types.Piece.{CodedPiece}

-- A piece whose coding vector or payload has another length.
abbrev pub IsMalformed : Encoder → CodedPiece → Type 0
IsMalformed e p = (length p.coding_vector ≢ e.k) ⊎ (length p.data_bytes ≢ e.piece_size)

abbrev pub AllUsable : Encoder → List CodedPiece → Type 0
AllUsable e [] = Unit
AllUsable e (p ∷ ps) = (Carries e p ⊎ IsMalformed e p) × AllUsable e ps

feed-stop :
    (d : Decoder) (p : CodedPiece) (ps : List CodedPiece)
    → fatal (add_piece d p).1 ≡ none
    → is_decodable (add_piece d p).0 ≡ true
    → feed d (p ∷ ps) ≡ ((add_piece d p).0, none)
unfolding feed proceed
feed-stop d p ps e h =
    let d' = (add_piece d p).0 in ap (λ o. proceed o d' (feed d' ps)) e ∙ rw h refl

feed-go :
    (d : Decoder) (p : CodedPiece) (ps : List CodedPiece)
    → fatal (add_piece d p).1 ≡ none
    → is_decodable (add_piece d p).0 ≡ false
    → feed d (p ∷ ps) ≡ feed (add_piece d p).0 ps
unfolding feed proceed
feed-go d p ps e h = let d' = (add_piece d p).0 in ap (λ o. proceed o d' (feed d' ps)) e ∙ rw h refl

fatal-Added :
    (d : Decoder) (row : List ℕ) (x : Decoder × Result Bool) → Added d row x → fatal x.1 ≡ none
unfolding fatal
fatal-Added d row _ (dependent zeros) = refl
fatal-Added d row _ (independent d' rank k size slot) = refl

is_decodable-rank : (d : Decoder) → is_decodable d ≡ true → d.rank ≡ d.k
unfolding is_decodable
is_decodable-rank d h = ground arith

malformed-skipped :
    (d : Decoder) (p : CodedPiece)
    → (length p.coding_vector ≢ d.k) ⊎ (length p.data_bytes ≢ d.piece_size)
    → ((add_piece d p).0 ≡ d) × (fatal (add_piece d p).1 ≡ none)
unfolding add_piece fatal
malformed-skipped d p bad = ground arith

module _ (e : Encoder) (w : IsWellFormed e) where
  step-HasData :
      (d : Decoder) (p : CodedPiece)
      → HasData e w d
      → Carries e p ⊎ IsMalformed e p
      → HasData e w (add_piece d p).0 × (fatal (add_piece d p).1 ≡ none)
  step-HasData d p h (inl c) = (
    add_piece-HasData e w d p h c,
    fatal-Added d (reduced_row d p) (add_piece d p) (add_piece-Added e w d p h c),
  )
  step-HasData d p h (inr bad) =
      let (same, skipped) = malformed-skipped d p (rw (h.0, h.1) bad) in
      (subst (HasData e w) (sym same) h, skipped)

  -- The loop meets no fatal error. What it leaves keeps the decoder's invariant, and either has
  -- rank `k` or is what all the pieces make.
  pub feed_lem :
      (d : Decoder) (ps : List CodedPiece)
      → HasData e w d
      → AllUsable e ps
      → ((feed d ps).1 ≡ none)
        × HasData e w (feed d ps).0
        × (((feed d ps).0.rank ≡ e.k) ⊎ ((feed d ps).0 ≡ add_all d ps))
  unfolding feed add_all
  feed_lem d [] h u = (refl, h, inr refl)
  feed_lem d (p ∷ ps) h u =
      let d' = (add_piece d p).0 in
      let (h', fine) = step-HasData d p h u.0 in
      elim (Bool-cases (is_decodable d')) [
        | inl full ↦
            let rank : d'.rank ≡ e.k = is_decodable-rank d' full ∙ h'.0 in
            subst (Fed (p ∷ ps) d) (sym (feed-stop d p ps fine full)) (refl, h', inl rank)
        | inr more ↦ subst (Fed (p ∷ ps) d) (sym (feed-go d p ps fine more)) (feed_lem d' ps h' u.1)
      ]
    where
      Fed : List CodedPiece → Decoder → Decoder × Option RlncError → Type 0
      Fed qs d x = (x.1 ≡ none) × HasData e w x.0 × ((x.0.rank ≡ e.k) ⊎ (x.0 ≡ add_all d qs))
