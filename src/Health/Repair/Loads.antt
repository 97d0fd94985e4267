-- ===== src/Health/Repair/Loads.antt =====
-- The pieces that a repair reads: crates/craftec-health/src/repair.rs.
use craftec.Prelude.{
  ℕ, ◌+◌, ◌<◌, ◌≡◌, refl, ap, sym, subst, ◌∙◌, arith, List, [], ◌∷◌, ◌++◌, Option, none, some, true,
  false, inl, inr, ◌⊎◌, leb, ltb, ◌%◌, ◌^◌, Bool-cases, Option-cases, length, ◌≤◌,
}
use craftec.Prelude.Result.{Result, ok, err}
use craftec.Crypto.HomMac.{verify_mac}
use craftec.Types.Piece.{CodedPiece}
use craftec.Rlnc.Encoder.{Encoder}
use craftec.Rlnc.Encoder.RoundTrip.{Carries, AllCarry}
use craftec.Rlnc.Recoder.Mac.{AllAuthentic}
use craftec.Obj.Store.{Io, ObjError}
use craftec.Obj.Interface.{ContentStore, IsContentStore}
use craftec.Health.Repair.{
  HealthError, insufficient_pieces, Parts, loaded, load_pieces, load_local_pieces,
}
use craftec.Health.Repair.Counts.{
  Counts, stored_pieces, failed_reads, load_pieces-Counts, loaded-none, loaded-some,
}

-- A piece of the encoder's data that passes the check of its tag.
abbrev pub IsPieceOf : (ℕ → ℕ → ℕ → ℕ) → Encoder → CodedPiece → Type 0
IsPieceOf xof e p = Carries e p × (p.cid ≡ e.cid) × (verify_mac xof p ≡ true)

module _ (xof : ℕ → ℕ → ℕ → ℕ) (e : Encoder) where
  abbrev pub AllPieces : List CodedPiece → Type 0
  AllPieces [] = Unit
  AllPieces (p ∷ ps) = IsPieceOf xof e p × AllPieces ps

  pub AllPieces-AllCarry : (ps : List CodedPiece) → AllPieces ps → AllCarry e ps
  AllPieces-AllCarry [] h = tt
  AllPieces-AllCarry (p ∷ ps) h = (h.0.0, AllPieces-AllCarry ps h.1)

  pub AllPieces-AllAuthentic : (ps : List CodedPiece) → AllPieces ps → AllAuthentic xof e.cid ps
  AllPieces-AllAuthentic [] h = tt
  AllPieces-AllAuthentic (p ∷ ps) h = ((h.0.1, h.0.2), AllPieces-AllAuthentic ps h.1)

  AllPieces-append :
      (ps : List CodedPiece) (p : CodedPiece)
      → AllPieces ps
      → IsPieceOf xof e p
      → AllPieces (ps ++ p ∷ [])
  AllPieces-append [] p h q = (q, tt)
  AllPieces-append (x ∷ ps) p h q = (h.0, AllPieces-append ps p h.1 q)

  module _ (parts : Parts) (Seen : List ℕ → Type 0) (store : ContentStore)
      (laws : IsContentStore parts.hash Seen store) where
    -- What is stored under the ids, where it can be read as a piece at all, is a piece of the data.
    abbrev pub AllStored : store.State → List ℕ → Type 0
    AllStored s [] = Unit
    AllStored s (pcid ∷ pcids) =
        ((bytes : List ℕ) (p : CodedPiece)
          → laws.contents s pcid ≡ some bytes
          → parts.from_bytes bytes ≡ some p
          → IsPieceOf xof e p)
        × AllStored s pcids

    AllStored-get :
        (io : Io) (cid : ℕ) (s : store.State) (pcids : List ℕ)
        → laws.IsValid s
        → AllStored s pcids
        → AllStored (store.get io cid s).0 pcids
    AllStored-get io cid s [] v h = tt
    AllStored-get io cid s (pcid ∷ pcids) v h = (
      λ bytes p found read. h.0 bytes p (sym (laws.get-contents io cid s v pcid) ∙ found) read,
      AllStored-get io cid s pcids v h.1,
    )

    loaded-AllPieces :
        (pcid : ℕ) (s : store.State) (answer : Result (Option (List ℕ)) ObjError)
        (ps : List CodedPiece)
        → (answer ≡ ok (laws.contents s pcid)) ⊎ ((x : ObjError) × (answer ≡ err x))
        → ((bytes : List ℕ) (p : CodedPiece)
            → laws.contents s pcid ≡ some bytes
            → parts.from_bytes bytes ≡ some p
            → IsPieceOf xof e p)
        → AllPieces ps
        → AllPieces (loaded parts answer ps)
    unfolding loaded
    loaded-AllPieces pcid s (err x) ps a h q = q
    loaded-AllPieces pcid s (ok none) ps a h q = q
    loaded-AllPieces pcid s (ok (some bytes)) ps (inr (x, a)) h q = absurd (cc)
    loaded-AllPieces pcid s (ok (some bytes)) ps (inl a) h q =
        elim (Option-cases (parts.from_bytes bytes)) [
          | inl r ↦ subst AllPieces (sym (loaded-none parts Seen store laws bytes ps r)) q
          | inr (p, r) ↦
              let there : laws.contents s pcid ≡ some bytes = (cc) in
              subst AllPieces (sym (loaded-some parts Seen store laws bytes p ps r))
                (AllPieces-append ps p q (h bytes p there r))
        ]

    load_pieces-AllPieces :
        (io : ℕ → Io) (i : ℕ) (pcids : List ℕ) (ps : List CodedPiece) (s : store.State)
        → laws.IsValid s
        → AllStored s pcids
        → AllPieces ps
        → AllPieces (load_pieces parts store io i pcids ps s).1
    unfolding load_pieces
    load_pieces-AllPieces io i [] ps s v h q = q
    load_pieces-AllPieces io i (pcid ∷ pcids) ps s v h q = elim (Bool-cases (leb 2 (length ps))) [
      | inl enough ↦ rw enough q
      | inr more ↦ rw more (
          load_pieces-AllPieces io (i + 1) pcids (loaded parts (store.get (io i) pcid s).1 ps)
            (store.get (io i) pcid s).0 (laws.get-IsValid (io i) pcid s v)
            (AllStored-get (io i) pcid s pcids v h.1)
            (loaded-AllPieces pcid s (store.get (io i) pcid s).1 ps (laws.get_lem (io i) pcid s v)
              h.0 q))
    ]

    -- Fewer than two pieces were found: the content has no list of pieces, or this is the count of
    -- those that are stored, but for the reads that failed.
    abbrev pub TooFew : (ℕ → Io) → ℕ → store.State → ℕ → Type 0
    TooFew io cid s n =
        (n < 2)
        × (((parts.piece_cids cid ≡ none) × (n ≡ 0))
            ⊎ ((pcids : List ℕ) × (parts.piece_cids cid ≡ some pcids)
                × (n ≤ stored_pieces parts Seen store laws s pcids)
                × (stored_pieces parts Seen store laws s pcids
                    ≤ n + failed_reads parts Seen store laws io 0 pcids s)))

    -- Two pieces or more, all of the data, or the error that says how few there are.
    abbrev pub LoadResult :
        (ℕ → Io) → ℕ → store.State → Result (List CodedPiece) HealthError → Type 0
    LoadResult io cid s r =
        ((n : ℕ) × (r ≡ err (insufficient_pieces cid 2 n)) × TooFew io cid s n)
        ⊎ ((first : CodedPiece) × (second : CodedPiece) × (rest : List CodedPiece) × (r
              ≡ ok (first ∷ second ∷ rest))
            × AllPieces (first ∷ second ∷ rest))

    two_or_fewer :
        (ps : List CodedPiece)
        → (length ps < 2)
          ⊎ ((first : CodedPiece) × (second : CodedPiece) × (rest : List CodedPiece) × (ps
                ≡ first ∷ second ∷ rest))
    two_or_fewer [] = inl (omega arith)
    two_or_fewer (p ∷ []) = inl (omega arith)
    two_or_fewer (p ∷ q ∷ ps) = inr (p, q, ps, refl)

    pub load_local_pieces_lem :
        (io : ℕ → Io) (cid : ℕ) (s : store.State)
        → laws.IsValid s
        → ((pcids : List ℕ) → parts.piece_cids cid ≡ some pcids → AllStored s pcids)
        → LoadResult io cid s (load_local_pieces parts store io cid s).1
    unfolding load_local_pieces
    load_local_pieces_lem io cid s v h = elim (Option-cases (parts.piece_cids cid)) [
      | inl e ↦ rw (e, load_local_pieces) (inl (0, refl, (omega arith, inl (refl, refl))))
      | inr (pcids, e) ↦
          let good = load_pieces-AllPieces io 0 pcids [] s v (h pcids e) tt in
          elim (two_or_fewer (load_pieces parts store io 0 pcids [] s).1) [
            | inl few ↦
                let n = length (load_pieces parts store io 0 pcids [] s).1 in
                let count : Counts parts Seen store laws n
                    (stored_pieces parts Seen store laws s pcids)
                    (failed_reads parts Seen store laws io 0 pcids s) =
                  let q = load_pieces-Counts parts Seen store laws io 0 pcids [] s v few in
                  (omega (arith, q.0), omega (arith, q.1)) in
                let small : ltb n 2 ≡ true = ground (arith, few) in
                let whole : n % 2 ^ 32 ≡ n = omega (arith, few) in
                rw (e, small, load_local_pieces)
                  (inl (n, rw whole refl, (few, inr (pcids, refl, count.0, count.1))))
            | inr (first, second, rest, two) ↦
                let enough : ltb (length (load_pieces parts store io 0 pcids [] s).1) 2 ≡ false =
                  rw two (ground arith) in
                rw (e, enough, load_local_pieces)
                  (inr (first, second, rest, ap ok two, rw two at good))
          ]
    ]
