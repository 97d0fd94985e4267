-- ===== src/Health/Repair/Counts.antt =====
-- How many pieces a repair finds: crates/craftec-health/src/repair.rs.
use craftec.Prelude.{
  ℕ, ◌+◌, ◌<◌, ◌≡◌, refl, ap, sym, subst, ◌∙◌, arith, List, [], ◌∷◌, ◌++◌, Option, none, some, inl,
  inr, leb, Bool-cases, Option-cases, length, length-append, ◌≤◌,
}
use craftec.Prelude.Result.{Result, ok, err}
use craftec.Types.Piece.{CodedPiece}
use craftec.Obj.Store.{Io, ObjError}
use craftec.Obj.Interface.{ContentStore, IsContentStore}
use craftec.Health.Repair.{Parts, loaded, load_pieces}

module _ (parts : Parts) (Seen : List ℕ → Type 0) (store : ContentStore)
    (laws : IsContentStore parts.hash Seen store) where
  pub loaded-none :
      (bytes : List ℕ) (ps : List CodedPiece)
      → parts.from_bytes bytes ≡ none
      → loaded parts (ok (some bytes)) ps ≡ ps
  unfolding loaded
  loaded-none bytes ps r = rw (r, loaded) refl

  pub loaded-some :
      (bytes : List ℕ) (p : CodedPiece) (ps : List CodedPiece)
      → parts.from_bytes bytes ≡ some p
      → loaded parts (ok (some bytes)) ps ≡ ps ++ p ∷ []
  unfolding loaded
  loaded-some bytes p ps r = rw (r, loaded) refl

  -- Whether what is stored can be read as a piece.
  abbrev pub is_piece : Option (List ℕ) → ℕ
  is_piece none = 0
  is_piece (some bytes) = elim (parts.from_bytes bytes) [ none ↦ 0 | some p ↦ 1 ]

  -- How many of the ids have a piece stored, and how many of the reads of them all would fail.
  unfoldable pub stored_pieces : store.State → List ℕ → ℕ
  stored_pieces s [] = 0
  stored_pieces s (pcid ∷ pcids) = is_piece (laws.contents s pcid) + stored_pieces s pcids

  abbrev pub is_failure : Result (Option (List ℕ)) ObjError → ℕ
  is_failure (ok bytes) = 0
  is_failure (err e) = 1

  unfoldable pub failed_reads : (ℕ → Io) → ℕ → List ℕ → store.State → ℕ
  failed_reads io i [] s = 0
  failed_reads io i (pcid ∷ pcids) s =
      is_failure (store.get (io i) pcid s).1
      + failed_reads io (i + 1) pcids (store.get (io i) pcid s).0

  stored_pieces-get :
      (io : Io) (cid : ℕ) (s : store.State) (pcids : List ℕ)
      → laws.IsValid s
      → stored_pieces (store.get io cid s).0 pcids ≡ stored_pieces s pcids
  unfolding stored_pieces
  stored_pieces-get io cid s [] v = refl
  stored_pieces-get io cid s (pcid ∷ pcids) v =
      ap (λ o. is_piece o + stored_pieces (store.get io cid s).0 pcids)
        (laws.get-contents io cid s v pcid)
      ∙ ap (◌+◌ (is_piece (laws.contents s pcid))) (stored_pieces-get io cid s pcids v)

  length-loaded :
      (o : Option (List ℕ)) (ps : List CodedPiece)
      → length (loaded parts (ok o) ps) ≡ length ps + is_piece o
  length-loaded none ps = unfold loaded in omega arith
  length-loaded (some bytes) ps = elim (Option-cases (parts.from_bytes bytes)) [
    | inl r ↦ ap length (loaded-none bytes ps r) ∙ rw (r, is_piece) (omega arith)
    | inr (p, r) ↦
        ap length (loaded-some bytes p ps r) ∙ length-append ps (p ∷ []) ∙ rw (r, is_piece) refl
  ]

  length-loaded_failure :
      (x : ObjError) (ps : List CodedPiece) → length (loaded parts (err x) ps) ≡ length ps
  unfolding loaded
  length-loaded_failure x ps = refl

  is_piece-le : (o : Option (List ℕ)) → is_piece o ≤ 1
  is_piece-le none = omega arith
  is_piece-le (some bytes) = elim (Option-cases (parts.from_bytes bytes)) [
    | inl r ↦ rw (r, is_piece) (omega arith)
    | inr (p, r) ↦ rw (r, is_piece) (omega arith)
  ]

  -- The count of the pieces that were found is that of the stored ones, but for failed reads.
  abbrev pub Counts : ℕ → ℕ → ℕ → Type 0
  Counts n stored failures = (n ≤ stored) × (stored ≤ n + failures)

  -- One read adds to the pieces what it should.
  one_read :
      (io : Io) (pcid : ℕ) (s : store.State) (ps : List CodedPiece)
      → laws.IsValid s
      → Counts
          (length (loaded parts (store.get io pcid s).1 ps))
          (length ps + is_piece (laws.contents s pcid))
          (is_failure (store.get io pcid s).1)
  one_read io pcid s ps v = elim (laws.get_lem io pcid s v) [
    | inl found ↦
        let n = length-loaded (laws.contents s pcid) ps in
        subst
          (λ a.
            Counts (length (loaded parts a ps)) (length ps + is_piece (laws.contents s pcid))
              (is_failure a))
          (sym found) (omega (arith, n), omega (arith, n))
    | inr (x, lost) ↦
        let n = length-loaded_failure x ps in
        let few = is_piece-le (laws.contents s pcid) in
        subst
          (λ a.
            Counts (length (loaded parts a ps)) (length ps + is_piece (laws.contents s pcid))
              (is_failure a))
          (sym lost) (omega (arith, n), omega (arith, n, few))
  ]

  pub load_pieces-Counts :
      (io : ℕ → Io) (i : ℕ) (pcids : List ℕ) (ps : List CodedPiece) (s : store.State)
      → laws.IsValid s
      → length (load_pieces parts store io i pcids ps s).1 < 2
      → Counts
          (length (load_pieces parts store io i pcids ps s).1)
          (length ps + stored_pieces s pcids)
          (failed_reads io i pcids s)
  unfolding load_pieces stored_pieces failed_reads
  load_pieces-Counts io i [] ps s v few = (omega arith, omega arith)
  load_pieces-Counts io i (pcid ∷ pcids) ps s v few = elim (Bool-cases (leb 2 (length ps))) [
    | inl enough ↦ let few' : length ps < 2 = rw enough at few in absurd (ground (arith, few'))
    | inr more ↦
        let s' = (store.get (io i) pcid s).0 in
        let ps' = loaded parts (store.get (io i) pcid s).1 ps in
        let few' : length (load_pieces parts store io (i + 1) pcids ps' s').1 < 2 =
          rw more at few in
        let rest =
          load_pieces-Counts io (i + 1) pcids ps' s' (laws.get-IsValid (io i) pcid s v) few' in
        let one = one_read (io i) pcid s ps v in
        let same = stored_pieces-get (io i) pcid s pcids v in
        rw more (omega (arith, rest.0, one.0, same), omega (arith, rest.1, one.1, same))
  ]
