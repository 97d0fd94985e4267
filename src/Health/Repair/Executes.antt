-- ===== src/Health/Repair/Executes.antt =====
-- A repair from the request to the piece that is sent: crates/craftec-health/src/repair.rs, with
-- the recoder, the object store and the election.
use craftec.Prelude.{
  ℕ, ◌<◌, ◌≡◌, ◌≢◌, refl, arith, List, [], ◌∷◌, ◌++◌, Option, none, some, true, false, not, inl,
  inr, ◌⊎◌, ◌==◌, Bool-cases, length, take, map, min,
}
use craftec.Prelude.Result.{Result, ok, err}
use craftec.Prelude.Multimap.{retain, is_empty}
use craftec.Types.Piece
use craftec.Types.Piece.{CodedPiece}
use craftec.Types.Message.{piece_response}
use craftec.Rlnc.Encoder.{Encoder}
use craftec.Rlnc.Encoder.RoundTrip.{IsRng, IsWellFormed}
use craftec.Rlnc.Recoder.Mac.{recode_lem}
use craftec.Obj.Store.{Io}
use craftec.Obj.Interface.{ContentStore, IsContentStore}
use craftec.Health.Tracker.{PieceTracker}
use craftec.Health.Scanner.{RepairRequest}
use craftec.Health.Coordinator.{rank_providers, sort_rankings}
use craftec.Health.Repair.{
  HealthError, insufficient_pieces, repair_failed, distribution_failed, no_candidate_peers, Parts,
  contains, Executor, request_cid, deficit, repairers, elected, ranking, load_local_pieces,
  distribute, repair, execute_repair,
}
use craftec.Health.Repair.Loads.{
  IsPieceOf, AllPieces-AllCarry, AllPieces-AllAuthentic, AllStored, TooFew, load_local_pieces_lem,
}
use craftec.Health.Repair.Sends.{IsChoose, select_distribution_target_lem}

no_repairers :
    (parts : Parts) (t : PieceTracker) (cid : ℕ) (alive : List ℕ) (self count : ℕ)
    → is_empty (repairers t cid alive self) ≡ true
    → contains self (elected parts t cid alive self count) ≡ false
unfolding elected
no_repairers parts t cid alive self count h = from_list (repairers t cid alive self) h
  where
    from_list :
        (nodes : List ℕ)
        → is_empty nodes ≡ true
        → contains self (
            take
              (min (length (rank_providers parts.partial_cmp (map (ranking parts) nodes))) count)
              (rank_providers parts.partial_cmp (map (ranking parts) nodes)))
          ≡ false
    from_list [] e =
        let nothing : min 0 count ≡ 0 = omega arith in
        unfold rank_providers sort_rankings contains in rw nothing refl
    from_list (n ∷ nodes) e = absurd (cc)

module _ (parts : Parts) (fair : IsChoose parts.choose) (ok_rng : IsRng parts.rng)
    (xof : ℕ → ℕ → ℕ → ℕ) (range : (key j i : ℕ) → xof key j i < 256) (e : Encoder)
    (w : IsWellFormed e) (Seen : List ℕ → Type 0) (store : ContentStore)
    (laws : IsContentStore parts.hash Seen store) where
  abbrev pub State : Type 0
  State = Executor parts store

  -- One message was sent: a new piece of the data, to another node that is alive.
  abbrev pub Delivered : List ℕ → State → State × Result (Unit {0}) HealthError → Type 0
  Delivered alive x r =
      (target : ℕ) × (p : CodedPiece) × (r.1 ≡ ok tt)
      × (r.0.sent ≡ x.sent ++ (target, piece_response (p ∷ []) x.next_request_id) ∷ [])
      × (contains target alive ≡ true)
      × (target ≢ x.node_id)
      × IsPieceOf xof e p
      × (Piece.verify_piece_id parts.hash p ≡ true)

  abbrev pub Explains : (ℕ → Io) → Option (List ℕ) → List ℕ → ℕ → State → HealthError → Type 0
  Explains io send_error alive cid x why =
      ((n : ℕ) × (why ≡ insufficient_pieces cid 2 n)
        × TooFew xof e parts Seen store laws io cid x.store n)
      ⊎ (((why ≡ repair_failed cid no_candidate_peers)
            × (retain (λ id. not (id == x.node_id)) alive ≡ []))
          ⊎ ((text : List ℕ) × (send_error ≡ some text)
              × (why ≡ repair_failed cid (distribution_failed text))))

  abbrev pub Failed :
      (ℕ → Io)
      → Option (List ℕ)
      → List ℕ
      → ℕ
      → State
      → State × Result (Unit {0}) HealthError
      → Type 0
  Failed io send_error alive cid x r =
      (r.0.sent ≡ x.sent)
      × ((why : HealthError) × (r.1 ≡ err why) × Explains io send_error alive cid x why)

  abbrev pub RepairResult :
      (ℕ → Io)
      → Option (List ℕ)
      → List ℕ
      → ℕ
      → State
      → State × Result (Unit {0}) HealthError
      → Type 0
  RepairResult io send_error alive cid x r =
      Delivered alive x r ⊎ Failed io send_error alive cid x r

  distribute_lem :
      (io : ℕ → Io) (send_error : Option (List ℕ)) (alive : List ℕ) (cid target : ℕ)
      (p : CodedPiece) (x : State) (s : store.State)
      → contains target alive ≡ true
      → target ≢ x.node_id
      → IsPieceOf xof e p
      → Piece.verify_piece_id parts.hash p ≡ true
      → RepairResult io send_error alive cid x
          (distribute parts store send_error cid target p (record x { store = s }))
  unfolding distribute
  distribute_lem io none alive cid target p x s there other good whole =
      inl (target, p, refl, refl, there, other, good, whole)
  distribute_lem io (some text) alive cid target p x s there other good whole =
      inr (refl, (repair_failed cid (distribution_failed text), refl, inr (inr (text, refl, refl))))

  repair_lem :
      (io : ℕ → Io) (send_error : Option (List ℕ)) (alive : List ℕ) (cid : ℕ) (x : State)
      → laws.IsValid x.store
      → ((pcids : List ℕ)
          → parts.piece_cids cid ≡ some pcids
          → AllStored xof e parts Seen store laws x.store pcids)
      → RepairResult io send_error alive cid x (repair parts store io send_error alive cid x)
  unfolding repair
  repair_lem io send_error alive cid x v stored =
      elim (load_local_pieces_lem xof e parts Seen store laws io cid x.store v stored) [
        | inl (n, few, small) ↦
            rw (few, repair) (inr (refl, (insufficient_pieces cid 2 n, refl, inl (n, refl, small))))
        | inr (first, second, rest, loaded, good) ↦
            let s = (load_local_pieces parts store io cid x.store).0 in
            let (p, recoded, carries, same, mac, whole) =
              recode_lem parts.hash xof range e w parts.rng ok_rng first second rest
                (AllPieces-AllCarry xof e (first ∷ second ∷ rest) good)
                (AllPieces-AllAuthentic xof e (first ∷ second ∷ rest) good) in
            elim (select_distribution_target_lem parts fair x.tracker cid alive x.node_id) [
              | inr (nobody, alone) ↦
                  rw (loaded, recoded, nobody, repair)
                    (inr
                      (refl, (repair_failed cid no_candidate_peers, refl, inr (inl (refl, alone)))))
              | inl (target, found, there, other) ↦
                  rw (loaded, recoded, found, repair)
                    (distribute_lem io send_error alive cid target p x s there other
                      (carries, same, mac) whole)
            ]
      ]

  -- Nothing to do, or not for this node.
  abbrev pub Skipped : List ℕ → RepairRequest → State → Type 0
  Skipped alive request x =
      (deficit request ≡ 0)
      ⊎ (contains x.node_id
            (elected parts x.tracker (request_cid request) alive x.node_id (deficit request))
          ≡ false)

  abbrev pub ExecuteResult :
      (ℕ → Io)
      → Option (List ℕ)
      → List ℕ
      → List ℕ
      → RepairRequest
      → State
      → State × Result (Unit {0}) HealthError
      → Type 0
  ExecuteResult io send_error alive alive_later request x r =
      ((r ≡ (x, ok tt)) × Skipped alive request x)
      ⊎ ((contains x.node_id
              (elected parts x.tracker (request_cid request) alive x.node_id (deficit request))
            ≡ true)
          × RepairResult io send_error alive_later (request_cid request) x r)

  -- Where the stored pieces of the content are pieces of one encoder's data: a node that is elected
  -- sends one new piece, which again carries the data and passes all checks, to another node that
  -- is alive, or answers why it could not, with nothing sent: it has no list of pieces for the
  -- content, or found fewer than two, and this count is that of the stored pieces which can be read
  -- as pieces, less at most the reads that failed; or nobody else is alive, or the sending failed. A
  -- node that is not elected, or a request without a deficit, changes nothing.
  pub execute_repair_lem :
      (io : ℕ → Io) (send_error : Option (List ℕ)) (alive alive_later : List ℕ)
      (request : RepairRequest) (x : State)
      → laws.IsValid x.store
      → ((pcids : List ℕ)
          → parts.piece_cids (request_cid request) ≡ some pcids
          → AllStored xof e parts Seen store laws x.store pcids)
      → ExecuteResult io send_error alive alive_later request x
          (execute_repair parts store io send_error alive alive_later request x)
  unfolding execute_repair
  execute_repair_lem io send_error alive alive_later request x v stored =
      let cid = request_cid request in
      elim (Bool-cases (deficit request == 0)) [
        | inl none_missing ↦ rw (none_missing, execute_repair) (inl (refl, inl (ground arith)))
        | inr missing ↦ elim (Bool-cases (is_empty (repairers x.tracker cid alive x.node_id))) [
          | inl nobody ↦
              rw (missing, nobody, execute_repair)
                (inl (
                  refl,
                  inr (no_repairers parts x.tracker cid alive x.node_id (deficit request) nobody),
                ))
          | inr some_body ↦
              elim (Bool-cases (
                contains x.node_id
                  (elected parts x.tracker cid alive x.node_id (deficit request)))) [
                    | inr other ↦
                        rw (missing, some_body, other, execute_repair) (inl (refl, inr refl))
                    | inl mine ↦
                        rw (missing, some_body, mine, execute_repair)
                          (inr (refl, repair_lem io send_error alive_later cid x v stored))
                  ]
        ]
      ]
