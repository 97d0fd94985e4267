-- ===== src/Health/Repair.antt =====
-- Making new pieces of a content that has too few: crates/craftec-health/src/repair.rs and
-- error.rs. The lookup of piece ids, postcard, the random generators and BLAKE3 are parameters;
-- what the file system answers to a read, and how the sending ends, are arguments. A message that
-- was sent is the last of a list. The log is left out, and so are the permits and counters of the
-- coding engine. The tracker stays as it is during a repair.
pub mod Counts
pub mod Loads
pub mod Sends
pub mod Executes
use Prim.Native.Nat.{Ordering}
use craftec.Prelude.{
  ℕ, ◌+◌, ◌-◌, ◌%◌, ◌^◌, min, List, [], ◌∷◌, ◌++◌, Option, none, some, Bool, true, false, not, ◌&&◌,
  ◌||◌, ltb, leb, ◌==◌, if◌then◌else◌, length, take, map,
}
use craftec.Prelude.Result.{Result, ok, err}
use craftec.Prelude.Multimap.{retain, is_empty}
use craftec.Types.Piece.{CodedPiece}
use craftec.Types.Message.{WireMessage, piece_response}
use craftec.Rlnc.Decoder.{RlncError}
use craftec.Rlnc.Decoder as Coding
use craftec.Rlnc.Recoder.{recode}
use craftec.Obj.Store.{Io, ObjError}
use craftec.Obj.Interface.{ContentStore}
use craftec.Health.Tracker.{
  PieceHolder, PieceTracker, get_holders, local_piece_count, holders_with_count,
}
use craftec.Health.Scanner.{RepairRequest, critical, normal}
use craftec.Health.Coordinator.{NodeRanking, rank_providers}

-- The reasons that the code gives as text.
pub data Reason : Type 0 where
  recode_failed : RlncError → Reason
  distribution_failed : List ℕ → Reason
  no_candidate_peers : Reason

pub data HealthError : Type 0 where
  insufficient_pieces : ℕ → ℕ → ℕ → HealthError
  repair_failed : ℕ → Reason → HealthError
  coordinator_election_failed : List ℕ → HealthError
  scan_failed : List ℕ → HealthError
  network_error : List ℕ → HealthError

unfoldable pub request_cid : RepairRequest → ℕ
request_cid (critical cid available k) = cid
request_cid (normal cid available target) = cid

unfoldable pub target_count : RepairRequest → ℕ
target_count (critical cid available k) = k
target_count (normal cid available target) = target

unfoldable pub request_available : RepairRequest → ℕ
request_available (critical cid available k) = available
request_available (normal cid available target) = available

-- `saturating_sub`.
unfoldable pub deficit : RepairRequest → ℕ
unfolding target_count request_available
deficit request = target_count request - request_available request

unfoldable pub contains : ℕ → List ℕ → Bool
contains node [] = false
contains node (n ∷ ns) = n == node || contains node ns

-- What is built in, and third-party code.
pub record Parts : Type 1 where
  pub F : Type 0
  pub partial_cmp : F → F → Option Ordering
  pub half : F
  pub piece_cids : ℕ → Option (List ℕ)
  pub from_bytes : List ℕ → Option CodedPiece
  pub hash : List ℕ → ℕ
  pub rng : ℕ → ℕ × ℕ
  pub choose : List ℕ → Option ℕ

pub record RepairExecutor (S : Type 0) : Type 0 where
  pub tracker : PieceTracker
  pub store : S
  pub node_id : ℕ
  pub next_request_id : ℕ
  pub sent : List (ℕ × WireMessage)

-- The holders that may repair, with the placeholders for what is not measured yet.
unfoldable pub repairer : PieceTracker → ℕ → List ℕ → ℕ → PieceHolder → Bool
unfolding contains local_piece_count
repairer t cid alive self h =
    leb 2 (local_piece_count t cid h.node_id) && (contains h.node_id alive || h.node_id == self)

unfoldable pub repairers : PieceTracker → ℕ → List ℕ → ℕ → List ℕ
unfolding repairer
repairers t cid alive self =
    map (λ h. h.node_id) (retain (repairer t cid alive self) (get_holders t cid))

module _ (parts : Parts) where
  abbrev pub ranking : ℕ → NodeRanking parts.F
  ranking node = record { node_id = node; uptime_secs = 0; reputation_score = parts.half }

  -- Steps 2 to 4: the nodes that make a piece each.
  unfoldable pub elected : PieceTracker → ℕ → List ℕ → ℕ → ℕ → List ℕ
  unfolding repairers
  elected t cid alive self count =
      let ranked = rank_providers parts.partial_cmp (map ranking (repairers t cid alive self)) in
      take (min (length ranked) count) ranked

  unfoldable pub loaded : Result (Option (List ℕ)) ObjError → List CodedPiece → List CodedPiece
  loaded (err e) pieces = pieces
  loaded (ok none) pieces = pieces
  loaded (ok (some bytes)) pieces = elim (parts.from_bytes bytes) [
    | none ↦ pieces
    | some piece ↦ pieces ++ piece ∷ []
  ]

  -- A peer with one piece, else one with none, else any.
  unfoldable pub select_distribution_target : PieceTracker → ℕ → List ℕ → ℕ → Result ℕ HealthError
  unfolding contains holders_with_count retain
  select_distribution_target t cid alive self =
      let counts = holders_with_count t cid in
      let holders = map (λ (h : ℕ × ℕ). h.0) counts in
      let one_piece =
        map (λ (h : ℕ × ℕ). h.0)
          (retain (λ (h : ℕ × ℕ). h.1 == 1 && (contains (h.0) alive && not (h.0 == self)))
            counts) in
      let zero_piece = retain (λ id. not (contains id holders) && not (id == self)) alive in
      let fallback = retain (λ id. not (id == self)) alive in
      elim (parts.choose one_piece) [
        | some target ↦ ok target
        | none ↦ elim (parts.choose zero_piece) [
          | some target ↦ ok target
          | none ↦ elim (parts.choose fallback) [
            | some target ↦ ok target
            | none ↦ err (repair_failed cid no_candidate_peers)
          ]
        ]
      ]

  module _ (store : ContentStore) where
    -- The loop over the piece ids. `io i` is about the i-th read.
    unfoldable pub load_pieces :
        (ℕ → Io) → ℕ → List ℕ → List CodedPiece → store.State → store.State × List CodedPiece
    unfolding loaded
    load_pieces io i [] pieces s = (s, pieces)
    load_pieces io i (pcid ∷ rest) pieces s =
        let (s', answer) = store.get (io i) pcid s in
        let after = load_pieces io (i + 1) rest (loaded answer pieces) s' in
        if leb 2 (length pieces) then (s, pieces) else after

    unfoldable pub load_local_pieces :
        (ℕ → Io) → ℕ → store.State → store.State × Result (List CodedPiece) HealthError
    unfolding load_pieces
    load_local_pieces io cid s = elim (parts.piece_cids cid) [
      | none ↦ (s, err (insufficient_pieces cid 2 0))
      | some piece_cids ↦
          let (s', pieces) = load_pieces io 0 piece_cids [] s in
          if ltb (length pieces) 2
          then (s', err (insufficient_pieces cid 2 (length pieces % 2 ^ 32)))
          else (s', ok pieces)
    ]

    abbrev pub Executor : Type 0
    Executor = RepairExecutor store.State

    -- Step 8. The id is taken before the message is sent.
    unfoldable pub distribute :
        Option (List ℕ) → ℕ → ℕ → CodedPiece → Executor → Executor × Result (Unit {0}) HealthError
    distribute send_error cid target piece x =
        let x' : Executor = record x { next_request_id = (x.next_request_id + 1) % 2 ^ 64 } in
        elim send_error [
          | some e ↦ (x', err (repair_failed cid (distribution_failed e)))
          | none ↦ (
            record x' {
              sent = x.sent ++ (target, piece_response (piece ∷ []) x.next_request_id) ∷ [];
            },
            ok tt,
          )
        ]

    -- Steps 5 to 8, for an elected node.
    unfoldable pub repair :
        (ℕ → Io)
        → Option (List ℕ)
        → List ℕ
        → ℕ
        → Executor
        → Executor × Result (Unit {0}) HealthError
    unfolding load_local_pieces select_distribution_target distribute
    repair io send_error alive cid x =
        let (s, answer) = load_local_pieces io cid x.store in
        let x' : Executor = record x { store = s } in
        elim answer [
          | err e ↦ (x', err e)
          | ok pieces ↦ elim (recode parts.hash parts.rng pieces) [
            | Coding.err e ↦ (x', err (repair_failed cid (recode_failed e)))
            | Coding.ok recoded ↦ elim (select_distribution_target x.tracker cid alive x.node_id) [
              | err e ↦ (x', err e)
              | ok target ↦ distribute send_error cid target recoded x'
            ]
          ]
        ]

    -- `alive` is read for the election, and `alive_later`, after the pieces were read, for the
    -- target.
    unfoldable pub execute_repair :
        (ℕ → Io)
        → Option (List ℕ)
        → List ℕ
        → List ℕ
        → RepairRequest
        → Executor
        → Executor × Result (Unit {0}) HealthError
    unfolding deficit elected repair request_cid
    execute_repair io send_error alive alive_later request x =
        let cid = request_cid request in
        if deficit request == 0
        then (x, ok tt)
        else if is_empty (repairers x.tracker cid alive x.node_id)
        then (x, ok tt)
        else if not (contains x.node_id (elected x.tracker cid alive x.node_id (deficit request)))
        then (x, ok tt)
        else repair io send_error alive_later cid x
