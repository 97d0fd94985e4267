-- ===== src/Health/Tests.antt =====
-- Examples for the code: two nodes that hold one content.
use Prim.Native.Nat.{compare, Ordering}
use mathlib.Core.List.{Perm}
use mathlib.Core.List.Perm
use craftec.Prelude.{
  ℕ, ◌*◌, ◌≡◌, refl, subst, arith, List, [], ◌∷◌, Option, none, some, true, inl, inr, ◌&&◌, ◌==◌,
  if◌then◌else◌, map, get_elem?, eq_refl, Bool-cases,
}
use craftec.Types.Piece.{CodedPiece}
use craftec.Rlnc.Tests.{
  xof, rng_1, rng_1-IsRng, small, small-IsWellFormed, piece_0, piece_1, pieces-AllCarry,
  pieces-AllAuthentic,
}
use craftec.Obj.Store as Store
use craftec.Obj.Store.Contents.{new-IsValid}
use craftec.Obj.Toys.{
  toy_hash, InUse, InUse-collision_free, object_cache, object_cache-IsLru, full_filter,
  full_filter-IsBloom, no_fault,
}
use craftec.Vfs.Tests.{setting, canonical}
use craftec.Health.Coordinator
use craftec.Health.Coordinator.{
  NodeRanking, rank_providers, sort_rankings, compare_rankings, select_coordinator,
}
use craftec.Health.Coordinator.Agreement.{first, rank_providers-agree}
use craftec.Health.Repair.{Parts, Executor, contains, elected, repairers, repairer, execute_repair}
use craftec.Health.Repair.Loads.{IsPieceOf, AllStored}
use craftec.Health.Repair.Sends.{IsChoose}
use craftec.Health.Repair.Executes.{ExecuteResult, execute_repair_lem}
use craftec.Prelude.Assoc.{lookup}
use craftec.Prelude.Multimap.{get_all, retain}
use craftec.Prelude.Sort.{sort_by_key, place}
use craftec.Health.Scanner.{
  critical, normal, eligible, sorted_cids, keys, evaluate_cid, k_or_default, target_piece_count,
}
use craftec.Health.Scanner.Coverage.{Has, cycles, cycles-cover}
use craftec.Health.Scanner.Fresh.{evaluate_cid-target_n}
use craftec.Rlnc.Redundancy.{target_n}
use craftec.Health.Tracker.{
  available_count, get_k, sum_counts, local_piece_count, count_of, PieceHolder, PieceTracker,
  find_holder, record_piece, remove_node, prune_stale, record_k, get_holders,
}
use craftec.Health.Tracker.Views.{
  IsValid, DistinctNodes, holding, merged, fresh_only, tracker-IsValid, holdings_lem,
}

abbrev holder : ℕ → ℕ → ℕ → PieceHolder
holder node count seen = record { node_id = node; piece_count = count; last_seen = seen }

abbrev tracker : PieceTracker
tracker = record {
  availability = (7, holder 1 3 100 ∷ holder 2 4 900 ∷ []) ∷ (8, holder 1 1 200 ∷ []) ∷ [];
  k_values = (7, 32) ∷ (8, 16) ∷ [];
}

tracker_nodes : (cid : ℕ) → DistinctNodes (get_holders tracker cid)
unfolding get_all lookup find_holder
tracker_nodes cid = ground arith

the_tracker-IsValid : IsValid tracker
unfolding lookup
the_tracker-IsValid = record { distinct = (refl, (refl, tt)); nodes = tracker_nodes }

tracker-IsValid_example :
    IsValid (record_piece 9 (holder 1 2 950) tracker)
    × IsValid (remove_node 1 tracker)
    × IsValid (prune_stale 1000 500 tracker).0
    × IsValid (record_k 9 32 tracker)
tracker-IsValid_example =
    tracker-IsValid tracker 9 (holder 1 2 950) 1 1000 500 32 the_tracker-IsValid

holdings_lem_example :
    (holding (record_piece 7 (holder 1 2 950) tracker) 7 1 ≡ (
      if (7 == 7) && (1 == 1)
      then some (merged (holder 1 2 950) (holding tracker 7 1))
      else holding tracker 7 1))
    × (holding (remove_node 2 tracker) 7 1 ≡ (if 2 == 1 then none else holding tracker 7 1))
    × (holding (prune_stale 1000 500 tracker).0 7 1 ≡ fresh_only 500 (holding tracker 7 1))
holdings_lem_example = holdings_lem tracker 7 (holder 1 2 950) 2 1000 500 7 1 the_tracker-IsValid

-- Node 1 holds two pieces or more of 7 and of 9.
abbrev scanned : PieceTracker
scanned = record {
  availability =
      (9, holder 1 5 100 ∷ [])
      ∷ (7, holder 1 3 100 ∷ holder 2 4 900 ∷ [])
      ∷ (8, holder 1 1 200 ∷ [])
      ∷ [];
  k_values = (7, 32) ∷ (8, 16) ∷ [];
}

-- All the pieces that the encoder makes for 32 source pieces, on two nodes.
abbrev encoded_once : PieceTracker
encoded_once = record {
  availability = (7, holder 1 50 100 ∷ holder 2 30 900 ∷ []) ∷ [];
  k_values = (7, 32) ∷ [];
}

encoded_once_k : get_k encoded_once 7 ≡ some 32
unfolding lookup
encoded_once_k = refl

encoded_once_all : available_count encoded_once 7 ≡ target_n 32
unfolding available_count sum_counts get_all lookup target_n
encoded_once_all = refl

evaluate_cid-target_n_example : evaluate_cid encoded_once 7 ≡ some (normal 7 (target_n 32) (32 * 3))
evaluate_cid-target_n_example =
    evaluate_cid-target_n encoded_once 7 32 (omega arith) (omega arith) encoded_once_k
      encoded_once_all

abbrev one_each : ℕ → ℕ
one_each n = 1

eligible_9 : eligible scanned 1 (sorted_cids scanned) ≡ 7 ∷ 9 ∷ []
unfolding eligible sorted_cids keys sort_by_key place local_piece_count count_of find_holder get_all
    lookup
eligible_9 = refl

needs_9 : evaluate_cid scanned 9 ≡ some (critical 9 5 32)
unfolding evaluate_cid available_count sum_counts k_or_default target_piece_count get_all lookup
needs_9 = refl

cycles-cover_example : Has (cycles one_each 1 scanned 2 3) (critical 9 5 32)
cycles-cover_example =
    cycles-cover one_each 1 scanned 2 3 9 (critical 9 5 32) (rw eligible_9 (omega arith))
      (rw eligible_9 (omega arith)) (rw eligible_9 (1, refl)) needs_9

-- The node with the longer uptime is the one with the greater id.
abbrev ranked_by_id : ℕ → NodeRanking ℕ
ranked_by_id n = record { node_id = n; uptime_secs = n; reputation_score = 50 }

abbrev compare_scores : ℕ → ℕ → Option Ordering
compare_scores a b = some (compare a b)

ranks_2_first : rank_providers compare_scores (map ranked_by_id (1 ∷ 2 ∷ [])) ≡ 2 ∷ 1 ∷ []
unfolding rank_providers sort_rankings Coordinator.place compare_rankings
ranks_2_first = refl

rank_providers-agree_example :
    (rank_providers compare_scores (map ranked_by_id (1 ∷ 2 ∷ []))
      ≡ rank_providers compare_scores (map ranked_by_id (2 ∷ 1 ∷ [])))
    × Perm (rank_providers compare_scores (map ranked_by_id (1 ∷ 2 ∷ []))) (1 ∷ 2 ∷ [])
    × (select_coordinator compare_scores (map ranked_by_id (1 ∷ 2 ∷ []))
        ≡ first (rank_providers compare_scores (map ranked_by_id (1 ∷ 2 ∷ []))))
rank_providers-agree_example =
    rank_providers-agree compare_scores ranked_by_id (λ n. refl) (λ v. v) (λ a b. refl) (1 ∷ 2 ∷ [])
      (2 ∷ 1 ∷ []) (Perm.swap 2 1 [])

-- Two coded pieces of the data of Rlnc/Tests, as stored.
abbrev from_bytes : List ℕ → Option CodedPiece
from_bytes [] = none
from_bytes (b ∷ bytes) = if b == 7 then some piece_0 else some piece_1

abbrev parts : Parts
parts = record {
  F = ℕ;
  partial_cmp = compare_scores;
  half = 50;
  piece_cids = λ cid. some (2 ∷ 4 ∷ []);
  from_bytes = from_bytes;
  hash = toy_hash;
  rng = rng_1;
  choose = λ xs. get_elem? xs 0;
}

first-IsChoose : IsChoose (λ xs. get_elem? xs 0)
unfolding contains
first-IsChoose [] = inl (refl, refl)
first-IsChoose (x ∷ xs) = inr (x, refl, rw (eq_refl x) refl)

from_bytes-IsPieceOf :
    (bytes : List ℕ) (p : CodedPiece) → from_bytes bytes ≡ some p → IsPieceOf xof small p
from_bytes-IsPieceOf [] p e = absurd (cc)
from_bytes-IsPieceOf (b ∷ bytes) p e = elim (Bool-cases (b == 7)) [
  | inl h ↦
      let found : some piece_0 ≡ some p = rw h at e in
      let same : piece_0 ≡ p = (cc) in
      subst (IsPieceOf xof small) same
        (pieces-AllCarry.0, pieces-AllAuthentic.0.0, pieces-AllAuthentic.0.1)
  | inr h ↦
      let found : some piece_1 ≡ some p = rw h at e in
      let same : piece_1 ≡ p = (cc) in
      subst (IsPieceOf xof small) same
        (pieces-AllCarry.1.0, pieces-AllAuthentic.1.0.0, pieces-AllAuthentic.1.0.1)
]

abbrev piece_files : List (ℕ × List ℕ)
piece_files = (2, 7 ∷ 9 ∷ []) ∷ (4, 0 ∷ 0 ∷ 0 ∷ 0 ∷ []) ∷ []

piece_files-InUse :
    (cid : ℕ) (bytes : List ℕ)
    → lookup cid piece_files ≡ some bytes
    → setting.Seen bytes × (toy_hash bytes ≡ cid)
unfolding lookup
piece_files-InUse cid bytes e = elim (Bool-cases (2 == cid)) [
  | inl h ↦
      let found : some (7 ∷ 9 ∷ []) ≡ some bytes = rw h at e in
      let same : 7 ∷ 9 ∷ [] ≡ bytes = (cc) in rw (← same) ((refl, omega arith), ground arith)
  | inr h ↦ elim (Bool-cases (4 == cid)) [
    | inl g ↦
        let found : some (0 ∷ 0 ∷ 0 ∷ 0 ∷ []) ≡ some bytes = rw (h, g) at e in
        let same : 0 ∷ 0 ∷ 0 ∷ 0 ∷ [] ≡ bytes = (cc) in
        rw (← same) ((refl, omega arith), ground arith)
    | inr g ↦ let gone : none ≡ some bytes = rw (h, g) at e in absurd (cc)
  ]
]

-- Node 1, which is asked for more pieces of content 9.
abbrev executor : Executor parts setting.store
executor = record {
  tracker = scanned;
  store = Store.new toy_hash object_cache full_filter 4 piece_files;
  node_id = 1;
  next_request_id = 0;
  sent = [];
}

executor-IsValid : setting.laws.IsValid executor.store
executor-IsValid =
    new-IsValid toy_hash object_cache full_filter (InUse canonical) object_cache-IsLru
      full_filter-IsBloom (InUse-collision_free canonical) 4 piece_files piece_files-InUse

node_1_is_elected : contains 1 (elected parts scanned 9 (2 ∷ []) 1 91) ≡ true
unfolding contains elected repairers repairer retain local_piece_count count_of find_holder get_all
    lookup rank_providers sort_rankings Coordinator.place compare_rankings
node_1_is_elected = refl

execute_repair_lem_example :
    ExecuteResult parts first-IsChoose rng_1-IsRng xof
      (λ key j i. omega arith)
      small
      small-IsWellFormed
      setting.Seen
      setting.store
      setting.laws
      (λ i. no_fault)
      none
      (2 ∷ [])
      (3 ∷ [])
      (normal 9 5 96)
      executor
      (execute_repair parts setting.store
        (λ i. no_fault)
        none
        (2 ∷ [])
        (3 ∷ [])
        (normal 9 5 96)
        executor)
execute_repair_lem_example =
    execute_repair_lem parts first-IsChoose rng_1-IsRng xof (λ key j i. omega arith) small
      small-IsWellFormed setting.Seen setting.store setting.laws (λ i. no_fault) none (2 ∷ [])
      (3 ∷ []) (normal 9 5 96) executor executor-IsValid stored
  where
    stored :
        (pcids : List ℕ)
        → some (2 ∷ 4 ∷ []) ≡ some pcids
        → AllStored xof small parts setting.Seen setting.store setting.laws executor.store pcids
    stored pcids e =
        let same : 2 ∷ 4 ∷ [] ≡ pcids = (cc) in
        subst (AllStored xof small parts setting.Seen setting.store setting.laws executor.store)
          same
          (
            λ bytes p there read. from_bytes-IsPieceOf bytes p read,
            (λ bytes p there read. from_bytes-IsPieceOf bytes p read, tt),
          )
