-- ===== src/Health/Scanner.antt =====
-- The periodic scan for contents with too few pieces: crates/craftec-health/src/scanner.rs, and the
-- requests of repair.rs. The size of a batch is a float product in the code; `percent_of` stands
-- for its rounded value. The log and the sleep between the cycles are left out.
pub mod Coverage
pub mod Fresh
use craftec.Prelude.{
  ℕ, ◌+◌, ◌-◌, ◌*◌, ◌/◌, ◌%◌, ◌^◌, max, min, List, [], ◌∷◌, ◌++◌, Option, none, some, ltb, leb,
  ◌==◌, if◌then◌else◌, length, take, drop,
}
use craftec.Prelude.Sort.{sort_by_key}
use craftec.Health.Tracker.{PieceHolder, PieceTracker, available_count, local_piece_count, get_k}

pub data RepairRequest : Type 0 where
  critical : ℕ → ℕ → ℕ → RepairRequest
  normal : ℕ → ℕ → ℕ → RepairRequest

abbrev pub default_k : ℕ
default_k = 32

-- `k * ceil(2 + 16 / k)` as a u32: the ceiling is 2 and the rounded up quotient.
unfoldable pub target_piece_count : ℕ → ℕ
target_piece_count k = let k' = max k 1 in (k' * (2 + (16 + (k' - 1)) / k')) % 2 ^ 32

unfoldable pub k_or_default : Option ℕ → ℕ
k_or_default none = default_k
k_or_default (some k) = k

unfoldable pub evaluate_cid : PieceTracker → ℕ → Option RepairRequest
unfolding k_or_default
evaluate_cid t cid =
    let available = available_count t cid in
    let k = k_or_default (get_k t cid) in
    let target = target_piece_count k in
    if ltb available k
    then some (critical cid available k)
    else if ltb available target
    then some (normal cid available target)
    else none

unfoldable pub keys : List (ℕ × List PieceHolder) → List ℕ
keys [] = []
keys ((cid, holders) ∷ m) = cid ∷ keys m

-- `PieceTracker::sorted_cids`.
unfoldable pub sorted_cids : PieceTracker → List ℕ
unfolding keys
sorted_cids t = keys (sort_by_key t.availability)

-- The contents of which the node holds two pieces or more.
unfoldable pub eligible : PieceTracker → ℕ → List ℕ → List ℕ
eligible t node [] = []
eligible t node (cid ∷ cids) =
    let rest = eligible t node cids in
    if leb 2 (local_piece_count t cid node) then cid ∷ rest else rest

-- The loop over the batch.
unfoldable pub evaluate_all : PieceTracker → List ℕ → List RepairRequest
unfolding evaluate_cid
evaluate_all t [] = []
evaluate_all t (cid ∷ cids) =
    let rest = evaluate_all t cids in
    elim (evaluate_cid t cid) [ none ↦ rest | some request ↦ request ∷ rest ]

-- The batch from the cursor on, and what of it wraps around.
unfoldable pub batch : ℕ → ℕ → List ℕ → List ℕ
batch start batch_size cids =
    let total = length cids in
    let stop = min (start + batch_size) total in
    let wrapped =
      if ltb total (start + batch_size)
      then take (min ((start + batch_size) - total) total) cids
      else [] in
    take (stop - start) (drop start cids) ++ wrapped

-- The cursor and the requests of a cycle. Where no content is tracked, none is eligible.
unfoldable pub scan_cycle : (ℕ → ℕ) → ℕ → PieceTracker → ℕ → ℕ × List RepairRequest
unfolding batch
scan_cycle percent_of node t last_scan_index =
    let cids = eligible t node (sorted_cids t) in
    let total = length cids in
    let batch_size = max (percent_of total) 1 in
    let start = last_scan_index % total in
    if total == 0
    then (last_scan_index, [])
    else ((start + batch_size) % total, evaluate_all t (batch start batch_size cids))
