-- ===== src/Health/Tracker.antt =====
-- Which node holds how many pieces: crates/craftec-health/src/tracker.rs. Times are milliseconds. The
-- log is left out, and with it the counters that only it reads. `sorted_cids` is in Health/Scanner.
pub mod Views
use craftec.Prelude.{
  ℕ, ◌+◌, ◌-◌, ◌%◌, ◌^◌, max, List, [], ◌∷◌, ◌++◌, Option, none, some, Bool, true, false, not, ltb,
  ◌==◌, if◌then◌else◌, length, map,
}
use craftec.Prelude.Assoc.{lookup, insert, remove, contains_key}
use craftec.Prelude.Multimap.{get_all, is_empty, retain, retain_entries}

pub record PieceHolder : Type 0 where
  pub node_id : ℕ
  pub piece_count : ℕ
  pub last_seen : ℕ

pub record PieceTracker : Type 0 where
  pub availability : List (ℕ × List PieceHolder)
  pub k_values : List (ℕ × ℕ)

abbrev pub empty_tracker : PieceTracker
empty_tracker = record { availability = []; k_values = [] }

-- `iter().find(|h| h.node_id == node_id)`.
unfoldable pub find_holder : ℕ → List PieceHolder → Option PieceHolder
find_holder node [] = none
find_holder node (h ∷ hs) = if h.node_id == node then some h else find_holder node hs

-- The first record of the holder's node is updated, or the holder is pushed.
unfoldable pub record_holder : PieceHolder → List PieceHolder → List PieceHolder
record_holder holder [] = holder ∷ []
record_holder holder (h ∷ hs) =
    if h.node_id == holder.node_id
    then record h {
      piece_count = max h.piece_count holder.piece_count;
      last_seen = holder.last_seen;
    }
      ∷ hs
    else h ∷ record_holder holder hs

abbrev pub get_holders : PieceTracker → ℕ → List PieceHolder
get_holders t cid = get_all cid t.availability

unfoldable pub record_piece : ℕ → PieceHolder → PieceTracker → PieceTracker
record_piece cid holder t = record t {
  availability = insert cid (record_holder holder (get_holders t cid)) t.availability;
}

-- `sum()` of u32 numbers.
unfoldable pub sum_counts : List PieceHolder → ℕ
sum_counts [] = 0
sum_counts (h ∷ hs) = (h.piece_count + sum_counts hs) % 2 ^ 32

unfoldable pub available_count : PieceTracker → ℕ → ℕ
unfolding sum_counts
available_count t cid = sum_counts (get_holders t cid)

unfoldable pub count_of : Option PieceHolder → ℕ
count_of none = 0
count_of (some h) = h.piece_count

unfoldable pub local_piece_count : PieceTracker → ℕ → ℕ → ℕ
unfolding count_of find_holder
local_piece_count t cid node = count_of (find_holder node (get_holders t cid))

unfoldable pub holders_with_count : PieceTracker → ℕ → List (ℕ × ℕ)
holders_with_count t cid = map (λ h. (h.node_id, h.piece_count)) (get_holders t cid)

unfoldable pub holder_nodes : PieceTracker → ℕ → List ℕ
holder_nodes t cid = map (λ h. h.node_id) (get_holders t cid)

unfoldable pub record_k : ℕ → ℕ → PieceTracker → PieceTracker
unfolding contains_key
record_k cid k t =
    if contains_key cid t.k_values then t else record t { k_values = insert cid k t.k_values }

abbrev pub get_k : PieceTracker → ℕ → Option ℕ
get_k t cid = lookup cid t.k_values

abbrev pub is_other : ℕ → PieceHolder → Bool
is_other node h = not (h.node_id == node)

-- `emptied_cids`.
unfoldable pub emptied : (PieceHolder → Bool) → List (ℕ × List PieceHolder) → List ℕ
unfolding retain
emptied p [] = []
emptied p ((cid, hs) ∷ m) = if is_empty (retain p hs) then cid ∷ emptied p m else emptied p m

unfoldable pub remove_keys : List ℕ → List (ℕ × ℕ) → List (ℕ × ℕ)
remove_keys [] m = m
remove_keys (k ∷ ks) m = remove_keys ks (remove k m)

unfoldable pub remove_node : ℕ → PieceTracker → PieceTracker
unfolding emptied remove_keys
remove_node node t = record {
  availability = retain_entries (is_other node) t.availability;
  k_values = remove_keys (emptied (is_other node) t.availability) t.k_values;
}

abbrev pub is_fresh : ℕ → PieceHolder → Bool
is_fresh cutoff h = ltb cutoff h.last_seen

-- The number of records that `retain` drops, over all entries.
unfoldable pub dropped : (PieceHolder → Bool) → List (ℕ × List PieceHolder) → ℕ
unfolding retain
dropped p [] = 0
dropped p ((cid, hs) ∷ m) = (length hs - length (retain p hs)) + dropped p m

unfoldable pub prune_stale : ℕ → ℕ → PieceTracker → PieceTracker × ℕ
unfolding dropped
prune_stale now max_age t =
    let cutoff = now - max_age in
    (
      record t { availability = retain_entries (is_fresh cutoff) t.availability },
      dropped (is_fresh cutoff) t.availability,
    )

unfoldable pub cid_count : PieceTracker → ℕ
cid_count t = length t.availability
