-- ===== src/Net/Dht.antt =====
-- Who provides which content: crates/craftec-net/src/dht.rs. Times are milliseconds, and the log is
-- left out. The broadcast to random peers is not modelled.
pub mod Providers
use craftec.Prelude.{
  ℕ, ◌+◌, ◌-◌, List, [], ◌∷◌, Option, none, some, Bool, true, false, not, ltb, ◌==◌, if◌then◌else◌,
  length, map,
}
use craftec.Prelude.Assoc.{lookup, insert, remove, contains_key}
use craftec.Prelude.Multimap.{get_all, is_empty, retain, retain_entries}

pub record ProviderRecord : Type 0 where
  pub node_id : ℕ
  pub announced_at : ℕ

abbrev pub DhtProviders : Type 0
DhtProviders = List (ℕ × List ProviderRecord)

-- The first record of the node is refreshed, or one is pushed.
unfoldable pub refresh : ℕ → ℕ → List ProviderRecord → List ProviderRecord
refresh now node [] = record { node_id = node; announced_at = now } ∷ []
refresh now node (r ∷ rs) =
    if r.node_id == node then record r { announced_at = now } ∷ rs else r ∷ refresh now node rs

unfoldable pub announce_provider : ℕ → ℕ → ℕ → DhtProviders → DhtProviders
unfolding refresh
announce_provider now cid node t = insert cid (refresh now node (get_all cid t)) t

abbrev pub node_ids : List ProviderRecord → List ℕ
node_ids = map (λ r. r.node_id)

unfoldable pub get_providers : DhtProviders → ℕ → List ℕ
get_providers t cid = node_ids (get_all cid t)

abbrev pub is_other : ℕ → ProviderRecord → Bool
is_other node r = not (r.node_id == node)

-- `get_mut` with `retain`, and then `remove_if` the vector is empty.
unfoldable pub remove_provider : ℕ → ℕ → DhtProviders → DhtProviders
unfolding contains_key
remove_provider cid node t =
    let rest = retain (is_other node) (get_all cid t) in
    if contains_key cid t then if is_empty rest then remove cid t else insert cid rest t else t

unfoldable pub remove_node : ℕ → DhtProviders → DhtProviders
remove_node node t = retain_entries (is_other node) t

abbrev pub is_fresh : ℕ → ℕ → ProviderRecord → Bool
is_fresh now ttl r = ltb (now - r.announced_at) ttl

-- The number of records that `retain` drops, over all entries.
unfoldable pub dropped : (ProviderRecord → Bool) → DhtProviders → ℕ
dropped p [] = 0
dropped p ((cid, rs) ∷ t) = (length rs - length (retain p rs)) + dropped p t

-- The vectors are shrunk and then the empty ones removed.
unfoldable pub prune_stale : ℕ → ℕ → DhtProviders → DhtProviders × ℕ
unfolding dropped
prune_stale now ttl t = (retain_entries (is_fresh now ttl) t, dropped (is_fresh now ttl) t)

unfoldable pub cid_count : DhtProviders → ℕ
cid_count t = length t

unfoldable pub provider_count : DhtProviders → ℕ
provider_count [] = 0
provider_count ((cid, rs) ∷ t) = length rs + provider_count t
