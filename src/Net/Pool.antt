-- ===== src/Net/Pool.antt =====
-- The pool of connections: crates/craftec-net/src/pool.rs. A connection is a number; times are
-- milliseconds, and `now` is what `Instant::now()` gives. The map's order stands for its iteration
-- order. The log is left out.
pub mod Bounds
use craftec.Prelude.{ℕ, ◌-◌, List, [], ◌∷◌, Option, none, some, ltb, leb, if◌then◌else◌, length}
use craftec.Prelude.Assoc.{lookup}
use craftec.Prelude.Assoc.{insert as insert_entry, remove as remove_entry}

pub record PooledConnection : Type 0 where
  pub connection : ℕ
  pub established_at : ℕ
  pub last_used : ℕ

pub record ConnectionPool : Type 0 where
  pub connections : List (ℕ × PooledConnection)
  pub max_connections : ℕ

abbrev pub default_max_connections : ℕ
default_max_connections = 256

abbrev pub with_capacity : ℕ → ConnectionPool
with_capacity max_connections = record { connections = []; max_connections = max_connections }

abbrev pub new : ConnectionPool
new = with_capacity default_max_connections

unfoldable pub get : ℕ → ℕ → ConnectionPool → ConnectionPool × Option ℕ
unfolding lookup insert_entry
get now node_id p = elim (lookup node_id p.connections) [
  | none ↦ (p, none)
  | some entry ↦ (
    record p {
      connections = insert_entry node_id (record entry { last_used = now }) p.connections;
    },
    some entry.connection,
  )
]

-- `min_by_key`: the first of the entries that were used the longest ago.
unfoldable pub oldest : List (ℕ × PooledConnection) → Option (ℕ × ℕ)
oldest [] = none
oldest ((node_id, entry) ∷ m) = elim (oldest m) [
  | none ↦ some (node_id, entry.last_used)
  | some (other, used) ↦
      if leb entry.last_used used then some (node_id, entry.last_used) else some (other, used)
]

unfoldable pub evict_lru : ConnectionPool → ConnectionPool
unfolding oldest remove_entry
evict_lru p = elim (oldest p.connections) [
  | none ↦ p
  | some (key, used) ↦ record p { connections = remove_entry key p.connections }
]

unfoldable pub insert : ℕ → ℕ → ℕ → ConnectionPool → ConnectionPool
unfolding evict_lru insert_entry
insert now node_id conn p =
    let p' = if leb p.max_connections (length p.connections) then evict_lru p else p in
    record p' {
      connections =
          insert_entry node_id (record { connection = conn; established_at = now; last_used = now })
            p'.connections;
    }

unfoldable pub remove : ℕ → ConnectionPool → ConnectionPool
unfolding remove_entry
remove node_id p = record p { connections = remove_entry node_id p.connections }

unfoldable pub connected_peers : List (ℕ × PooledConnection) → List ℕ
connected_peers [] = []
connected_peers ((node_id, entry) ∷ m) = node_id ∷ connected_peers m

-- `retain`: the entries that stay, and the nodes of those that go.
unfoldable pub split_idle : ℕ → List (ℕ × PooledConnection) → List (ℕ × PooledConnection) × List ℕ
split_idle cutoff [] = ([], [])
split_idle cutoff ((node_id, entry) ∷ m) =
    let (kept, evicted) = split_idle cutoff m in
    if ltb entry.last_used cutoff
    then (kept, node_id ∷ evicted)
    else ((node_id, entry) ∷ kept, evicted)

unfoldable pub prune_idle : ℕ → ℕ → ConnectionPool → ConnectionPool × List ℕ
unfolding split_idle
prune_idle now timeout p =
    let (kept, evicted) = split_idle (now - timeout) p.connections in
    (record p { connections = kept }, evicted)

unfoldable pub len : ConnectionPool → ℕ
len p = length p.connections
