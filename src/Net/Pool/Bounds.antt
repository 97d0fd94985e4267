-- ===== src/Net/Pool/Bounds.antt =====
-- How large the pool gets, and what it evicts: crates/craftec-net/src/pool.rs.
use craftec.Prelude.{
  ℕ, ◌+◌, ◌≤◌, ◌≡◌, ◌≢◌, refl, arith, max, List, [], ◌∷◌, none, some, false, inl, inr, ◌⊎◌, leb,
  ◌==◌, eq_refl, subst, length, Bool-cases, Option-cases,
}
use craftec.Prelude.Assoc.{
  lookup, Distinct, lookup-insert, lookup-remove, insert-Distinct, remove-Distinct, length-insert,
  length-remove-lt,
}
use craftec.Prelude.Assoc.{insert as insert_entry}
use craftec.Net.Pool.{ConnectionPool, PooledConnection, oldest, evict_lru, insert}

-- No node has two connections, and there are at most as many as allowed, or one.
pub record IsValid (p : ConnectionPool) : Type 0 where
  pub distinct : Distinct p.connections
  pub bounded : length p.connections ≤ max p.max_connections 1

-- Every entry was used at that time or later.
abbrev pub AllSince : ℕ → List (ℕ × PooledConnection) → Type 0
AllSince t [] = Unit
AllSince t ((node_id, entry) ∷ m) = (t ≤ entry.last_used) × AllSince t m

AllSince-trans : (t u : ℕ) (m : List (ℕ × PooledConnection)) → t ≤ u → AllSince u m → AllSince t m
AllSince-trans t u [] h a = tt
AllSince-trans t u ((k, e) ∷ m) h a =
    let low = a.0 in (omega (arith, h, low), AllSince-trans t u m h a.1)

-- The entry is in the pool, and none was used before it.
pub record IsOldest (key : ℕ) (m : List (ℕ × PooledConnection)) : Type 0 where
  pub entry : PooledConnection
  pub there : lookup key m ≡ some entry
  pub first : AllSince entry.last_used m

Found : List (ℕ × PooledConnection) → Type 0
Found m =
    ((m ≡ []) × (oldest m ≡ none))
    ⊎ ((key : ℕ) × (o : IsOldest key m) × (oldest m ≡ some (key, o.entry.last_used)))

oldest_lem : (m : List (ℕ × PooledConnection)) → Distinct m → Found m
unfolding oldest lookup Found
oldest_lem [] d = inl (refl, refl)
oldest_lem ((k, x) ∷ m) d = elim (oldest_lem m d.1) [
  | inl (empty, nothing) ↦ inr (
    k,
    record { entry = x; there = rw (eq_refl k) refl; first = rw empty (omega arith, tt) },
    rw (nothing, oldest) refl,
  )
  | inr (key, o, e) ↦ elim (Bool-cases (leb x.last_used o.entry.last_used)) [
    | inl h ↦ inr (
      k,
      record {
        entry = x;
        there = rw (eq_refl k) refl;
        first =
            (omega arith, AllSince-trans x.last_used o.entry.last_used m (ground arith) o.first);
      },
      rw (e, oldest, h) refl,
    )
    | inr h ↦ inr (
      key,
      record {
        entry = o.entry;
        there = elim (Bool-cases (k == key)) [
          | inl same ↦
              let q : k ≡ key = ground arith in
              let gone : lookup key m ≡ none = rw (← q) (d.0) in let there = o.there in absurd (cc)
          | inr other ↦ rw other o.there
        ];
        first = (ground arith, o.first);
      },
      rw (e, oldest, h) refl,
    )
  ]
]

-- What a new connection does to the entries of the other nodes: nothing, but where the pool is
-- full, the one that was unused the longest may go.
abbrev pub Evicts : ConnectionPool → List (ℕ × PooledConnection) → ℕ → Type 0
Evicts p new j =
    (lookup j new ≡ lookup j p.connections)
    ⊎ ((lookup j new ≡ none)
        × (p.max_connections ≤ length p.connections)
        × IsOldest j p.connections)

evict_lru_lem :
    (p : ConnectionPool)
    → IsValid p
    → Distinct (evict_lru p).connections
      × ((length (evict_lru p).connections + 1 ≤ length p.connections)
          ⊎ (length (evict_lru p).connections ≡ 0))
      × ((j : ℕ)
          → (lookup j (evict_lru p).connections ≡ lookup j p.connections)
            ⊎ ((lookup j (evict_lru p).connections ≡ none) × IsOldest j p.connections))
unfolding evict_lru Found
evict_lru_lem p v = elim (oldest_lem p.connections v.distinct) [
  | inl (empty, nothing) ↦ rw (nothing, evict_lru) (v.distinct, inr (rw empty refl), λ j. inl refl)
  | inr (key, o, e) ↦
      rw (e, evict_lru)
        (
          remove-Distinct key p.connections v.distinct,
          inl (let less = length-remove-lt key p.connections o.there in omega (arith, less)),
          λ j. rw (lookup-remove key j p.connections) (elim (Bool-cases (key == j)) [
            | inl h ↦
                let q : key ≡ j = ground arith in
                rw h (inr (refl, subst (λ i. IsOldest i p.connections) q o))
            | inr h ↦ rw h (inl refl)
          ]),
        )
]

evict_lru-max_connections : (p : ConnectionPool) → (evict_lru p).max_connections ≡ p.max_connections
unfolding evict_lru
evict_lru-max_connections p = elim (Option-cases (oldest p.connections)) [
  | inl e ↦ rw (e, evict_lru) refl
  | inr (x, e) ↦ rw (e, evict_lru) refl
]

-- The insertion into a pool that has room, whatever was done to make it.
room_lem :
    (node_id j : ℕ) (new : PooledConnection) (p q : ConnectionPool)
    → node_id ≢ j
    → q.max_connections ≡ p.max_connections
    → Distinct q.connections
    → length q.connections + 1 ≤ max p.max_connections 1
    → Evicts p q.connections j
    → IsValid (record q { connections = insert_entry node_id new q.connections })
      × (lookup node_id (insert_entry node_id new q.connections) ≡ some new)
      × Evicts p (insert_entry node_id new q.connections) j
room_lem node_id j new p q other same d room e =
    let size = length-insert node_id new q.connections in
    let different : (node_id == j) ≡ false = ground arith in
    (
      record {
        distinct = insert-Distinct node_id new q.connections d;
        bounded = rw same (ground (arith, size, room));
      },
      rw (lookup-insert node_id node_id new q.connections, eq_refl node_id) refl,
      rw (lookup-insert node_id j new q.connections, different) e,
    )

-- From a valid pool, inserting a connection keeps the pool within its bound and gives the node
-- exactly this connection; every other node keeps its own, except that a full pool may lose the one
-- that was unused the longest.
pub insert_lem :
    (now node_id conn j : ℕ) (p : ConnectionPool)
    → IsValid p
    → node_id ≢ j
    → IsValid (insert now node_id conn p)
      × (lookup node_id (insert now node_id conn p).connections
          ≡ some (record { connection = conn; established_at = now; last_used = now }))
      × Evicts p (insert now node_id conn p).connections j
unfolding insert
insert_lem now node_id conn j p v other =
    let new : PooledConnection = record {
      connection = conn;
      established_at = now;
      last_used = now;
    } in
    let bound = v.bounded in
    elim (Bool-cases (leb p.max_connections (length p.connections))) [
      | inr h ↦
          rw h (room_lem node_id j new p p other refl v.distinct (ground (arith, bound)) (inl refl))
      | inl h ↦
          let (d, shorter, kept) = evict_lru_lem p v in
          let full : p.max_connections ≤ length p.connections = ground arith in
          let room : length (evict_lru p).connections + 1 ≤ max p.max_connections 1 = elim shorter [
            | inl less ↦ omega (arith, less, bound)
            | inr empty ↦ omega (arith, empty)
          ] in
          let evicted : Evicts p (evict_lru p).connections j = elim (kept j) [
            | inl same ↦ inl same
            | inr (gone, o) ↦ inr (gone, full, o)
          ] in
          rw h (
            room_lem node_id j new p (evict_lru p) other (evict_lru-max_connections p) d room
              evicted)
    ]
