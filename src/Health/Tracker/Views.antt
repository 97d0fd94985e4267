-- ===== src/Health/Tracker/Views.antt =====
-- What every operation does to what is known of one node's pieces of one content id:
-- crates/craftec-health/src/tracker.rs.
use craftec.Prelude.{
  ℕ, ◌-◌, ◌≡◌, refl, ◌∙◌, arith, max, List, [], ◌∷◌, inl, inr, Option, none, some, Bool, ◌&&◌, ltb,
  ◌==◌, if◌then◌else◌, Bool-cases,
}
use craftec.Prelude.Assoc.{insert, Distinct, insert-Distinct}
use craftec.Prelude.Multimap.{
  retain, retain_entries, retain_entries-Distinct, get_all-insert, get_all-retain_entries,
}
use craftec.Health.Tracker.{
  PieceHolder, PieceTracker, find_holder, record_holder, get_holders, record_piece, remove_node,
  is_other, is_fresh, prune_stale, record_k,
}

-- What is known of the node's pieces of the content.
abbrev pub holding : PieceTracker → ℕ → ℕ → Option PieceHolder
holding t cid node = find_holder node (get_holders t cid)

-- The record that an announcement leaves: the greater count, and the time of the announcement.
abbrev pub merged : PieceHolder → Option PieceHolder → PieceHolder
merged h none = h
merged h (some old) = record old {
  piece_count = max old.piece_count h.piece_count;
  last_seen = h.last_seen;
}

find_holder-record_holder :
    (h : PieceHolder) (hs : List PieceHolder) (node : ℕ)
    → find_holder node (record_holder h hs)
      ≡ (if h.node_id == node then some (merged h (find_holder node hs)) else find_holder node hs)
unfolding find_holder record_holder
find_holder-record_holder h [] node = refl
find_holder-record_holder h (x ∷ hs) node = ground (arith, find_holder-record_holder h hs node)

-- An announcement changes what is known of its own node and content only: the count becomes the
-- greater of the old and the new one, and the time is refreshed.
pub record_piece_lem :
    (t : PieceTracker) (cid : ℕ) (h : PieceHolder) (cid' node : ℕ)
    → holding (record_piece cid h t) cid' node ≡ (
        if (cid == cid') && (h.node_id == node)
        then some (merged h (holding t cid node))
        else holding t cid' node)
unfolding record_piece
record_piece_lem t cid h cid' node =
    rw (get_all-insert cid cid' (record_holder h (get_holders t cid)) t.availability)
      (elim (Bool-cases (cid == cid')) [
        | inl e ↦
            let same : cid ≡ cid' = ground arith in
            rw (e, ← same, find_holder-record_holder h (get_holders t cid) node) refl
        | inr e ↦ rw e refl
      ])

find_holder-retain_other :
    (n node : ℕ) (hs : List PieceHolder)
    → find_holder node (retain (is_other n) hs) ≡ (if n == node then none else find_holder node hs)
unfolding find_holder retain
find_holder-retain_other n node [] = ground arith
find_holder-retain_other n node (h ∷ hs) = ground (arith, find_holder-retain_other n node hs)

-- No node has two records of one content.
abbrev pub DistinctNodes : List PieceHolder → Type 0
DistinctNodes [] = Unit
DistinctNodes (h ∷ hs) = (find_holder h.node_id hs ≡ none) × DistinctNodes hs

pub record IsValid (t : PieceTracker) : Type 0 where
  pub distinct : Distinct t.availability
  pub nodes : (cid : ℕ) → DistinctNodes (get_holders t cid)

-- On a valid tracker, removing a node makes what is known of it vanish, for every content, and
-- leaves what is known of any other node.
pub remove_node-holding :
    (t : PieceTracker) (n cid node : ℕ)
    → IsValid t
    → holding (remove_node n t) cid node ≡ (if n == node then none else holding t cid node)
unfolding remove_node
remove_node-holding t n cid node v =
    rw (get_all-retain_entries (is_other n) cid t.availability v.distinct)
      (find_holder-retain_other n node (get_holders t cid))

abbrev pub fresh_only : ℕ → Option PieceHolder → Option PieceHolder
fresh_only cutoff none = none
fresh_only cutoff (some h) = if ltb cutoff h.last_seen then some h else none

find_holder-retain-none :
    (p : PieceHolder → Bool) (node : ℕ) (hs : List PieceHolder)
    → find_holder node hs ≡ none
    → find_holder node (retain p hs) ≡ none
unfolding find_holder retain
find_holder-retain-none p node [] e = refl
find_holder-retain-none p node (h ∷ hs) e = ground (arith, find_holder-retain-none p node hs)

find_holder-retain_fresh :
    (cutoff node : ℕ) (hs : List PieceHolder)
    → DistinctNodes hs
    → find_holder node (retain (is_fresh cutoff) hs) ≡ fresh_only cutoff (find_holder node hs)
unfolding find_holder retain
find_holder-retain_fresh cutoff node [] d = refl
find_holder-retain_fresh cutoff node (h ∷ hs) d = elim (Bool-cases (h.node_id == node)) [
  | inl e ↦
      let same : h.node_id ≡ node = ground arith in
      let gone : find_holder node (retain (is_fresh cutoff) hs) ≡ none =
        find_holder-retain-none (is_fresh cutoff) node hs (rw (← same) (d.0)) in
      elim (Bool-cases (ltb cutoff h.last_seen)) [
        | inl f ↦ rw (f, e, f) refl
        | inr f ↦ rw (f, e, gone, f) refl
      ]
  | inr e ↦ elim (Bool-cases (ltb cutoff h.last_seen)) [
    | inl f ↦ rw (f, e) (find_holder-retain_fresh cutoff node hs d.1)
    | inr f ↦ rw (f, e) (find_holder-retain_fresh cutoff node hs d.1)
  ]
]

-- On a valid tracker, pruning forgets exactly the records that were not seen after `now - max_age`.
pub prune_stale_lem :
    (t : PieceTracker) (now max_age cid node : ℕ)
    → IsValid t
    → holding (prune_stale now max_age t).0 cid node
      ≡ fresh_only (now - max_age) (holding t cid node)
unfolding prune_stale
prune_stale_lem t now max_age cid node v =
    rw (get_all-retain_entries (is_fresh (now - max_age)) cid t.availability v.distinct)
      (find_holder-retain_fresh (now - max_age) node (get_holders t cid) (v.nodes cid))

retain-DistinctNodes :
    (p : PieceHolder → Bool) (hs : List PieceHolder)
    → DistinctNodes hs
    → DistinctNodes (retain p hs)
unfolding retain
retain-DistinctNodes p [] d = tt
retain-DistinctNodes p (h ∷ hs) d = elim (Bool-cases (p h)) [
  | inl e ↦ rw e (find_holder-retain-none p h.node_id hs d.0, retain-DistinctNodes p hs d.1)
  | inr e ↦ rw e (retain-DistinctNodes p hs d.1)
]

record_holder-DistinctNodes :
    (h : PieceHolder) (hs : List PieceHolder)
    → DistinctNodes hs
    → DistinctNodes (record_holder h hs)
unfolding record_holder find_holder
record_holder-DistinctNodes h [] d = (refl, tt)
record_holder-DistinctNodes h (x ∷ hs) d = elim (Bool-cases (x.node_id == h.node_id)) [
  | inl e ↦ rw e d
  | inr e ↦ rw e (
    (find_holder-record_holder h hs x.node_id) ∙ ground (arith, d.0),
    record_holder-DistinctNodes h hs d.1,
  )
]

-- From a valid tracker, every operation that writes keeps one entry for each content and one record
-- for each node in it.
pub tracker-IsValid :
    (t : PieceTracker) (cid : ℕ) (h : PieceHolder) (node now max_age k : ℕ)
    → IsValid t
    → IsValid (record_piece cid h t)
      × IsValid (remove_node node t)
      × IsValid (prune_stale now max_age t).0
      × IsValid (record_k cid k t)
tracker-IsValid t cid h node now max_age k v = (
  unfold record_piece in
      record {
        distinct =
            insert-Distinct cid (record_holder h (get_holders t cid)) t.availability v.distinct;
        nodes = λ c.
            rw (get_all-insert cid c (record_holder h (get_holders t cid)) t.availability)
              (elim (Bool-cases (cid == c)) [
                | inl e ↦ rw e (record_holder-DistinctNodes h (get_holders t cid) (v.nodes cid))
                | inr e ↦ rw e (v.nodes c)
              ]);
      },
  unfold remove_node in shrunk (is_other node) _,
  unfold prune_stale in shrunk (is_fresh (now - max_age)) t.k_values,
  unfold record_k in ground (arith, v, with_k (insert cid k t.k_values)),
)
  where
    with_k : (ks : List (ℕ × ℕ)) → IsValid (record t { k_values = ks })
    with_k ks = record { distinct = v.distinct; nodes = v.nodes }

    shrunk :
        (p : PieceHolder → Bool) (ks : List (ℕ × ℕ))
        → IsValid (record { availability = retain_entries p t.availability; k_values = ks })
    shrunk p ks = record {
      distinct = retain_entries-Distinct p t.availability v.distinct;
      nodes = λ c.
          rw (get_all-retain_entries p c t.availability v.distinct)
            (retain-DistinctNodes p (get_holders t c) (v.nodes c));
    }

-- The tracker refines a map from contents and nodes to what is known of the node's pieces. On a
-- valid tracker: an announcement changes only its own content and node, whose count becomes the
-- greater of both and whose time is the new one; the removal of a node forgets it for every content
-- and nothing else; and pruning forgets exactly what was not seen after `now - max_age`.
pub holdings_lem :
    (t : PieceTracker) (cid : ℕ) (h : PieceHolder) (removed now max_age c node : ℕ)
    → IsValid t
    → (holding (record_piece cid h t) c node ≡ (
        if (cid == c) && (h.node_id == node)
        then some (merged h (holding t cid node))
        else holding t c node))
      × (holding (remove_node removed t) c node
          ≡ (if removed == node then none else holding t c node))
      × (holding (prune_stale now max_age t).0 c node
          ≡ fresh_only (now - max_age) (holding t c node))
holdings_lem t cid h removed now max_age c node v = (
  record_piece_lem t cid h c node,
  remove_node-holding t removed c node v,
  prune_stale_lem t now max_age c node v,
)
