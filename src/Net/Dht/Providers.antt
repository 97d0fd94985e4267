-- ===== src/Net/Dht/Providers.antt =====
-- Which nodes are listed for a content after each operation: crates/craftec-net/src/dht.rs.
use craftec.Prelude.{
  ℕ, ◌≡◌, refl, arith, List, [], ◌∷◌, inl, inr, Bool, true, false, not, ◌&&◌, ◌||◌, ◌==◌,
  if◌then◌else◌, Bool-cases, Option-cases,
}
use craftec.Prelude.Assoc.{
  includes, lookup, remove, contains_key, Distinct, lookup-remove, insert-Distinct, remove-Distinct,
}
use craftec.Prelude.Multimap.{
  get_all, is_empty, retain, retain_entries-Distinct, get_all-insert, get_all-retain_entries,
}
use craftec.Net.Dht.{
  ProviderRecord, DhtProviders, refresh, announce_provider, node_ids, is_other, remove_provider,
  remove_node,
}

-- The node is listed as a provider of the content.
abbrev pub provides : DhtProviders → ℕ → ℕ → Bool
provides t cid node = includes node (node_ids (get_all cid t))

includes-refresh :
    (now node n : ℕ) (rs : List ProviderRecord)
    → includes n (node_ids (refresh now node rs)) ≡ ((node == n) || includes n (node_ids rs))
unfolding refresh
includes-refresh now node n [] = ground arith
includes-refresh now node n (r ∷ rs) = ground (arith, includes-refresh now node n rs)

includes-retain_other :
    (node n : ℕ) (rs : List ProviderRecord)
    → includes n (node_ids (retain (is_other node) rs))
      ≡ (includes n (node_ids rs) && not (node == n))
unfolding retain
includes-retain_other node n [] = refl
includes-retain_other node n (r ∷ rs) = ground (arith, includes-retain_other node n rs)

-- After an announcement exactly the earlier providers and the announced one are listed.
pub announce_provider_lem :
    (now cid node : ℕ) (t : DhtProviders) (c n : ℕ)
    → provides (announce_provider now cid node t) c n
      ≡ (((cid == c) && (node == n)) || provides t c n)
unfolding announce_provider
announce_provider_lem now cid node t c n =
    rw (get_all-insert cid c (refresh now node (get_all cid t)) t) (elim (Bool-cases (cid == c)) [
      | inl e ↦
          let same : cid ≡ c = ground arith in
          rw (e, ← same, includes-refresh now node n (get_all cid t)) refl
      | inr e ↦ rw e refl
    ])

get_all-remove :
    (k j : ℕ) (t : DhtProviders) → get_all j (remove k t) ≡ (if k == j then [] else get_all j t)
unfolding get_all
get_all-remove k j t =
    rw (lookup-remove k j t) (elim (Bool-cases (k == j)) [ inl h ↦ rw h refl | inr h ↦ rw h refl ])

empty_lem : (rs : List ProviderRecord) → is_empty rs ≡ true → rs ≡ []
empty_lem [] h = refl
empty_lem (r ∷ rs) h = cc

get_all-missing : (k : ℕ) (t : DhtProviders) → contains_key k t ≡ false → get_all k t ≡ []
unfolding get_all contains_key
get_all-missing k t h = elim (Option-cases (lookup k t)) [
  | inl e ↦ rw e refl
  | inr (rs, e) ↦ let q : true ≡ false = rw (e, contains_key) at h in cc
]

get_all-remove_provider :
    (cid node c : ℕ) (t : DhtProviders)
    → get_all c (remove_provider cid node t)
      ≡ (if cid == c then retain (is_other node) (get_all cid t) else get_all c t)
unfolding remove_provider
get_all-remove_provider cid node c t =
    let rest = retain (is_other node) (get_all cid t) in
    elim (Bool-cases (contains_key cid t)) [
      | inl k ↦ elim (Bool-cases (is_empty rest)) [
        | inl z ↦ rw (k, z, get_all-remove cid c t, empty_lem rest z) refl
        | inr z ↦ rw (k, z, get_all-insert cid c rest t) refl
      ]
      | inr k ↦ rw k (elim (Bool-cases (cid == c)) [
        | inl e ↦
            let same : cid ≡ c = ground arith in
            let none_here = get_all-missing cid t k in
            rw (e, ← same, none_here) (unfold retain in refl)
        | inr e ↦ rw e refl
      ])
    ]

-- After a removal exactly the removed pair is gone.
pub remove_provider_lem :
    (cid node : ℕ) (t : DhtProviders) (c n : ℕ)
    → provides (remove_provider cid node t) c n
      ≡ (provides t c n && not ((cid == c) && (node == n)))
remove_provider_lem cid node t c n =
    rw (get_all-remove_provider cid node c t) (elim (Bool-cases (cid == c)) [
      | inl e ↦
          let same : cid ≡ c = ground arith in
          rw (e, ← same, includes-retain_other node n (get_all cid t)) refl
      | inr e ↦ rw e (ground arith)
    ])

remove_provider-Distinct :
    (cid node : ℕ) (t : DhtProviders) → Distinct t → Distinct (remove_provider cid node t)
unfolding remove_provider
remove_provider-Distinct cid node t d =
    let rest = retain (is_other node) (get_all cid t) in
    elim (Bool-cases (contains_key cid t)) [
      | inl k ↦ elim (Bool-cases (is_empty rest)) [
        | inl z ↦ rw (k, z) (remove-Distinct cid t d)
        | inr z ↦ rw (k, z) (insert-Distinct cid rest t d)
      ]
      | inr k ↦ rw k d
    ]

-- In a table that lists no content twice: after the removal of a node it is listed for no content,
-- and every other node as before; and no content is listed twice.
pub remove_node-provides :
    (node : ℕ) (t : DhtProviders) (c n : ℕ)
    → Distinct t
    → (provides (remove_node node t) c n ≡ (provides t c n && not (node == n)))
      × Distinct (remove_node node t)
unfolding remove_node
remove_node-provides node t c n d = (
  rw (get_all-retain_entries (is_other node) c t d) (includes-retain_other node n (get_all c t)),
  retain_entries-Distinct (is_other node) t d,
)

-- The table refines a set of pairs of a content and a node, where no content is listed twice: an
-- announcement adds the pair, a removal takes it away, the removal of a node takes away all its
-- pairs, and each changes no other pair and lists no content twice.
pub providers_lem :
    (now cid node : ℕ) (t : DhtProviders) (c n : ℕ)
    → Distinct t
    → (provides (announce_provider now cid node t) c n
        ≡ (((cid == c) && (node == n)) || provides t c n))
      × (provides (remove_provider cid node t) c n
          ≡ (provides t c n && not ((cid == c) && (node == n))))
      × (provides (remove_node node t) c n ≡ (provides t c n && not (node == n)))
      × Distinct (announce_provider now cid node t)
      × Distinct (remove_provider cid node t)
      × Distinct (remove_node node t)
unfolding announce_provider
providers_lem now cid node t c n d = (
  announce_provider_lem now cid node t c n,
  remove_provider_lem cid node t c n,
  (remove_node-provides node t c n d).0,
  insert-Distinct cid (refresh now node (get_all cid t)) t d,
  remove_provider-Distinct cid node t d,
  (remove_node-provides node t c n d).1,
)
