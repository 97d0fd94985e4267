-- ===== src/Health/Coordinator/Agreement.antt =====
-- Every node elects the same nodes: crates/craftec-health/src/coordinator.rs.
use Prim.Native.Nat.{compare, Ordering}
use mathlib.Core.List.{Perm, foldr}
use mathlib.Core.List.Perm
use native.Mathlib.Nat.{ℕ_set}
use craftec.Prelude.{
  ℕ, ◌≡◌, refl, ap, ap₂, sym, ◌∙◌, arith, List, [], ◌∷◌, Option, none, some, Bool, true, false, inl,
  inr, if◌then◌else◌, map, Bool-cases,
}
use craftec.Health.Coordinator.{
  NodeRanking, then_with, is_greater, compare_rankings, min_from, select_coordinator, place,
  sort_rankings, rank_providers,
}

abbrev pub first : List ℕ → Option ℕ
first [] = none
first (a ∷ xs) = some a

-- The metrics of every node, the same wherever they are read, and reputations that are numbers:
-- `value` is the place of a number among all of them.
module _ {F : Type 0} (partial_cmp : F → F → Option Ordering) (ranking : ℕ → NodeRanking F)
    (own_id : (n : ℕ) → (ranking n).node_id ≡ n) (value : F → ℕ)
    (ordered : (a b : ℕ)
      → partial_cmp (ranking a).reputation_score (ranking b).reputation_score
        ≡ some (
            compare
              (value (ranking a).reputation_score)
              (value (ranking b).reputation_score))) where
  -- The node stands behind the other one.
  unfoldable pub behind : ℕ → ℕ → Bool
  behind a b = is_greater (
      then_with (compare (ranking b).uptime_secs (ranking a).uptime_secs) (
        then_with
          (compare (value (ranking b).reputation_score) (value (ranking a).reputation_score))
          (compare a b)))

  behind_lem :
      (a b : ℕ) → is_greater (compare_rankings partial_cmp (ranking a) (ranking b)) ≡ behind a b
  unfolding behind compare_rankings
  behind_lem a b = rw (ordered b a, own_id a, own_id b) refl

  behind_total : (a b : ℕ) → behind a b ≡ false → behind b a ≡ false → a ≡ b
  unfolding behind
  behind_total a b p q = ground arith

  behind_asym : (a b : ℕ) → behind a b ≡ true → behind b a ≡ false
  unfolding behind
  behind_asym a b p = ground arith

  behind_trans : (a b c : ℕ) → behind a b ≡ true → behind b c ≡ true → behind a c ≡ true
  unfolding behind
  behind_trans a b c p q = ground arith

  unfoldable pub place_node : ℕ → List ℕ → List ℕ
  place_node a [] = a ∷ []
  place_node a (b ∷ bs) = if behind a b then b ∷ place_node a bs else a ∷ b ∷ bs

  place_node_comm :
      (a b : ℕ) (xs : List ℕ) → place_node a (place_node b xs) ≡ place_node b (place_node a xs)
  unfolding place_node
  place_node_comm a b xs = elim (Bool-cases (behind a b)) [
    | inl h ↦ ordered_case a b xs h
    | inr h ↦ elim (Bool-cases (behind b a)) [
      | inl h' ↦ sym (ordered_case b a xs h')
      | inr h' ↦ let same : a ≡ b = behind_total a b h h' in rw same refl
    ]
  ]
    where
      ordered_case :
          (a b : ℕ) (xs : List ℕ)
          → behind a b ≡ true
          → place_node a (place_node b xs) ≡ place_node b (place_node a xs)
      ordered_case a b [] h = rw (h, behind_asym a b h) refl
      ordered_case a b (x ∷ xs) h = elim (Bool-cases (behind b x)) [
        | inl e ↦
            let f = behind_trans a b x h e in rw (e, f) (rw e (ap (◌∷◌ x) (ordered_case a b xs h)))
        | inr e ↦ elim (Bool-cases (behind a x)) [
          | inl f ↦ rw (e, f) (rw (h, e) refl)
          | inr f ↦ rw (e, f) (rw (h, e) (rw (behind_asym a b h) refl))
        ]
      ]

  place-map :
      (a : ℕ) (xs : List ℕ)
      → place partial_cmp (ranking a) (map ranking xs) ≡ map ranking (place_node a xs)
  unfolding place place_node
  place-map a [] = refl
  place-map a (x ∷ xs) = elim (Bool-cases (behind a x)) [
    | inl h ↦ rw (behind_lem a x, h) (ap (◌∷◌ (ranking x)) (place-map a xs))
    | inr h ↦ rw (behind_lem a x, h) refl
  ]

  unfoldable pub sorted : List ℕ → List ℕ
  sorted nodes = foldr place_node [] nodes

  sort_rankings-map :
      (nodes : List ℕ) → sort_rankings partial_cmp (map ranking nodes) ≡ map ranking (sorted nodes)
  unfolding sort_rankings sorted
  sort_rankings-map [] = refl
  sort_rankings-map (a ∷ nodes) =
      ap (place partial_cmp (ranking a)) (sort_rankings-map nodes) ∙ place-map a (sorted nodes)

  map-own_id : (nodes : List ℕ) → map (λ r. r.node_id) (map ranking nodes) ≡ nodes
  map-own_id [] = refl
  map-own_id (a ∷ nodes) = ap₂ ◌∷◌ (own_id a) (map-own_id nodes)

  pub rank_providers-map :
      (nodes : List ℕ) → rank_providers partial_cmp (map ranking nodes) ≡ sorted nodes
  unfolding rank_providers
  rank_providers-map nodes =
      ap (map (λ r. r.node_id)) (sort_rankings-map nodes) ∙ map-own_id (sorted nodes)

  sorted-perm : (nodes others : List ℕ) → Perm nodes others → sorted nodes ≡ sorted others
  unfolding sorted
  sorted-perm nodes others p = Perm.foldr-eq (hlevel ℕ_set) place_node place_node_comm p []

  place_node-Perm : (a : ℕ) (xs : List ℕ) → Perm (place_node a xs) (a ∷ xs)
  unfolding place_node
  place_node-Perm a [] = Perm.rfl
  place_node-Perm a (x ∷ xs) = elim (Bool-cases (behind a x)) [
    | inl h ↦ rw h (Perm.trans (Perm.cons x (place_node-Perm a xs)) (Perm.swap a x xs))
    | inr h ↦ rw h Perm.rfl
  ]

  sorted-Perm : (nodes : List ℕ) → Perm (sorted nodes) nodes
  unfolding sorted
  sorted-Perm [] = Perm.rfl
  sorted-Perm (a ∷ nodes) =
      Perm.trans (place_node-Perm a (sorted nodes)) (Perm.cons a (sorted-Perm nodes))

  abbrev pick : ℕ → Option ℕ → ℕ
  pick a none = a
  pick a (some b) = if behind a b then b else a

  behind_split : (a x b : ℕ) → behind a x ≡ false → behind x b ≡ false → behind a b ≡ false
  unfolding behind
  behind_split a x b p q = ground arith

  pick-pick :
      (a x : ℕ) (o : Option ℕ) → pick (if behind a x then x else a) o ≡ pick a (some (pick x o))
  pick-pick a x none = refl
  pick-pick a x (some b) = elim (Bool-cases (behind a x)) [
    | inl e ↦ elim (Bool-cases (behind x b)) [
      | inl f ↦ rw (e, f) (rw (behind_trans a x b e f) refl)
      | inr f ↦ rw (e, f) (rw e refl)
    ]
    | inr e ↦ elim (Bool-cases (behind x b)) [
      | inl f ↦ rw (e, f) refl
      | inr f ↦ rw (e, f) (rw (e, behind_split a x b e f) refl)
    ]
  ]

  first-place_node : (a : ℕ) (xs : List ℕ) → first (place_node a xs) ≡ some (pick a (first xs))
  unfolding place_node
  first-place_node a [] = refl
  first-place_node a (x ∷ xs) = elim (Bool-cases (behind a x)) [
    | inl h ↦ rw h refl
    | inr h ↦ rw h refl
  ]

  min_from-map :
      (a : ℕ) (nodes : List ℕ)
      → (min_from partial_cmp (ranking a) (map ranking nodes)).node_id
        ≡ pick a (first (sorted nodes))
  unfolding min_from sorted
  min_from-map a [] = own_id a
  min_from-map a (x ∷ nodes) =
      let next = if behind a x then x else a in
      let step : (if behind a x then ranking x else ranking a) ≡ ranking next =
        elim (Bool-cases (behind a x)) [ inl h ↦ rw h refl | inr h ↦ rw h refl ] in
      ap (λ r. (min_from partial_cmp r (map ranking nodes)).node_id)
        (ap (λ (b : Bool). if b then ranking x else ranking a) (behind_lem a x) ∙ step)
      ∙ (min_from-map next nodes
          ∙ (pick-pick a x (first (sorted nodes))
              ∙ ap (pick a) (sym (first-place_node x (sorted nodes)))))

  select_coordinator-map :
      (nodes : List ℕ) → select_coordinator partial_cmp (map ranking nodes) ≡ first (sorted nodes)
  unfolding select_coordinator sorted
  select_coordinator-map [] = refl
  select_coordinator-map (a ∷ nodes) =
      ap some (min_from-map a nodes) ∙ sym (first-place_node a (sorted nodes))

  -- Where every node has one ranking, which all read alike, and reputations are numbers: the
  -- ranking of the providers is a permutation of them that does not depend on the order in which
  -- they are listed, so that any two nodes that see the same providers rank them alike; and the
  -- coordinator is the first of the ranking.
  pub rank_providers-agree :
      (nodes others : List ℕ)
      → Perm nodes others
      → (rank_providers partial_cmp (map ranking nodes)
          ≡ rank_providers partial_cmp (map ranking others))
        × Perm (rank_providers partial_cmp (map ranking nodes)) nodes
        × (select_coordinator partial_cmp (map ranking nodes)
            ≡ first (rank_providers partial_cmp (map ranking nodes)))
  rank_providers-agree nodes others p = (
    rank_providers-map nodes ∙ (sorted-perm nodes others p ∙ sym (rank_providers-map others)),
    rw (rank_providers-map nodes) (sorted-Perm nodes),
    select_coordinator-map nodes ∙ ap first (sym (rank_providers-map nodes)),
  )
