-- ===== src/Health/Coordinator.antt =====
-- Which nodes repair: crates/craftec-health/src/coordinator.rs. An `f64` is a value of `F`, of
-- which `partial_cmp` is a parameter. A node id is the number whose digits are its bytes, the first
-- one the highest, so that the order of the bytes is that of the numbers. The log is left out.
pub mod Agreement
use Prim.Native.Nat.{compare, Ordering}
use craftec.Prelude.{ℕ, List, [], ◌∷◌, Option, none, some, Bool, true, false, if◌then◌else◌, map}

pub record NodeRanking (F : Type 0) : Type 0 where
  pub node_id : ℕ
  pub uptime_secs : ℕ
  pub reputation_score : F

-- `Ordering::then_with`.
abbrev pub then_with : Ordering → Ordering → Ordering
then_with Ordering.eq o = o
then_with Ordering.lt o = Ordering.lt
then_with Ordering.gt o = Ordering.gt

-- `unwrap_or(Ordering::Equal)`.
abbrev pub or_equal : Option Ordering → Ordering
or_equal none = Ordering.eq
or_equal (some o) = o

abbrev pub is_greater : Ordering → Bool
is_greater Ordering.gt = true
is_greater _ = false

module _ {F : Type 0} (partial_cmp : F → F → Option Ordering) where
  -- The closure of both methods: the longer uptime, the higher reputation, the lower id first.
  unfoldable pub compare_rankings : NodeRanking F → NodeRanking F → Ordering
  compare_rankings a b = then_with (compare b.uptime_secs a.uptime_secs) (
      then_with (or_equal (partial_cmp b.reputation_score a.reputation_score))
        (compare a.node_id b.node_id))

  -- `Iterator::min_by` from a first candidate: a later one wins only if it is less.
  unfoldable pub min_from : NodeRanking F → List (NodeRanking F) → NodeRanking F
  unfolding compare_rankings
  min_from best [] = best
  min_from best (p ∷ ps) = min_from (if is_greater (compare_rankings best p) then p else best) ps

  unfoldable pub select_coordinator : List (NodeRanking F) → Option ℕ
  unfolding min_from
  select_coordinator [] = none
  select_coordinator (p ∷ ps) = some (min_from p ps).node_id

  unfoldable pub place : NodeRanking F → List (NodeRanking F) → List (NodeRanking F)
  unfolding compare_rankings
  place p [] = p ∷ []
  place p (x ∷ xs) = if is_greater (compare_rankings p x) then x ∷ place p xs else p ∷ x ∷ xs

  -- `sort_by`, which is stable.
  unfoldable pub sort_rankings : List (NodeRanking F) → List (NodeRanking F)
  unfolding place
  sort_rankings [] = []
  sort_rankings (p ∷ ps) = place p (sort_rankings ps)

  unfoldable pub rank_providers : List (NodeRanking F) → List ℕ
  unfolding sort_rankings
  rank_providers providers = map (λ r. r.node_id) (sort_rankings providers)
