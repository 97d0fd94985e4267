-- ===== src/Prelude/Multimap.antt =====
-- Maps whose values are vectors: `DashMap<K, Vec<V>>`, where an absent key reads as an empty vector.
use Prim.Native.Nat.{ℕ}
use mathlib.Core.Bool.{Bool, true, false}
use mathlib.Core.List.{List, [], ◌∷◌}
use mathlib.Core.Option.{Option, none, some}
use mathlib.Core.Path.{◌≡◌, refl}
use mathlib.Core.Logic.{inl, inr}
use native.Mathlib.Omega.{arith}
use craftec.Prelude.Tests.{◌==◌, if◌then◌else◌, Bool-cases}
use craftec.Prelude.Assoc.{lookup, insert, Distinct, lookup-insert}

module _ {ℓ} {V : Type ℓ} where
  abbrev pub or_empty : Option (List V) → List V
  or_empty none = []
  or_empty (some vs) = vs

  -- `get(k).cloned().unwrap_or_default()`.
  unfoldable pub get_all : ℕ → List (ℕ × List V) → List V
  unfolding lookup
  get_all k m = or_empty (lookup k m)

  abbrev pub is_empty : List V → Bool
  is_empty [] = true
  is_empty (v ∷ vs) = false

  -- `Vec::retain`.
  unfoldable pub retain : (V → Bool) → List V → List V
  retain p [] = []
  retain p (v ∷ vs) = if p v then v ∷ retain p vs else retain p vs

  -- `DashMap::retain` with a closure that shrinks the vector and keeps the entry if it is not empty.
  unfoldable pub retain_entries : (V → Bool) → List (ℕ × List V) → List (ℕ × List V)
  unfolding retain
  retain_entries p [] = []
  retain_entries p ((k, vs) ∷ m) =
      if is_empty (retain p vs) then retain_entries p m else (k, retain p vs) ∷ retain_entries p m

  pub get_all-insert :
      (k j : ℕ) (vs : List V) (m : List (ℕ × List V))
      → get_all j (insert k vs m) ≡ (if k == j then vs else get_all j m)
  unfolding get_all
  get_all-insert k j vs m =
      rw (lookup-insert k j vs m)
        (elim (Bool-cases (k == j)) [ inl h ↦ rw h refl | inr h ↦ rw h refl ])

  lookup-retain_entries-none :
      (p : V → Bool) (k : ℕ) (m : List (ℕ × List V))
      → lookup k m ≡ none
      → lookup k (retain_entries p m) ≡ none
  unfolding retain_entries lookup
  lookup-retain_entries-none p k [] h = refl
  lookup-retain_entries-none p k ((j, vs) ∷ m) h = ground (arith, lookup-retain_entries-none p k m)

  pub retain_entries-Distinct :
      (p : V → Bool) (m : List (ℕ × List V)) → Distinct m → Distinct (retain_entries p m)
  unfolding retain_entries
  retain_entries-Distinct p [] d = tt
  retain_entries-Distinct p ((j, vs) ∷ m) d = elim (Bool-cases (is_empty (retain p vs))) [
    | inl h ↦ rw h (retain_entries-Distinct p m d.1)
    | inr h ↦ rw h (lookup-retain_entries-none p j m d.0, retain_entries-Distinct p m d.1)
  ]

  empty_lem : (vs : List V) → is_empty vs ≡ true → vs ≡ []
  empty_lem [] h = refl
  empty_lem (v ∷ vs) h = cc

  -- Every vector is shrunk, and an entry that was dropped reads as empty.
  pub get_all-retain_entries :
      (p : V → Bool) (k : ℕ) (m : List (ℕ × List V))
      → Distinct m
      → get_all k (retain_entries p m) ≡ retain p (get_all k m)
  unfolding retain_entries get_all lookup
  get_all-retain_entries p k [] d = refl
  get_all-retain_entries p k ((j, vs) ∷ m) d = elim (Bool-cases (is_empty (retain p vs))) [
    | inl h ↦ elim (Bool-cases (j == k)) [
      | inl e ↦
          let same : j ≡ k = ground arith in
          let gone = lookup-retain_entries-none p j m d.0 in
          rw (h, e, ← same, gone, empty_lem (retain p vs) h) refl
      | inr e ↦ rw (h, e) (get_all-retain_entries p k m d.1)
    ]
    | inr h ↦ elim (Bool-cases (j == k)) [
      | inl e ↦ rw (h, e) refl
      | inr e ↦ rw (h, e) (get_all-retain_entries p k m d.1)
    ]
  ]
