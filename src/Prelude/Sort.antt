-- ===== src/Prelude/Sort.antt =====
-- `sort_by_key` on association lists, as a stable insertion sort.
use Prim.Native.Nat.{ℕ, suc, ◌+◌, ◌≤◌, ◌<◌}
use mathlib.Core.Bool.{false}
use mathlib.Core.List.{List, [], ◌∷◌}
use mathlib.Core.Logic.{inl, inr}
use mathlib.Core.Option.{none, some}
use mathlib.Core.Path.{◌≡◌, refl, ap, ap₂, ◌∙◌, sym}
use native.Mathlib.Omega.{arith}
use craftec.Prelude.Lists.{length}
use craftec.Prelude.Tests.{◌==◌, leb, eq_refl, if◌then◌else◌, Bool-cases}
use craftec.Prelude.Assoc.{lookup, Distinct}

module _ {ℓ} {V : Type ℓ} where
  -- Before the entries with the same key, and behind those with a smaller one.
  unfoldable pub place : ℕ → V → List (ℕ × V) → List (ℕ × V)
  place k v [] = (k, v) ∷ []
  place k v ((j, w) ∷ m) = if leb k j then (k, v) ∷ (j, w) ∷ m else (j, w) ∷ place k v m

  unfoldable pub sort_by_key : List (ℕ × V) → List (ℕ × V)
  sort_by_key [] = []
  sort_by_key ((k, v) ∷ m) = place k v (sort_by_key m)

  lookup-place :
      (k j : ℕ) (v : V) (m : List (ℕ × V))
      → lookup j (place k v m) ≡ (if k == j then some v else lookup j m)
  unfolding place lookup
  lookup-place k j v [] = refl
  lookup-place k j v ((i, w) ∷ m) = ground (lookup-place k j v m, arith)

  pub lookup-sort_by_key : (k : ℕ) (m : List (ℕ × V)) → lookup k (sort_by_key m) ≡ lookup k m
  unfolding sort_by_key lookup
  lookup-sort_by_key k [] = refl
  lookup-sort_by_key k ((j, v) ∷ m) =
      ground (lookup-place j k v (sort_by_key m), lookup-sort_by_key k m, arith)

  length-place : (k : ℕ) (v : V) (m : List (ℕ × V)) → length (place k v m) ≡ length m + 1
  unfolding place
  length-place k v [] = refl
  length-place k v ((i, w) ∷ m) = ground (length-place k v m, arith)

  pub length-sort_by_key : (m : List (ℕ × V)) → length (sort_by_key m) ≡ length m
  unfolding sort_by_key
  length-sort_by_key [] = refl
  length-sort_by_key ((j, v) ∷ m) =
      ground (length-place j v (sort_by_key m), length-sort_by_key m, arith)

  -- Every key is above the bound, and the keys ascend strictly.
  abbrev pub Above : ℕ → List (ℕ × V) → Type 0
  Above b [] = Unit
  Above b ((k, v) ∷ m) = (b ≤ k) × Above (suc k) m

  -- Every entry satisfies the predicate.
  abbrev pub AllEntries : (ℕ → V → Type 0) → List (ℕ × V) → Type 0
  AllEntries P [] = Unit
  AllEntries P ((k, v) ∷ m) = P k v × AllEntries P m

  place-AllEntries :
      (P : ℕ → V → Type 0) (k : ℕ) (v : V) (m : List (ℕ × V))
      → P k v
      → AllEntries P m
      → AllEntries P (place k v m)
  unfolding place
  place-AllEntries P k v [] p a = (p, tt)
  place-AllEntries P k v ((j, w) ∷ m) p a = elim (Bool-cases (leb k j)) [
    | inl h ↦ rw h (p, a)
    | inr h ↦ rw h (a.0, place-AllEntries P k v m p a.1)
  ]

  pub sort_by_key-AllEntries :
      (P : ℕ → V → Type 0) (m : List (ℕ × V)) → AllEntries P m → AllEntries P (sort_by_key m)
  unfolding sort_by_key
  sort_by_key-AllEntries P [] a = tt
  sort_by_key-AllEntries P ((k, v) ∷ m) a =
      place-AllEntries P k v (sort_by_key m) a.0 (sort_by_key-AllEntries P m a.1)

  place-Above :
      (b k : ℕ) (v : V) (m : List (ℕ × V))
      → b ≤ k
      → lookup k m ≡ none
      → Above b m
      → Above b (place k v m)
  unfolding place lookup
  place-Above b k v [] h n a = (h, tt)
  place-Above b k v ((j, w) ∷ m) h n a = elim (Bool-cases (leb k j)) [
    | inl e ↦ rw e (h, (ground arith, a.1))
    | inr e ↦ rw e (a.0, place-Above (suc j) k v m (ground arith) (ground arith) a.1)
  ]

  pub sort_by_key-Above : (m : List (ℕ × V)) → Distinct m → Above 0 (sort_by_key m)
  unfolding sort_by_key
  sort_by_key-Above [] d = tt
  sort_by_key-Above ((k, v) ∷ m) d =
      place-Above 0 k v (sort_by_key m) (omega arith) (lookup-sort_by_key k m ∙ d.0)
        (sort_by_key-Above m d.1)

  pub Above-missing : (b : ℕ) (m : List (ℕ × V)) (k : ℕ) → Above b m → k < b → lookup k m ≡ none
  unfolding lookup
  Above-missing b [] k a h = refl
  Above-missing b ((j, w) ∷ m) k a h = ground (arith, a.0, Above-missing (suc j) m k a.1)

  pub Above-Distinct : (b : ℕ) (m : List (ℕ × V)) → Above b m → Distinct m
  Above-Distinct b [] a = tt
  Above-Distinct b ((j, w) ∷ m) a =
      (Above-missing (suc j) m j a.1 (omega arith), Above-Distinct (suc j) m a.1)

  lookup-head : (k : ℕ) (v : V) (m : List (ℕ × V)) → lookup k ((k, v) ∷ m) ≡ some v
  unfolding lookup
  lookup-head k v m = rw (eq_refl k) refl

  lookup-nil : (k : ℕ) → lookup {V = V} k [] ≡ none
  unfolding lookup
  lookup-nil k = refl

  -- A key that is found stands at or behind the head.
  head-le : (b j : ℕ) (m : List (ℕ × V)) {v : V} → Above b m → lookup j m ≡ some v → b ≤ j
  head-le b j m {v} a e = elim (Bool-cases (leb b j)) [
    | inl h ↦ ground arith
    | inr h ↦ let gone = Above-missing b m j a (ground arith) in absurd (cc)
  ]

  lookup-tail :
      (k j : ℕ) (v : V) (m : List (ℕ × V)) → (k == j) ≡ false → lookup j ((k, v) ∷ m) ≡ lookup j m
  unfolding lookup
  lookup-tail k j v m h = rw h refl

  -- Ascending lists with the same lookups are equal.
  pub Above-ext :
      (b : ℕ) (m n : List (ℕ × V))
      → Above b m
      → Above b n
      → ((k : ℕ) → lookup k m ≡ lookup k n)
      → m ≡ n
  Above-ext b [] [] a c e = refl
  Above-ext b [] ((k, v) ∷ n) a c e =
      let q = e k ∙ lookup-head k v n in let nil = lookup-nil k in absurd (cc)
  Above-ext b ((j, w) ∷ m) [] a c e =
      let q = sym (e j) ∙ lookup-head j w m in let nil = lookup-nil j in absurd (cc)
  Above-ext b ((j, w) ∷ m) ((k, v) ∷ n) a c e =
      let found_j : lookup j ((k, v) ∷ n) ≡ some w = sym (e j) ∙ lookup-head j w m in
      let found_k : lookup k ((j, w) ∷ m) ≡ some v = e k ∙ lookup-head k v n in
      let up : k ≤ j = head-le k j ((k, v) ∷ n) (omega arith, c.1) found_j in
      let down : j ≤ k = head-le j k ((j, w) ∷ m) (omega arith, a.1) found_k in
      let same : j ≡ k = omega (arith, up, down) in
      let q : some v ≡ some w =
        sym (lookup-head k v n) ∙ (ap (λ i. lookup i ((k, v) ∷ n)) (sym same) ∙ found_j) in
      let values : w ≡ v = (cc) in
      ap₂ ◌∷◌ (ap₂ (λ x y. (x, y)) same values) (
        Above-ext (suc j) m n a.1 (rw same c.1) (λ i. elim (Bool-cases (j == i)) [
          | inl h ↦
              Above-missing (suc j) m i a.1 (ground arith)
              ∙ sym (Above-missing (suc k) n i c.1 (ground arith))
          | inr h ↦ sym (lookup-tail j i w m h) ∙ (e i ∙ lookup-tail k i v n (rw (← same) h))
        ]))

-- The sorted list does not depend on the order of a map's entries.
pub sort_by_key-ext {ℓ} :
    {V : Type ℓ} (m n : List (ℕ × V))
    → Distinct m
    → Distinct n
    → ((k : ℕ) → lookup k m ≡ lookup k n)
    → sort_by_key m ≡ sort_by_key n
sort_by_key-ext m n d e h =
    Above-ext 0 (sort_by_key m) (sort_by_key n) (sort_by_key-Above m d) (sort_by_key-Above n e)
      (λ k. lookup-sort_by_key k m ∙ (h k ∙ sym (lookup-sort_by_key k n)))
