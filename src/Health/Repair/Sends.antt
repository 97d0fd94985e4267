-- ===== src/Health/Repair/Sends.antt =====
-- What a repair sends, to whom, and when: crates/craftec-health/src/repair.rs.
use craftec.Prelude.{
  ℕ, ◌≡◌, ◌≢◌, refl, arith, List, [], ◌∷◌, Option, none, some, Bool, true, not, ◌&&◌, inl, inr, ◌⊎◌,
  ◌==◌, Bool-cases, map,
}
use craftec.Prelude.Result.{Result, ok, err}
use craftec.Prelude.Multimap.{retain}
use craftec.Health.Tracker.{PieceTracker, holders_with_count}
use craftec.Health.Repair.{
  HealthError, repair_failed, no_candidate_peers, Parts, contains, select_distribution_target,
}

contains-retain :
    (p : ℕ → Bool) (xs : List ℕ) (x : ℕ)
    → contains x (retain p xs) ≡ true
    → (contains x xs ≡ true) × (p x ≡ true)
unfolding contains retain
contains-retain p [] x h = absurd (cc)
contains-retain p (y ∷ xs) x h = elim (Bool-cases (p y)) [
  | inl e ↦ elim (Bool-cases (y == x)) [
    | inl f ↦ let same : y ≡ x = ground arith in (rw f refl, rw (← same) e)
    | inr f ↦
        let (there, good) = contains-retain p xs x (rw (e, f) at h) in (rw (f, there) refl, good)
  ]
  | inr e ↦
      let (there, good) = contains-retain p xs x (rw e at h) in
      (elim (Bool-cases (y == x)) [ inl f ↦ rw f refl | inr f ↦ rw (f, there) refl ], good)
]

contains-map-retain :
    (p : ℕ × ℕ → Bool) (hs : List (ℕ × ℕ)) (x : ℕ)
    → contains x (map (λ (h : ℕ × ℕ). h.0) (retain p hs)) ≡ true
    → (h : ℕ × ℕ) × (h.0 ≡ x) × (p h ≡ true)
unfolding contains retain
contains-map-retain p [] x e = absurd (cc)
contains-map-retain p (h ∷ hs) x e = elim (Bool-cases (p h)) [
  | inl g ↦ elim (Bool-cases (h.0 == x)) [
    | inl f ↦ (h, ground arith, g)
    | inr f ↦ contains-map-retain p hs x (rw (g, f) at e)
  ]
  | inr g ↦ contains-map-retain p hs x (rw g at e)
]

-- `choose` gives an element, or there is none.
abbrev pub IsChoose : (List ℕ → Option ℕ) → Type 0
IsChoose choose =
    (xs : List ℕ)
    → ((choose xs ≡ none) × (xs ≡ [])) ⊎ ((x : ℕ) × (choose xs ≡ some x) × (contains x xs ≡ true))

module _ (parts : Parts) (fair : IsChoose parts.choose) where
  -- A peer that is alive and another one, or there is none.
  abbrev pub TargetResult : ℕ → List ℕ → ℕ → Result ℕ HealthError → Type 0
  TargetResult cid alive self r =
      ((target : ℕ) × (r ≡ ok target) × (contains target alive ≡ true) × (target ≢ self))
      ⊎ ((r ≡ err (repair_failed cid no_candidate_peers))
          × (retain (λ id. not (id == self)) alive ≡ []))

  pub select_distribution_target_lem :
      (t : PieceTracker) (cid : ℕ) (alive : List ℕ) (self : ℕ)
      → TargetResult cid alive self (select_distribution_target parts t cid alive self)
  unfolding select_distribution_target
  select_distribution_target_lem t cid alive self =
      let counts = holders_with_count t cid in
      let wanted = λ (h : ℕ × ℕ). h.1 == 1 && (contains (h.0) alive && not (h.0 == self)) in
      let one_piece = map (λ (h : ℕ × ℕ). h.0) (retain wanted counts) in
      let fresh =
        λ (id : ℕ). not (contains id (map (λ (h : ℕ × ℕ). h.0) counts)) && not (id == self) in
      elim (fair one_piece) [
        | inr (x, e, here) ↦
            let (h, same, good) = contains-map-retain wanted counts x here in
            rw (e, select_distribution_target)
              (inl (x, refl, rw (← same) (ground arith), ground (arith, same)))
        | inl (e, gone) ↦ elim (fair (retain fresh alive)) [
          | inr (x, f, here) ↦
              let (there, good) = contains-retain fresh alive x here in
              rw (e, f, select_distribution_target) (inl (x, refl, there, ground arith))
          | inl (f, gone') ↦ elim (fair (retain (λ id. not (id == self)) alive)) [
            | inr (x, g, here) ↦
                let (there, good) = contains-retain (λ id. not (id == self)) alive x here in
                rw (e, f, g, select_distribution_target) (inl (x, refl, there, ground arith))
            | inl (g, nobody) ↦ rw (e, f, g, select_distribution_target) (inr (refl, nobody))
          ]
        ]
      ]
