-- ===== src/Rlnc/Engine/Derived.antt =====
-- The pieces that can come of those that were sent: crates/craftec-rlnc/src/engine.rs.
use craftec.Prelude.{
  ℕ, ◌<◌, ◌≡◌, ap, sym, subst, ◌∙◌, List, [], ◌∷◌, Bool, true, false, if◌then◌else◌, Bool-cases,
  inl, inr,
}
use craftec.Crypto.HomMac.{verify_mac}
use craftec.Rlnc.Decoder.{Result, ok, err, semaphore_error}
use craftec.Rlnc.Encoder.{Encoder}
use craftec.Rlnc.Encoder.RoundTrip.{Carries, AllCarry, IsRng, IsWellFormed}
use craftec.Rlnc.Engine.{RlncEngine, recode, count_recoded}
use craftec.Rlnc.Recoder
use craftec.Rlnc.Recoder.Mac.{AllAuthentic, recode_lem}
use craftec.Types.Piece.{CodedPiece}
use mathlib.Core.List.{Memᴰ}
use mathlib.Core.List.Memᴰ.{head, tail}

-- A piece that was sent, or that some engine made of two or more derived pieces.
mutual
  pub data Derived (hash : List ℕ → ℕ) (sent : List CodedPiece) : CodedPiece → Type 0 where
    original : (p : CodedPiece) → Memᴰ p sent → Derived hash sent p
    mixed :
        (rng : ℕ → ℕ × ℕ)
        → IsRng rng
        → (g : RlncEngine) (first second : CodedPiece) (rest : List CodedPiece)
        → AllDerived hash sent (first ∷ second ∷ rest)
        → (p : CodedPiece) → (recode hash rng g (first ∷ second ∷ rest)).1 ≡ ok p
        → Derived hash sent p

  pub data AllDerived (hash : List ℕ → ℕ) (sent : List CodedPiece) : List CodedPiece → Type 0 where
    no_more : AllDerived hash sent []
    and_more :
        (p : CodedPiece) (ps : List CodedPiece)
        → Derived hash sent p
        → AllDerived hash sent ps
        → AllDerived hash sent (p ∷ ps)

count_recoded-ok :
    (g : RlncEngine) (r : Result CodedPiece) (p : CodedPiece)
    → (count_recoded g r).1 ≡ ok p
    → r ≡ ok p
count_recoded-ok g (ok q) p e = e
count_recoded-ok g (err q) p e = e

recode-closed :
    (hash : List ℕ → ℕ) (rng : ℕ → ℕ × ℕ) (g : RlncEngine) (ps : List CodedPiece) (c : Bool)
    → g.closed ≡ c
    → recode hash rng g ps
      ≡ (if c then (g, err semaphore_error) else count_recoded g (Recoder.recode hash rng ps))
unfolding recode
recode-closed hash rng g ps c h =
    ap (λ b. if b then (g, err semaphore_error) else count_recoded g (Recoder.recode hash rng ps)) h

-- The engine gives a piece only if the recoder does.
recode-ok :
    (hash : List ℕ → ℕ) (rng : ℕ → ℕ × ℕ) (g : RlncEngine) (ps : List CodedPiece) (p : CodedPiece)
    → (recode hash rng g ps).1 ≡ ok p
    → Recoder.recode hash rng ps ≡ ok p
recode-ok hash rng g ps p e = elim (Bool-cases g.closed) [
  | inl shut ↦
      let q : err semaphore_error ≡ ok p =
        sym (ap (λ x. x.1) (recode-closed hash rng g ps true shut)) ∙ e in
      absurd (cc)
  | inr is_open ↦
      count_recoded-ok g (Recoder.recode hash rng ps) p
        (sym (ap (λ x. x.1) (recode-closed hash rng g ps false is_open)) ∙ e)
]

ok-inj : (p q : CodedPiece) → ◌≡◌ {A = Result CodedPiece} (ok p) (ok q) → p ≡ q
ok-inj p q e = cc

module _ (hash : List ℕ → ℕ) (xof : ℕ → ℕ → ℕ → ℕ) (range : (key j i : ℕ) → xof key j i < 256)
    (e : Encoder) (w : IsWellFormed e) where
  abbrev pub IsGenuine : CodedPiece → Type 0
  IsGenuine p = Carries e p × (p.cid ≡ e.cid) × (verify_mac xof p ≡ true)

  member-IsGenuine :
      (p : CodedPiece) (ps : List CodedPiece)
      → Memᴰ p ps
      → AllCarry e ps
      → AllAuthentic xof e.cid ps
      → IsGenuine p
  member-IsGenuine p _ (head {x} same) c a = subst IsGenuine (sym same) (c.0, a.0.0, a.0.1)
  member-IsGenuine p _ (tail m) c a = member-IsGenuine p _ m c.1 a.1

  mutual
    -- Whatever is derived of genuine pieces is genuine.
    pub derived_lem :
        (sent : List CodedPiece) (p : CodedPiece)
        → AllCarry e sent
        → AllAuthentic xof e.cid sent
        → Derived hash sent p
        → IsGenuine p
    derived_lem sent _ c a (original p m) = member-IsGenuine p sent m c a
    derived_lem sent _ c a (mixed rng ok_rng g first second rest ds p made) =
        let (c', a') = all_derived_lem sent (first ∷ second ∷ rest) c a ds in
        let (q, returns, carries, cid, mac, id) =
          recode_lem hash xof range e w rng ok_rng first second rest c' a' in
        let same : q ≡ p =
          ok-inj q p (sym returns ∙ recode-ok hash rng g (first ∷ second ∷ rest) p made) in
        subst IsGenuine same (carries, cid, mac)

    all_derived_lem :
        (sent ps : List CodedPiece)
        → AllCarry e sent
        → AllAuthentic xof e.cid sent
        → AllDerived hash sent ps
        → AllCarry e ps × AllAuthentic xof e.cid ps
    all_derived_lem sent _ c a no_more = (tt, tt)
    all_derived_lem sent _ c a (and_more p ps d ds) =
        let (x, y, z) = derived_lem sent p c a d in
        let (xs, ys) = all_derived_lem sent ps c a ds in ((x, xs), ((y, z), ys))
