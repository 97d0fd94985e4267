-- ===== src/Vfs/CidVfs/Pages.antt =====
-- The bytes of each page, as the index and the store give them, and what storing dirty pages
-- does to them: crates/craftec-vfs/src/vfs.rs.
use craftec.Prelude.{
  ℕ, ◌^◌, ◌<◌, ◌≡◌, refl, ◌∙◌, arith, List, [], ◌∷◌, Option, none, some, inl, inr, ◌==◌, Bool-cases,
  Option-cases,
}
use craftec.Prelude.Assoc.{lookup, insert}
use craftec.Prelude.Lru.{Lru, IsLru}
use craftec.Obj.Store.{Io}
use craftec.Obj.Interface.{ContentStore, IsContentStore}
use craftec.Vfs.CidVfs.{Vfs}

-- What the file system stands on: a hash, of which no two data in use collide and which fits 32
-- bytes, a store and a cache.
pub record Setting : Type 1 where
  pub hash : List ℕ → ℕ
  pub Seen : List ℕ → Type 0
  pub store : ContentStore
  pub laws : IsContentStore hash Seen store
  pub lru : Lru (ℕ × ℕ) (List ℕ)
  pub lru_laws : IsLru lru
  pub collision_free : (a b : List ℕ) → Seen a → Seen b → hash a ≡ hash b → a ≡ b
  pub short : (a : List ℕ) → Seen a → hash a < 256 ^ 32

-- The first of two values that is there.
unfoldable pub over {ℓ} : {A : Type ℓ} → Option A → Option A → Option A
over none o = o
over (some a) o = some a

-- The dirty pages over the old ones.
abbrev pub overlay : List (ℕ × List ℕ) → (ℕ → Option (List ℕ)) → ℕ → Option (List ℕ)
overlay dirty old page_num = over (lookup page_num dirty) (old page_num)

-- Page numbers are u32 numbers, and the data is in use.
abbrev pub AllSeen : (List ℕ → Type 0) → List (ℕ × List ℕ) → Type 0
AllSeen Seen [] = Unit
AllSeen Seen ((page_num, bytes) ∷ dirty) = (page_num < 256 ^ 4) × Seen bytes × AllSeen Seen dirty

-- The index after the dirty pages.
unfoldable pub put_entries : (List ℕ → ℕ) → List (ℕ × List ℕ) → List (ℕ × ℕ) → List (ℕ × ℕ)
put_entries hash [] entries = entries
put_entries hash ((page_num, bytes) ∷ dirty) entries =
    put_entries hash dirty (insert page_num (hash bytes) entries)

module _ (σ : Setting) where
  abbrev pub PageFs : Type 0
  PageFs = Vfs σ.hash σ.store σ.lru

  abbrev pub content : σ.store.State → Option ℕ → Option (List ℕ)
  content s none = none
  content s (some cid) = σ.laws.contents s cid

  -- The page's bytes by the index.
  abbrev pub page : PageFs → ℕ → Option (List ℕ)
  page v page_num = content v.store (lookup page_num v.page_index.entries)

  -- The store has every page of the index.
  pub record IsBacked (s : σ.store.State) (entries : List (ℕ × ℕ)) : Type 0 where
    pub stored : σ.laws.IsValid s
    pub held :
        (page_num cid : ℕ)
        → lookup page_num entries ≡ some cid
        → (bytes : List ℕ) × (σ.laws.contents s cid ≡ some bytes)

  -- What the store has is still there after data in use was put.
  pub put-keeps :
      (io : Io) (new bytes : List ℕ) (s : σ.store.State) (cid : ℕ)
      → σ.laws.IsValid s
      → σ.Seen new
      → σ.laws.contents s cid ≡ some bytes
      → σ.laws.contents (σ.store.put io new s).0 cid ≡ some bytes
  put-keeps io new bytes s cid v seen here = elim (σ.laws.put_lem io new s seen v) [
    | inl (r, after) ↦ after cid ∙ elim (Bool-cases (σ.hash new == cid)) [
      | inl e ↦
          let known = σ.laws.intact s cid bytes v here in
          let same : new ≡ bytes =
            σ.collision_free new bytes seen known.0 (let q = known.1 in ground arith) in
          rw (e, same) refl
      | inr e ↦ rw e here
    ]
    | inr (x, r, after) ↦ after cid ∙ here
  ]

  pub put-IsBacked :
      (io : Io) (new : List ℕ) (s : σ.store.State) (entries : List (ℕ × ℕ))
      → σ.Seen new
      → IsBacked s entries
      → IsBacked (σ.store.put io new s).0 entries
  put-IsBacked io new s entries seen b = record {
    stored = σ.laws.put-IsValid io new s seen b.stored;
    held = λ p c e.
        let (bytes, here) = b.held p c e in (bytes, put-keeps io new bytes s c b.stored seen here);
  }

  pub put-content :
      (io : Io) (new : List ℕ) (s : σ.store.State) (entries : List (ℕ × ℕ))
      → σ.Seen new
      → IsBacked s entries
      → (page_num : ℕ)
      → content (σ.store.put io new s).0 (lookup page_num entries)
        ≡ content s (lookup page_num entries)
  put-content io new s entries seen b p = elim (Option-cases (lookup p entries)) [
    | inl e ↦ rw e refl
    | inr (c, e) ↦
        let (bytes, here) = b.held p c e in
        rw (e, here) (put-keeps io new bytes s c b.stored seen here)
  ]
