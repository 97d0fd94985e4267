-- ===== src/Vfs/CidVfs/Coherent.antt =====
-- A file system whose index, store, root and cache agree: crates/craftec-vfs/src/vfs.rs.
use craftec.Prelude.{
  ℕ, ◌≡◌, refl, ap, ap₂, sym, ◌∙◌, arith, List, [], Option, none, some, inl, inr, ◌⊎◌, Option-cases,
}
use craftec.Prelude.Assoc.{lookup, Distinct}
use craftec.Vfs.PageIndex.{PageIndex, serialize}
use craftec.Vfs.PageIndex.Serialize.{IsStorable, same_form-lookup}
use craftec.Vfs.PageCache.{PageCache}
use craftec.Vfs.CidVfs.Pages.{Setting, AllSeen, PageFs, page, IsBacked}

same_key : (a b c d : ℕ) → ((a ≡ c) × (b ≡ d)) ⊎ ((a ≡ c) × (b ≡ d) → ⊥)
same_key a b c d = ground arith

module _ (σ : Setting) where
  -- The bytes were cached for a page of an index whose serialised form has the root as its hash.
  pub record IsCached (root page_num : ℕ) (bytes : List ℕ) : Type 0 where
    pub index : PageIndex
    pub storable : IsStorable index.entries
    pub form_seen : σ.Seen (serialize index)
    pub form : σ.hash (serialize index) ≡ root
    pub entry : lookup page_num index.entries ≡ some (σ.hash bytes)
    pub seen : σ.Seen bytes

  abbrev pub IsRooted : Option ℕ → PageFs σ → Type 0
  IsRooted none v =
      (v.page_index.entries ≡ []) × ((k : ℕ × ℕ) → σ.lru.peek k v.page_cache.cache ≡ none)
  IsRooted (some root) v =
      (σ.hash (serialize v.page_index) ≡ root) × σ.Seen (serialize v.page_index)

  pub record IsCoherent (v : PageFs σ) : Type 0 where
    pub backed : IsBacked σ v.store v.page_index.entries
    pub storable : IsStorable v.page_index.entries
    pub rooted : IsRooted v.current_root v
    pub cached :
        (root page_num : ℕ) (bytes : List ℕ)
        → σ.lru.peek (root, page_num) v.page_cache.cache ≡ some bytes
        → IsCached root page_num bytes
    pub drafts : Distinct v.dirty_pages
    pub usable : AllSeen σ.Seen v.dirty_pages

  -- What is cached under the present root is what the index and the store give.
  pub cached-page :
      (v : PageFs σ) (root page_num : ℕ) (bytes : List ℕ)
      → IsCoherent v
      → v.current_root ≡ some root
      → σ.lru.peek (root, page_num) v.page_cache.cache ≡ some bytes
      → page σ v page_num ≡ some bytes
  cached-page v root p bytes h r e =
      let c = h.cached root p bytes e in
      let rooted = h.rooted in
      let now = rw r at rooted in
      let same_form : serialize c.index ≡ serialize v.page_index =
        σ.collision_free (serialize c.index) (serialize v.page_index) c.form_seen (now.1)
          (c.form ∙ sym (now.0)) in
      let entry : lookup p v.page_index.entries ≡ some (σ.hash bytes) =
        sym (same_form-lookup c.index v.page_index c.storable h.storable same_form p) ∙ c.entry in
      let (b, here) = h.backed.held p (σ.hash bytes) entry in
      let known = σ.laws.intact v.store (σ.hash bytes) b h.backed.stored here in
      let same : b ≡ bytes = σ.collision_free b bytes known.0 c.seen known.1 in
      rw (entry, here, same) refl

  -- A cache with fewer entries.
  pub recache-IsCoherent :
      (v : PageFs σ) (c : PageCache σ.lru.Cache)
      → ((k : ℕ × ℕ) (bytes : List ℕ)
          → σ.lru.peek k c.cache ≡ some bytes
          → σ.lru.peek k v.page_cache.cache ≡ some bytes)
      → IsCoherent v
      → IsCoherent (record v { page_cache = c })
  recache-IsCoherent v c fewer h = record {
    backed = h.backed;
    storable = h.storable;
    rooted = rooted v.current_root h.rooted;
    cached = λ root p bytes e. h.cached root p bytes (fewer (root, p) bytes e);
    drafts = h.drafts;
    usable = h.usable;
  }
    where
      rooted : (o : Option ℕ) → IsRooted o v → IsRooted o (record v { page_cache = c })
      rooted none (empty, cold) = (
        empty,
        λ k. elim (Option-cases (σ.lru.peek k c.cache)) [
          | inl e ↦ e
          | inr (bytes, e) ↦ let q = fewer k bytes e in let q' = cold k in absurd (cc)
        ],
      )
      rooted (some root) q = q

  -- The same contents in another state of the store.
  pub restore-IsCoherent :
      (v : PageFs σ) (s : σ.store.State)
      → σ.laws.IsValid s
      → ((j : ℕ) → σ.laws.contents s j ≡ σ.laws.contents v.store j)
      → IsCoherent v
      → IsCoherent (record v { store = s })
  restore-IsCoherent v s valid same h = record {
    backed = record {
      stored = valid;
      held = λ p c e. let (bytes, here) = h.backed.held p c e in (bytes, same c ∙ here);
    };
    storable = h.storable;
    rooted = rooted v.current_root h.rooted;
    cached = h.cached;
    drafts = h.drafts;
    usable = h.usable;
  }
    where
      rooted : (o : Option ℕ) → IsRooted o v → IsRooted o (record v { store = s })
      rooted none q = q
      rooted (some root) q = q

  -- A page of the present index is cached under the present root.
  pub cache_page-IsCoherent :
      (v : PageFs σ) (c : PageCache σ.lru.Cache) (root page_num : ℕ) (bytes : List ℕ)
      → v.current_root ≡ some root
      → lookup page_num v.page_index.entries ≡ some (σ.hash bytes)
      → σ.Seen bytes
      → c.cache ≡ σ.lru.put (root, page_num) bytes v.page_cache.cache
      → IsCoherent v
      → IsCoherent (record v { page_cache = c })
  cache_page-IsCoherent v c root p bytes r entry seen e h = record {
    backed = h.backed;
    storable = h.storable;
    rooted = let q = now in rw r q;
    cached = λ root' q b here.
        let here' : σ.lru.peek (root', q) (σ.lru.put (root, p) bytes v.page_cache.cache) ≡ some b =
          rw e at here in
        elim (same_key root p root' q) [
          | inl (same_root, same_page) ↦
              let key : (root, p) ≡ (root', q) = ap₂ (λ x y. (x, y)) same_root same_page in
              let value : b ≡ bytes =
                σ.lru_laws.peek-put_self (root, p) bytes b v.page_cache.cache
                  (ap (λ k. σ.lru.peek k (σ.lru.put (root, p) bytes v.page_cache.cache)) key
                    ∙ here') in
              record {
                index = v.page_index;
                storable = h.storable;
                form_seen = now.1;
                form = now.0 ∙ same_root;
                entry = rw (← same_page, value) entry;
                seen = rw value seen;
              }
          | inr other ↦ h.cached root' q b (
              σ.lru_laws.peek-put_other (root', q) (root, p) bytes b v.page_cache.cache
                (λ k. other (ap (λ x. x.0) k, ap (λ x. x.1) k)) here')
        ];
    drafts = h.drafts;
    usable = h.usable;
  }
    where
      now : (σ.hash (serialize v.page_index) ≡ root) × σ.Seen (serialize v.page_index)
      now = let rooted = h.rooted in rw r at rooted
