-- ===== src/Vfs/CidVfs/Reads.antt =====
-- Reading pages: crates/craftec-vfs/src/vfs.rs.
use craftec.Prelude.{
  ℕ, ◌≡◌, refl, ap, sym, ◌∙◌, arith, List, Option, none, some, true, inl, inr, ◌⊎◌, ◌==◌,
  Option-cases,
}
use craftec.Prelude.Result.{Result, ok, err}
use craftec.Prelude.Assoc.{lookup}
use craftec.Obj.Store.{Io, ObjError}
use craftec.Vfs.PageIndex.{VfsError, store_error, from_store, page_not_found}
use craftec.Vfs.PageCache.{PageCache, increment}
use craftec.Vfs.PageCache as Cache
use craftec.Vfs.CidVfs.{read_page, fetch_page, check_fetched, cache_root}
use craftec.Vfs.CidVfs.Pages.{Setting, PageFs, page}
use craftec.Vfs.CidVfs.Coherent.{
  IsCoherent, cached-page, recache-IsCoherent, restore-IsCoherent, cache_page-IsCoherent,
}

-- The bytes, or that there are none.
abbrev pub page_or_error : ℕ → Option (List ℕ) → Result (List ℕ) VfsError
page_or_error page_num none = err (page_not_found page_num)
page_or_error page_num (some bytes) = ok bytes

module _ (σ : Setting) where
  -- The pages are the same, and the read answers the page, or an error of the store.
  abbrev pub ReadResult : ℕ → PageFs σ → PageFs σ × Result (List ℕ) VfsError → Type 0
  ReadResult page_num v r =
      IsCoherent σ r.0
      × ((q : ℕ) → page σ r.0 q ≡ page σ v q)
      × ((r.1 ≡ page_or_error page_num (page σ v page_num))
          ⊎ ((e : ObjError) × (r.1 ≡ err (store_error (from_store e)))))

  fetch_page_lem :
      (io : Io) (root page_num : ℕ) (v : PageFs σ)
      → v.current_root ≡ some root
      → IsCoherent σ v
      → ReadResult page_num v (fetch_page σ.hash σ.store σ.lru io root page_num v)
  unfolding fetch_page check_fetched
  fetch_page_lem io root p v r h = elim (Option-cases (lookup p v.page_index.entries)) [
    | inl e ↦ rw (e, fetch_page) (h, λ q. refl, inl refl)
    | inr (c, e) ↦
        let s = (σ.store.get io c v.store).0 in
        let valid = σ.laws.get-IsValid io c v.store h.backed.stored in
        let same = σ.laws.get-contents io c v.store h.backed.stored in
        let v' : PageFs σ = record v { store = s } in
        let h' = restore-IsCoherent σ v s valid same h in
        let pages : (q : ℕ) → page σ v' q ≡ page σ v q = λ q.
          elim (Option-cases (lookup q v.page_index.entries)) [
            | inl n ↦ rw n refl
            | inr (x, n) ↦ rw n (same x)
          ] in
        elim (σ.laws.get_lem io c v.store h.backed.stored) [
          | inr (x, f) ↦ rw (e, fetch_page, f) (h', pages, inr (x, refl))
          | inl f ↦
              let (bytes, here) = h.backed.held p c e in
              let known = σ.laws.intact v.store c bytes h.backed.stored here in
              let good : (σ.hash bytes == c) ≡ true = (let q = known.1 in ground arith) in
              let entry : lookup p v.page_index.entries ≡ some (σ.hash bytes) =
                e ∙ ap some (sym (known.1)) in
              rw (e, fetch_page, f, here, check_fetched, good)
                (
                  cache_page-IsCoherent σ v' _ root p bytes r entry known.0
                      (unfold Cache.put in refl) h',
                  pages,
                  inl refl,
                )
        ]
  ]

  -- Where there is no root, there is no page.
  fetch_nothing :
      (io : Io) (root page_num : ℕ) (v : PageFs σ)
      → v.current_root ≡ none
      → IsCoherent σ v
      → ReadResult page_num v (fetch_page σ.hash σ.store σ.lru io root page_num v)
  unfolding fetch_page
  fetch_nothing io root p v r h =
      let rooted = h.rooted in
      let empty = (rw r at rooted) in
      let gone : lookup p v.page_index.entries ≡ none = rw (empty.0) (unfold lookup in refl) in
      rw (gone, fetch_page) (h, λ q. refl, inl refl)

  miss :
      (io : Io) (page_num : ℕ) (v : PageFs σ)
      → IsCoherent σ v
      → ReadResult page_num v
          (fetch_page σ.hash σ.store σ.lru io (cache_root v.current_root) page_num v)
  miss io p v h = elim (Option-cases v.current_root) [
    | inl r ↦ fetch_nothing io (cache_root v.current_root) p v r h
    | inr (root, r) ↦ rw (ap cache_root r) (fetch_page_lem io root p v r h)
  ]

  -- A hit needs a root.
  hit :
      (page_num : ℕ) (v : PageFs σ) (bytes : List ℕ)
      → IsCoherent σ v
      → σ.lru.peek (cache_root v.current_root, page_num) v.page_cache.cache ≡ some bytes
      → page σ v page_num ≡ some bytes
  hit p v bytes h e = elim (Option-cases v.current_root) [
    | inl r ↦
        let rooted = h.rooted in
        let empty = (rw r at rooted) in
        let cold = empty.1 (cache_root v.current_root, p) in absurd (cc)
    | inr (root, r) ↦ cached-page σ v root p bytes h r (rw r at e)
  ]

  get-none :
      (root page_num : ℕ) (c : PageCache σ.lru.Cache)
      → (σ.lru.get (root, page_num) c.cache).1 ≡ none
      → Cache.get σ.lru root page_num c ≡ (
        record c { cache = (σ.lru.get (root, page_num) c.cache).0; misses = increment c.misses },
        none,
      )
  unfolding Cache.get
  get-none root p c e = rw (e, Cache.get) refl

  get-some :
      (root page_num : ℕ) (c : PageCache σ.lru.Cache) (bytes : List ℕ)
      → (σ.lru.get (root, page_num) c.cache).1 ≡ some bytes
      → Cache.get σ.lru root page_num c ≡ (
        record c { cache = (σ.lru.get (root, page_num) c.cache).0; hits = increment c.hits },
        some bytes,
      )
  unfolding Cache.get
  get-some root p c bytes e = rw (e, Cache.get) refl

  -- The rest of `read_page`, on what the cache gave.
  after_cache :
      Io
      → ℕ
      → PageFs σ
      → PageCache σ.lru.Cache × Option (List ℕ)
      → PageFs σ × Result (List ℕ) VfsError
  after_cache io p v r = elim (r.1) [
    | some bytes ↦ (record v { page_cache = r.0 }, ok bytes)
    | none ↦
        fetch_page σ.hash σ.store σ.lru io (cache_root v.current_root) p
          (record v { page_cache = r.0 })
  ]

  read_page-after_cache :
      (io : Io) (p : ℕ) (v : PageFs σ) {r : PageCache σ.lru.Cache × Option (List ℕ)}
      → Cache.get σ.lru (cache_root v.current_root) p v.page_cache ≡ r
      → read_page σ.hash σ.store σ.lru io p v ≡ after_cache io p v r
  unfolding read_page after_cache
  read_page-after_cache io p v e = ap (after_cache io p v) e

  -- In a coherent file system, a read keeps it coherent and all pages as they are, and answers the
  -- page's bytes as the index and the store give them, whether they were cached or not, or that
  -- there is no such page, or an error of the store.
  pub read_page_lem :
      (io : Io) (page_num : ℕ) (v : PageFs σ)
      → IsCoherent σ v
      → ReadResult page_num v (read_page σ.hash σ.store σ.lru io page_num v)
  unfolding after_cache
  read_page_lem io p v h =
      let root = cache_root v.current_root in
      let c = (σ.lru.get (root, p) v.page_cache.cache).0 in
      let found : PageFs σ = record v {
        page_cache = record v.page_cache { cache = c; hits = increment v.page_cache.hits };
      } in
      let missed : PageFs σ = record v {
        page_cache = record v.page_cache { cache = c; misses = increment v.page_cache.misses };
      } in
      let fewer : (k : ℕ × ℕ) (b : List ℕ)
          → σ.lru.peek k c ≡ some b
          → σ.lru.peek k v.page_cache.cache ≡ some b =
        λ k b e. sym (σ.lru_laws.peek-get k (root, p) v.page_cache.cache) ∙ e in
      elim (Option-cases ((σ.lru.get (root, p) v.page_cache.cache).1)) [
        | inl e ↦
            rw (read_page-after_cache io p v (get-none root p v.page_cache e))
              (miss io p missed (recache-IsCoherent σ v missed.page_cache fewer h))
        | inr (bytes, e) ↦
            let here =
              hit p v bytes h (sym (σ.lru_laws.get_lem (root, p) v.page_cache.cache) ∙ e) in
            rw (read_page-after_cache io p v (get-some root p v.page_cache bytes e)) (
              recache-IsCoherent σ v found.page_cache fewer h,
              λ q. refl,
              inl (sym (ap (page_or_error p) here)),
            )
      ]
