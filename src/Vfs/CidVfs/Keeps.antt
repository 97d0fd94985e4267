-- ===== src/Vfs/CidVfs/Keeps.antt =====
-- What the store has stays there, whatever is called: crates/craftec-vfs/src/vfs.rs.
use craftec.Prelude.{
  ℕ, ◌+◌, ◌^◌, ◌<◌, ◌≡◌, refl, ◌∙◌, List, [], ◌∷◌, Option, none, some, inl, inr, ◌⊎◌, ◌==◌,
  Bool-cases, Option-cases, length,
}
use craftec.Prelude.Result.{Result, ok, err}
use craftec.Prelude.Assoc.{lookup}
use craftec.Obj.Store.{Io, ObjError}
use craftec.Vfs.PageCache as Cache
use craftec.Vfs.PageIndex.{VfsError, set, serialize_entries, serialize}
use craftec.Vfs.CidVfs.{
  cache_root, read_page, fetch_page, check_fetched, write_page, commit, put_pages, put_index,
}
use craftec.Vfs.CidVfs.Pages.{Setting, AllSeen, put_entries, PageFs, put-keeps}
use craftec.Vfs.CidVfs.Commits.{commit-empty, commit-pages, after_puts}
use craftec.Vfs.CidVfs.Writes.{insert-AllSeen}

module _ (σ : Setting) where
  -- The store is sound and has the bytes.
  abbrev pub Keeps : ℕ → List ℕ → σ.store.State → Type 0
  Keeps cid bytes s = σ.laws.IsValid s × (σ.laws.contents s cid ≡ some bytes)

  put-Keeps :
      (io : Io) (new : List ℕ) (cid : ℕ) (bytes : List ℕ) (s : σ.store.State)
      → σ.Seen new
      → Keeps cid bytes s
      → Keeps cid bytes (σ.store.put io new s).0
  put-Keeps io new cid bytes s seen k =
      (σ.laws.put-IsValid io new s seen (k.0), put-keeps σ io new bytes s cid (k.0) seen (k.1))

  put_pages-Keeps :
      (io : ℕ → Io) (i : ℕ) (dirty : List (ℕ × List ℕ)) (cid : ℕ) (bytes : List ℕ) (v : PageFs σ)
      → AllSeen σ.Seen dirty
      → Keeps cid bytes v.store
      → Keeps cid bytes (put_pages σ.hash σ.store σ.lru io i dirty v).0.store
  unfolding put_pages
  put_pages-Keeps io i [] cid bytes v u k = k
  put_pages-Keeps io i ((p, new) ∷ dirty) cid bytes v u k =
      let k' = put-Keeps (io i) new cid bytes v.store (u.1) k in
      elim (σ.laws.put_lem (io i) new v.store (u.1) (k.0)) [
        | inl (r, after) ↦ rw (r, put_pages) (put_pages-Keeps io (i + 1) dirty cid bytes _ (u.2) k')
        | inr (e, r, after) ↦ rw (r, put_pages) k'
      ]

  put_index-Keeps :
      (io : Io) (cid : ℕ) (bytes : List ℕ) (v : PageFs σ)
      → σ.Seen (serialize v.page_index)
      → Keeps cid bytes v.store
      → Keeps cid bytes (put_index σ.hash σ.store σ.lru io v).0.store
  unfolding put_index
  put_index-Keeps io cid bytes v seen k =
      let k' = put-Keeps io (serialize v.page_index) cid bytes v.store seen k in
      elim (σ.laws.put_lem io (serialize v.page_index) v.store seen (k.0)) [
        | inl (r, after) ↦ rw (r, put_index) k'
        | inr (e, r, after) ↦ rw (r, put_index) k'
      ]

  -- Storing the pages leaves none dirty that was not, and enters each in the index, unless a put
  -- fails. The index may name pages that the store does not have.
  put_pages-entries :
      (io : ℕ → Io) (i : ℕ) (dirty : List (ℕ × List ℕ)) (v : PageFs σ)
      → AllSeen σ.Seen dirty
      → σ.laws.IsValid v.store
      → ((put_pages σ.hash σ.store σ.lru io i dirty v).0.dirty_pages ≡ v.dirty_pages)
        × ((((put_pages σ.hash σ.store σ.lru io i dirty v).1 ≡ ok tt)
              × ((put_pages σ.hash σ.store σ.lru io i dirty v).0.page_index.entries
                  ≡ put_entries σ.hash dirty v.page_index.entries))
            ⊎ ((e : VfsError) × ((put_pages σ.hash σ.store σ.lru io i dirty v).1 ≡ err e)))
  unfolding put_pages put_entries set
  put_pages-entries io i [] v u k = (refl, inl (refl, refl))
  put_pages-entries io i ((p, new) ∷ dirty) v u k =
      let k' = σ.laws.put-IsValid (io i) new v.store (u.1) k in
      elim (σ.laws.put_lem (io i) new v.store (u.1) k) [
        | inl (r, after) ↦ rw (r, put_pages) (put_pages-entries io (i + 1) dirty _ (u.2) k')
        | inr (e, r, after) ↦ rw (r, put_pages) (refl, inr (_, refl))
      ]

  put_index-dirty_pages :
      (io : Io) (v : PageFs σ)
      → σ.Seen (serialize v.page_index)
      → σ.laws.IsValid v.store
      → (put_index σ.hash σ.store σ.lru io v).0.dirty_pages ≡ v.dirty_pages
  unfolding put_index
  put_index-dirty_pages io v seen k =
      elim (σ.laws.put_lem io (serialize v.page_index) v.store seen k) [
        | inl (r, after) ↦ rw (r, put_index) refl
        | inr (e, r, after) ↦ rw (r, put_index) refl
      ]

  -- The store has the bytes, and the dirty pages are data in use.
  abbrev pub Holds : ℕ → List ℕ → PageFs σ → Type 0
  Holds cid bytes v = Keeps cid bytes v.store × AllSeen σ.Seen v.dirty_pages

  pub commit-Holds :
      (io : ℕ → Io) (cid : ℕ) (bytes : List ℕ) (v : PageFs σ)
      → σ.Seen (serialize_entries (put_entries σ.hash v.dirty_pages v.page_index.entries))
      → Holds cid bytes v
      → Holds cid bytes (commit σ.hash σ.store σ.lru io v).0
  unfolding after_puts
  commit-Holds io cid bytes v seen (k, u) = by_pages v.dirty_pages refl
    where
      by_pages :
          (dirty : List (ℕ × List ℕ))
          → v.dirty_pages ≡ dirty
          → Holds cid bytes (commit σ.hash σ.store σ.lru io v).0
      by_pages [] e = rw (commit-empty σ io v e) (k, tt)
      by_pages (first ∷ rest) e =
          let drained : PageFs σ = record v { dirty_pages = [] } in
          let dirty = first ∷ rest in
          let u' = rw e at u in
          let k' = put_pages-Keeps io 0 dirty cid bytes drained u' k in
          let (clean, done) = put_pages-entries io 0 dirty drained u' k.0 in
          rw (commit-pages σ io v e) (elim done [
            | inl (ok_answer, index) ↦
                let puts = put_pages σ.hash σ.store σ.lru io 0 dirty drained in
                let seen' : σ.Seen (serialize puts.0.page_index) = rw (index, ← e) seen in
                let last : (put_index σ.hash σ.store σ.lru (io (length dirty)) puts.0).0.dirty_pages
                    ≡ [] =
                  put_index-dirty_pages (io (length dirty)) puts.0 seen' k'.0 ∙ clean in
                rw (ok_answer, after_puts)
                  (put_index-Keeps (io (length dirty)) cid bytes _ seen' k', rw last tt)
            | inr (x, failed) ↦ rw (failed, after_puts) (k', rw clean tt)
          ])

  get-Holds :
      (io : Io) (j cid : ℕ) (bytes : List ℕ) (v : PageFs σ)
      → Holds cid bytes v
      → Holds cid bytes (record v { store = (σ.store.get io j v.store).0 })
  get-Holds io j cid bytes v (k, u) =
      ((σ.laws.get-IsValid io j v.store k.0, σ.laws.get-contents io j v.store k.0 cid ∙ k.1), u)

  check_fetched-Holds :
      (root p j cid : ℕ) (bytes : List ℕ) (answer : Result (Option (List ℕ)) ObjError)
      (v : PageFs σ)
      → Holds cid bytes v
      → Holds cid bytes (check_fetched σ.hash σ.store σ.lru root p j answer v).0
  unfolding check_fetched
  check_fetched-Holds root p j cid bytes (err e) v h = h
  check_fetched-Holds root p j cid bytes (ok none) v h = h
  check_fetched-Holds root p j cid bytes (ok (some found)) v h =
      elim (Bool-cases (σ.hash found == j)) [ inl e ↦ rw e h | inr e ↦ rw e h ]

  fetch_page-Holds :
      (io : Io) (root p cid : ℕ) (bytes : List ℕ) (v : PageFs σ)
      → Holds cid bytes v
      → Holds cid bytes (fetch_page σ.hash σ.store σ.lru io root p v).0
  unfolding fetch_page
  fetch_page-Holds io root p cid bytes v h = elim (Option-cases (lookup p v.page_index.entries)) [
    | inl e ↦ rw (e, fetch_page) h
    | inr (j, e) ↦
        rw (e, fetch_page)
          (check_fetched-Holds root p j cid bytes (σ.store.get io j v.store).1 _
            (get-Holds io j cid bytes v h))
  ]

  pub read_page-Holds :
      (io : Io) (p cid : ℕ) (bytes : List ℕ) (v : PageFs σ)
      → Holds cid bytes v
      → Holds cid bytes (read_page σ.hash σ.store σ.lru io p v).0
  unfolding read_page
  read_page-Holds io p cid bytes v h =
      let root = cache_root v.current_root in
      elim (Option-cases (Cache.get σ.lru root p v.page_cache).1) [
        | inl e ↦ rw (e, read_page) (fetch_page-Holds io root p cid bytes _ h)
        | inr (found, e) ↦ rw (e, read_page) h
      ]

  pub write_page-Holds :
      (p : ℕ) (new : List ℕ) (cid : ℕ) (bytes : List ℕ) (v : PageFs σ)
      → p < 256 ^ 4
      → σ.Seen new
      → Holds cid bytes v
      → Holds cid bytes (write_page σ.hash σ.store σ.lru p new v).0
  unfolding write_page
  write_page-Holds p new cid bytes v small seen (k, u) =
      elim (Bool-cases (length new == v.page_size)) [
        | inl e ↦ rw e (k, insert-AllSeen σ.Seen p new v.dirty_pages small seen u)
        | inr e ↦ rw e (k, u)
      ]
