-- ===== src/Vfs/CidVfs/Commits.antt =====
-- Writing and committing pages: crates/craftec-vfs/src/vfs.rs.
use craftec.Prelude.{
  ℕ, ◌^◌, ◌<◌, ◌≡◌, refl, ap, ◌∙◌, List, [], ◌∷◌, Option, none, some, inl, inr, ◌⊎◌, ◌==◌,
  Bool-cases, Option-cases, length,
}
use craftec.Prelude.Result.{Result, ok, err}
use craftec.Prelude.Assoc.{lookup, insert, Distinct, insert-Distinct}
use craftec.Prelude.Sort.{AllEntries}
use craftec.Obj.Store.{Io, ObjError}
use craftec.Vfs.PageIndex.{
  VfsError, store_error, from_store, no_root_cid, set_root, serialize, serialize_entries,
}
use craftec.Vfs.PageIndex.Serialize.{IsStorable, Fits}
use craftec.Vfs.CidVfs.{commit, put_pages, put_index, root_or_none}
use craftec.Vfs.CidVfs.Pages.{
  Setting, over, overlay, AllSeen, put_entries, PageFs, page, IsBacked, put-IsBacked, put-content,
}
use craftec.Vfs.CidVfs.Puts.{PutsResult, put_pages_lem}
use craftec.Vfs.CidVfs.Coherent.{IsCoherent, IsRooted}

insert-Fits :
    (p c : ℕ) (m : List (ℕ × ℕ)) → Fits p c → AllEntries Fits m → AllEntries Fits (insert p c m)
unfolding insert
insert-Fits p c [] f a = (f, tt)
insert-Fits p c ((q, d) ∷ m) f a = elim (Bool-cases (q == p)) [
  | inl e ↦ rw e (f, a.1)
  | inr e ↦ rw e (a.0, insert-Fits p c m f a.1)
]

module _ (σ : Setting) where
  put_entries-Distinct :
      (dirty : List (ℕ × List ℕ)) (entries : List (ℕ × ℕ))
      → Distinct entries
      → Distinct (put_entries σ.hash dirty entries)
  unfolding put_entries
  put_entries-Distinct [] entries d = d
  put_entries-Distinct ((p, bytes) ∷ dirty) entries d =
      put_entries-Distinct dirty (insert p (σ.hash bytes) entries)
        (insert-Distinct p (σ.hash bytes) entries d)

  put_entries-Fits :
      (dirty : List (ℕ × List ℕ)) (entries : List (ℕ × ℕ))
      → AllSeen σ.Seen dirty
      → AllEntries Fits entries
      → AllEntries Fits (put_entries σ.hash dirty entries)
  unfolding put_entries
  put_entries-Fits [] entries u a = a
  put_entries-Fits ((p, bytes) ∷ dirty) entries u a =
      put_entries-Fits dirty (insert p (σ.hash bytes) entries) (u.2)
        (insert-Fits p (σ.hash bytes) entries (u.0, σ.short bytes (u.1)) a)

  -- What committing may come to.
  abbrev pub Committed : PageFs σ → PageFs σ × Result ℕ VfsError → Type 0
  Committed v r =
      (root : ℕ) × (r.1 ≡ ok root)
      × (r.0.current_root ≡ some root)
      × (σ.hash (serialize r.0.page_index) ≡ root)
      × (r.0.dirty_pages ≡ [])
      × ((q : ℕ) → page σ r.0 q ≡ overlay v.dirty_pages (page σ v) q)
      × IsCoherent σ r.0

  abbrev pub CommitFailed : PageFs σ → PageFs σ × Result ℕ VfsError → Type 0
  CommitFailed v r =
      (e : ObjError) × (r.1 ≡ err (store_error (from_store e)))
      × (r.0.current_root ≡ v.current_root)
      × (r.0.dirty_pages ≡ [])

  -- The index is stored last, and its content id becomes the root.
  put_index_lem :
      (io : Io) (v w : PageFs σ)
      → IsCoherent σ v
      → w.page_cache ≡ v.page_cache
      → w.current_root ≡ v.current_root
      → w.dirty_pages ≡ []
      → IsBacked σ w.store w.page_index.entries
      → IsStorable w.page_index.entries
      → σ.Seen (serialize w.page_index)
      → ((q : ℕ) → page σ w q ≡ overlay v.dirty_pages (page σ v) q)
      → Committed v (put_index σ.hash σ.store σ.lru io w)
        ⊎ CommitFailed v (put_index σ.hash σ.store σ.lru io w)
  unfolding put_index
  put_index_lem io v w h cache root dirty backed storable seen pages =
      let bytes = serialize w.page_index in
      elim (σ.laws.put_lem io bytes w.store seen backed.stored) [
        | inr (e, r, after) ↦ rw (r, put_index) (inr (e, refl, root, dirty))
        | inl (r, after) ↦
            rw (r, put_index)
              (inl (
                σ.hash bytes,
                refl,
                refl,
                unfold set_root in refl,
                dirty,
                λ q.
                    unfold set_root in
                    put-content σ io bytes w.store w.page_index.entries seen backed q ∙ pages q,
                unfold set_root in
                    record {
                      backed = put-IsBacked σ io bytes w.store w.page_index.entries seen backed;
                      storable = storable;
                      rooted = (refl, seen);
                      cached = λ r p b e. h.cached r p b (rw cache at e);
                      drafts = rw dirty tt;
                      usable = rw dirty tt;
                    },
              ))
      ]

  -- After a commit of no pages.
  drained-IsCoherent :
      (v : PageFs σ) → IsCoherent σ v → IsCoherent σ (record v { dirty_pages = [] })
  drained-IsCoherent v h = record {
    backed = h.backed;
    storable = h.storable;
    rooted = rooted v.current_root h.rooted;
    cached = h.cached;
    drafts = tt;
    usable = tt;
  }
    where
      rooted : (o : Option ℕ) → IsRooted σ o v → IsRooted σ o (record v { dirty_pages = [] })
      rooted none q = q
      rooted (some root) q = q

  abbrev pub NothingToCommit : PageFs σ → PageFs σ × Result ℕ VfsError → Type 0
  NothingToCommit v r = (v.dirty_pages ≡ []) × (v.current_root ≡ none) × (r.1 ≡ err no_root_cid)

  abbrev pub CommitResult : PageFs σ → PageFs σ × Result ℕ VfsError → Type 0
  CommitResult v r = Committed v r ⊎ (CommitFailed v r ⊎ NothingToCommit v r)

  -- The rest of `commit`, once the pages were put.
  unfoldable pub after_puts :
      (ℕ → Io) → ℕ → PageFs σ × Result (Unit {0}) VfsError → PageFs σ × Result ℕ VfsError
  after_puts io n r = elim (r.1) [
    | err e ↦ (r.0, err e)
    | ok done ↦ put_index σ.hash σ.store σ.lru (io n) (r.0)
  ]

  pub commit-empty :
      (io : ℕ → Io) (v : PageFs σ)
      → v.dirty_pages ≡ []
      → commit σ.hash σ.store σ.lru io v
        ≡ (record v { dirty_pages = [] }, root_or_none v.current_root)
  unfolding commit
  commit-empty io v e = rw (e, commit) refl

  pub commit-pages :
      (io : ℕ → Io) (v : PageFs σ) {first : ℕ × List ℕ} {rest : List (ℕ × List ℕ)}
      → v.dirty_pages ≡ first ∷ rest
      → commit σ.hash σ.store σ.lru io v
        ≡ after_puts io
            (length (first ∷ rest))
            (put_pages σ.hash σ.store σ.lru io 0 (first ∷ rest) (record v { dirty_pages = [] }))
  unfolding commit after_puts
  commit-pages io v e = rw (e, commit) refl

  empty_lem :
      (v : PageFs σ)
      → IsCoherent σ v
      → v.dirty_pages ≡ []
      → CommitResult v (record v { dirty_pages = [] }, root_or_none v.current_root)
  unfolding over
  empty_lem v h e = elim (Option-cases v.current_root) [
    | inl r ↦ inr (inr (e, r, ap root_or_none r))
    | inr (root, r) ↦
        let rooted = h.rooted in
        let now = (rw r at rooted) in
        inl (
          root,
          ap root_or_none r,
          r,
          now.0,
          refl,
          λ q. rw e (unfold lookup in refl),
          drained-IsCoherent v h,
        )
  ]

  pages_lem :
      (io : ℕ → Io) (n : ℕ) (v : PageFs σ) (r : PageFs σ × Result (Unit {0}) VfsError)
      → IsCoherent σ v
      → length (put_entries σ.hash v.dirty_pages v.page_index.entries) < 256 ^ 4
      → σ.Seen (serialize_entries (put_entries σ.hash v.dirty_pages v.page_index.entries))
      → PutsResult σ v.dirty_pages (record v { dirty_pages = [] }) r
      → CommitResult v (after_puts io n r)
  unfolding after_puts
  pages_lem io n v r h few seen (same, inr (e, failed)) =
      rw (failed, after_puts) (inr (inl (e, refl, same.root, same.dirty)))
  pages_lem io n v r h few seen (same, inl (done, backed, index, pages)) =
      let storable : IsStorable (r.0).page_index.entries = rw index (record {
        distinct = put_entries-Distinct v.dirty_pages v.page_index.entries h.storable.distinct;
        count = few;
        fits = put_entries-Fits v.dirty_pages v.page_index.entries h.usable h.storable.fits;
      }) in
      let seen' : σ.Seen (serialize (r.0).page_index) = rw index seen in
      rw (done, after_puts)
        (elim (put_index_lem (io n) v (r.0) h same.cache same.root same.dirty backed storable seen'
          pages) [ inl x ↦ inl x | inr x ↦ inr (inl x) ])

  -- In a coherent file system, where the index that results has fewer than 2^32 pages and its
  -- serialised form is data in use, a commit comes to one of three ends. It answers the hash of the
  -- index, which is then the root, every dirty page has its new bytes and every other page its old
  -- ones, none is dirty, and the file system is coherent. Or there was nothing to commit and no
  -- root. Or it answers an error of the store: then the root is the old one, and no page is dirty
  -- any more.
  pub commit_lem :
      (io : ℕ → Io) (v : PageFs σ)
      → IsCoherent σ v
      → length (put_entries σ.hash v.dirty_pages v.page_index.entries) < 256 ^ 4
      → σ.Seen (serialize_entries (put_entries σ.hash v.dirty_pages v.page_index.entries))
      → CommitResult v (commit σ.hash σ.store σ.lru io v)
  commit_lem io v h few seen = by_pages v.dirty_pages refl
    where
      by_pages :
          (dirty : List (ℕ × List ℕ))
          → v.dirty_pages ≡ dirty
          → CommitResult v (commit σ.hash σ.store σ.lru io v)
      by_pages [] e = rw (commit-empty io v e) (empty_lem v h e)
      by_pages (first ∷ rest) e =
          let drained : PageFs σ = record v { dirty_pages = [] } in
          let drafts = h.drafts in
          let usable = h.usable in
          let put : PutsResult σ (first ∷ rest) drained
              (put_pages σ.hash σ.store σ.lru io 0 (first ∷ rest) drained) =
            put_pages_lem σ io 0 (first ∷ rest) drained (rw e at drafts) (rw e at usable)
              h.backed in
          rw (commit-pages io v e) (pages_lem io (length (first ∷ rest)) v _ h few seen (rw e put))
