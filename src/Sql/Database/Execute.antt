-- ===== src/Sql/Database/Execute.antt =====
-- What a statement leaves in the pages: crates/craftec-sql/src/database.rs.
use craftec.Prelude.{
  ℕ, ◌^◌, ◌<◌, ◌≤◌, ◌≡◌, refl, sym, ap, ◌∙◌, arith, List, [], Option, none, some, inl, inr, ◌⊎◌,
  length,
}
use craftec.Prelude.Result.{Result, ok, err}
use craftec.Prelude.Assoc.{lookup}
use craftec.Obj.Store.{Io}
use craftec.Vfs.PageIndex.{
  VfsError, store_error, from_store, no_root_cid, serialize, serialize_entries,
}
use craftec.Vfs.CidVfs.{commit}
use craftec.Vfs.CidVfs.Pages.{Setting, PageFs, page, over, overlay, put_entries}
use craftec.Vfs.CidVfs.Coherent.{IsCoherent}
use craftec.Vfs.CidVfs.Commits.{CommitResult, commit_lem}
use craftec.Sql.Commit.{SqlError, vfs_error}
use craftec.Sql.Database.{Libsql, Database, chunks, sync_pages_to_vfs, mutate, publish}
use craftec.Sql.Database.Sync.{
  file_page, buffered, chunks-AllShort, lookup-buffered-chunks, chunk_at-file_page,
  write_chunks_lem, buffered_all-IsCoherent,
}

over_assoc : {A : Type 0} (a b c : Option A) → over (over a b) c ≡ over a (over b c)
unfolding over
over_assoc none b c = refl
over_assoc (some x) b c = refl

module _ (σ : Setting) where
  -- The dirty pages once the file is written.
  abbrev pub file_pages : List ℕ → PageFs σ → List (ℕ × List ℕ)
  file_pages bytes v =
      buffered v.page_size 0 (chunks (length bytes) v.page_size bytes) v.dirty_pages

  -- What the file's pages need to be committed.
  pub record IsUsable (bytes : List ℕ) (v : PageFs σ) : Type 0 where
    pub sized : 0 < v.page_size
    pub count : length (chunks (length bytes) v.page_size bytes) ≤ 256 ^ 4
    pub seen :
        (q : ℕ) (bytes' : List ℕ) → file_page v.page_size bytes q ≡ some bytes' → σ.Seen bytes'
    pub few : length (put_entries σ.hash (file_pages bytes v) v.page_index.entries) < 256 ^ 4
    pub form_seen :
        σ.Seen (serialize_entries (put_entries σ.hash (file_pages bytes v) v.page_index.entries))

  abbrev pub with_file : List ℕ → PageFs σ → PageFs σ
  with_file bytes v = record v { dirty_pages = file_pages bytes v }

  with_file-IsCoherent :
      (bytes : List ℕ) (v : PageFs σ)
      → IsCoherent σ v
      → IsUsable bytes v
      → IsCoherent σ (with_file bytes v)
  with_file-IsCoherent bytes v h u =
      let c = u.count in
      buffered_all-IsCoherent σ 0 (chunks (length bytes) v.page_size bytes) v (omega (arith, c))
        (λ q b e. u.seen q b (sym (chunk_at-file_page v.page_size bytes q u.sized) ∙ e)) h

  committed :
      (ios : ℕ → Io) (bytes : List ℕ) (v : PageFs σ)
      → IsCoherent σ v
      → IsUsable bytes v
      → CommitResult σ (with_file bytes v) (commit σ.hash σ.store σ.lru ios (with_file bytes v))
  committed ios bytes v h u =
      commit_lem σ ios (with_file bytes v) (with_file-IsCoherent bytes v h u) u.few u.form_seen

  -- The committed pages are those of the file over the old ones, and their index has the root as
  -- its hash.
  abbrev pub Synced : List ℕ → PageFs σ → PageFs σ → ℕ → Type 0
  Synced bytes v w root =
      (w.current_root ≡ some root)
      × (σ.hash (serialize w.page_index) ≡ root)
      × (w.dirty_pages ≡ [])
      × ((q : ℕ)
          → page σ w q ≡ over (file_page v.page_size bytes q) (overlay v.dirty_pages (page σ v) q))
      × IsCoherent σ w

  abbrev pub SyncResult : List ℕ → PageFs σ → PageFs σ × Result ℕ SqlError → Type 0
  SyncResult bytes v r =
      ((root : ℕ) × (r.1 ≡ ok root) × Synced bytes v r.0 root)
      ⊎ ((e : VfsError) × (r.1 ≡ err (vfs_error e)))

  -- The end of `sync_pages_to_vfs`.
  unfoldable finished : PageFs σ × Result ℕ VfsError → PageFs σ × Result ℕ SqlError
  finished r = elim (r.1) [ err e ↦ (r.0, err (vfs_error e)) | ok root ↦ (r.0, ok root) ]

  sync-finished :
      (ios : ℕ → Io) (bytes : List ℕ) (v : PageFs σ)
      → IsUsable bytes v
      → sync_pages_to_vfs σ.hash σ.store σ.lru ios (ok bytes) v
        ≡ finished (commit σ.hash σ.store σ.lru ios (with_file bytes v))
  unfolding sync_pages_to_vfs finished
  sync-finished ios bytes v u =
      let c = u.count in
      let written =
        write_chunks_lem σ 0 (chunks (length bytes) v.page_size bytes) v
          (chunks-AllShort (length bytes) v.page_size bytes) (omega (arith, c)) in
      rw (written, sync_pages_to_vfs)
        (ap (λ u. finished (commit σ.hash σ.store σ.lru ios u))
          (ap (λ (r : PageFs σ × Result (Unit {0}) VfsError). r.0) written))

  finished-SyncResult :
      (bytes : List ℕ) (v : PageFs σ) (r : PageFs σ × Result ℕ VfsError)
      → IsUsable bytes v
      → CommitResult σ (with_file bytes v) r
      → SyncResult bytes v (finished r)
  unfolding finished
  finished-SyncResult bytes v r u (inl (root, done, current, form, clean, pages, coherent)) =
      rw (done, finished)
        (inl (
          root,
          refl,
          (
            current,
            form,
            clean,
            λ q.
                pages q
                ∙ (ap (λ o. over o (page σ v q))
                      (lookup-buffered-chunks v.page_size bytes v.dirty_pages q u.sized)
                    ∙ over_assoc (file_page v.page_size bytes q) (lookup q v.dirty_pages)
                        (page σ v q)),
            coherent,
          ),
        ))
  finished-SyncResult bytes v r u (inr (inl (e, failed, root, clean))) =
      rw (failed, finished) (inr (store_error (from_store e), refl))
  finished-SyncResult bytes v r u (inr (inr (clean, rootless, refused))) =
      rw (refused, finished) (inr (no_root_cid, refl))

  sync_lem :
      (ios : ℕ → Io) (bytes : List ℕ) (v : PageFs σ)
      → IsCoherent σ v
      → IsUsable bytes v
      → SyncResult bytes v (sync_pages_to_vfs σ.hash σ.store σ.lru ios (ok bytes) v)
  sync_lem ios bytes v h u = rw (sync-finished ios bytes v u) (
      finished-SyncResult bytes v (commit σ.hash σ.store σ.lru ios (with_file bytes v)) u
        (committed ios bytes v h u))

  module _ (engine : Libsql) where
    abbrev pub Db : Type 0
    Db = Database σ.hash σ.store σ.lru engine

    -- The end of `mutate`.
    unfoldable published : Db → PageFs σ × Result ℕ SqlError → Db × Result (Unit {0}) SqlError
    published db r = elim (r.1) [
      | err e ↦ (record db { vfs = r.0 }, err e)
      | ok new_root ↦
          (publish σ.hash σ.store σ.lru engine new_root (record db { vfs = r.0 }), ok tt)
    ]

    mutate-published :
        (ios : ℕ → Io) (sql bytes : List ℕ) (db : Db)
        → (engine.run sql db.libsql).1 ≡ ok tt
        → engine.read_file (engine.run sql db.libsql).0 ≡ ok bytes
        → mutate σ.hash σ.store σ.lru engine ios sql db
          ≡ published
              (record db { libsql = (engine.run sql db.libsql).0 })
              (sync_pages_to_vfs σ.hash σ.store σ.lru ios (ok bytes) db.vfs)
    unfolding mutate published
    mutate-published ios sql bytes db ran file =
        rw (ran, mutate)
          (ap
            (λ answer.
              published (record db { libsql = (engine.run sql db.libsql).0 })
                (sync_pages_to_vfs σ.hash σ.store σ.lru ios answer db.vfs))
            file)

    -- The statement's effect is in the pages under the new root, or the old root stands.
    abbrev pub MutateResult : List ℕ → Db → Db × Result (Unit {0}) SqlError → Type 0
    MutateResult bytes db r =
        ((r.1 ≡ ok tt) × Synced bytes db.vfs r.0.vfs r.0.root_cid)
        ⊎ ((e : VfsError) × (r.1 ≡ err (vfs_error e)) × (r.0.root_cid ≡ db.root_cid))

    published-MutateResult :
        (bytes : List ℕ) (db : Db) (state : engine.State) (r : PageFs σ × Result ℕ SqlError)
        → SyncResult bytes db.vfs r
        → MutateResult bytes db (published (record db { libsql = state }) r)
    unfolding published publish
    published-MutateResult bytes db state r (inl (root, done, synced)) =
        rw (done, published) (inl (refl, synced))
    published-MutateResult bytes db state r (inr (e, failed)) =
        rw (failed, published) (inr (e, refl, refl))

    -- In a database whose pages are coherent, where the engine executes the statement, its file can
    -- be read, and the file's pages are data in use and not too many: either the root is that of
    -- the committed index, and each page is the file's, padded with zeros, where the file reaches,
    -- and the old one beyond its end, or the answer is an error of the pages and the root is the
    -- old one.
    pub mutate_lem :
        (ios : ℕ → Io) (sql bytes : List ℕ) (db : Db)
        → IsCoherent σ db.vfs
        → IsUsable bytes db.vfs
        → (engine.run sql db.libsql).1 ≡ ok tt
        → engine.read_file (engine.run sql db.libsql).0 ≡ ok bytes
        → MutateResult bytes db (mutate σ.hash σ.store σ.lru engine ios sql db)
    mutate_lem ios sql bytes db h u ran file = rw (mutate-published ios sql bytes db ran file) (
        published-MutateResult bytes db (engine.run sql db.libsql).0 _
          (sync_lem ios bytes db.vfs h u))
