-- ===== src/Vfs/CidVfs/Writes.antt =====
-- Writing pages, and what is read of them after a commit: crates/craftec-vfs/src/vfs.rs.
use craftec.Prelude.{
  ℕ, ◌^◌, ◌<◌, ◌≡◌, refl, ap, ◌∙◌, arith, List, [], ◌∷◌, Option, none, some, true, inl, inr, ◌⊎◌,
  ◌==◌, eq_refl, Bool-cases, length,
}
use craftec.Prelude.Result.{Result, ok, err}
use craftec.Prelude.Assoc.{lookup, insert, lookup-insert, insert-Distinct}
use craftec.Obj.Store.{Io, ObjError}
use craftec.Vfs.PageIndex.{VfsError, store_error, from_store, serialize_entries}
use craftec.Vfs.CidVfs.{commit, write_page, read_page}
use craftec.Vfs.CidVfs.Pages.{Setting, over, AllSeen, put_entries, PageFs, page}
use craftec.Vfs.CidVfs.Coherent.{IsCoherent, IsRooted}
use craftec.Vfs.CidVfs.Reads.{read_page_lem, page_or_error}
use craftec.Vfs.CidVfs.Commits.{commit_lem}

pub insert-AllSeen :
    (Seen : List ℕ → Type 0) (p : ℕ) (bytes : List ℕ) (dirty : List (ℕ × List ℕ))
    → p < 256 ^ 4
    → Seen bytes
    → AllSeen Seen dirty
    → AllSeen Seen (insert p bytes dirty)
unfolding insert
insert-AllSeen Seen p bytes [] small seen u = (small, seen, tt)
insert-AllSeen Seen p bytes ((q, b) ∷ dirty) small seen u = elim (Bool-cases (q == p)) [
  | inl e ↦ rw e (small, seen, u.2)
  | inr e ↦ rw e (u.0, u.1, insert-AllSeen Seen p bytes dirty small seen (u.2))
]

module _ (σ : Setting) where
  -- `write_page`, then `commit`.
  abbrev pub commit_write : (ℕ → Io) → ℕ → List ℕ → PageFs σ → PageFs σ × Result ℕ VfsError
  commit_write ios page_num bytes v =
      commit σ.hash σ.store σ.lru ios (write_page σ.hash σ.store σ.lru page_num bytes v).0

  pub buffered-IsCoherent :
      (page_num : ℕ) (bytes : List ℕ) (v : PageFs σ)
      → IsCoherent σ v
      → page_num < 256 ^ 4
      → σ.Seen bytes
      → IsCoherent σ (record v { dirty_pages = insert page_num bytes v.dirty_pages })
  buffered-IsCoherent p bytes v h small seen = record {
    backed = h.backed;
    storable = h.storable;
    rooted = rooted v.current_root h.rooted;
    cached = h.cached;
    drafts = insert-Distinct p bytes v.dirty_pages h.drafts;
    usable = insert-AllSeen σ.Seen p bytes v.dirty_pages small seen h.usable;
  }
    where
      rooted :
          (o : Option ℕ)
          → IsRooted σ o v
          → IsRooted σ o (record v { dirty_pages = insert p bytes v.dirty_pages })
      rooted none q = q
      rooted (some root) q = q

  abbrev pub ReadsBack : Io → ℕ → List ℕ → PageFs σ → Type 0
  ReadsBack io page_num bytes v =
      ((read_page σ.hash σ.store σ.lru io page_num v).1 ≡ ok bytes)
      ⊎ ((e : ObjError) × ((read_page σ.hash σ.store σ.lru io page_num v).1
            ≡ err (store_error (from_store e))))

  page-ReadsBack :
      (io : Io) (page_num : ℕ) (bytes : List ℕ) (v : PageFs σ)
      → IsCoherent σ v
      → page σ v page_num ≡ some bytes
      → ReadsBack io page_num bytes v
  page-ReadsBack io p bytes v h here =
      let r = read_page_lem σ io p v h in
      elim (r.2) [ inl e ↦ inl (e ∙ ap (page_or_error p) here) | inr e ↦ inr e ]

  commit-ReadsBack :
      (io : Io) (ios : ℕ → Io) (page_num : ℕ) (bytes : List ℕ) (v : PageFs σ) (root : ℕ)
      → IsCoherent σ v
      → length (put_entries σ.hash v.dirty_pages v.page_index.entries) < 256 ^ 4
      → σ.Seen (serialize_entries (put_entries σ.hash v.dirty_pages v.page_index.entries))
      → lookup page_num v.dirty_pages ≡ some bytes
      → (commit σ.hash σ.store σ.lru ios v).1 ≡ ok root
      → ReadsBack io page_num bytes (commit σ.hash σ.store σ.lru ios v).0
  unfolding over
  commit-ReadsBack io ios p bytes v root h few form dirty done =
      elim (commit_lem σ ios v h few form) [
        | inl (r, answer, now, index, clean, pages, coherent) ↦
            page-ReadsBack io p bytes (commit σ.hash σ.store σ.lru ios v).0 coherent
              (pages p ∙ rw (dirty, over) refl)
        | inr (inl (e, failed, root, clean)) ↦ absurd (cc)
        | inr (inr (clean, rootless, refused)) ↦ absurd (cc)
      ]

  -- In a coherent file system, once a page was written and then committed, and neither was refused,
  -- reading it answers exactly what was written, unless the store fails to read.
  pub read-commit-write :
      (io : Io) (ios : ℕ → Io) (page_num : ℕ) (bytes : List ℕ) (v : PageFs σ) (root : ℕ)
      → IsCoherent σ v
      → page_num < 256 ^ 4
      → σ.Seen bytes
      → length bytes ≡ v.page_size
      → length (put_entries σ.hash (insert page_num bytes v.dirty_pages) v.page_index.entries)
        < 256 ^ 4
      → σ.Seen (
          serialize_entries
            (put_entries σ.hash (insert page_num bytes v.dirty_pages) v.page_index.entries))
      → (commit_write ios page_num bytes v).1 ≡ ok root
      → ReadsBack io page_num bytes (commit_write ios page_num bytes v).0
  unfolding write_page
  read-commit-write io ios p bytes v root h small seen size few form done =
      let fits : (length bytes == v.page_size) ≡ true = ground arith in
      let w : PageFs σ = record v { dirty_pages = insert p bytes v.dirty_pages } in
      let written : (write_page σ.hash σ.store σ.lru p bytes v).0 ≡ w =
        rw (fits, write_page) refl in
      let here : lookup p w.dirty_pages ≡ some bytes =
        rw (lookup-insert p p bytes v.dirty_pages, eq_refl p) refl in
      rw written (
        commit-ReadsBack io ios p bytes w root (buffered-IsCoherent p bytes v h small seen) few form
          here (rw written at done))
