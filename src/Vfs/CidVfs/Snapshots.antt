-- ===== src/Vfs/CidVfs/Snapshots.antt =====
-- Snapshots and what is called later: crates/craftec-vfs/src/snapshot.rs and vfs.rs.
use craftec.Prelude.{ℕ, ◌^◌, ◌<◌, ◌≡◌, refl, ap, sym, ◌∙◌, List, [], inl, inr, Option-cases}
use craftec.Prelude.Result.{Result, ok, err}
use craftec.Prelude.Assoc.{lookup}
use craftec.Obj.Store.{Io}
use craftec.Vfs.PageIndex.{VfsError, no_root_cid, serialize_entries}
use craftec.Vfs.CidVfs.{Snapshot, snapshot, resolve_page, read_page, write_page, commit}
use craftec.Vfs.CidVfs.Pages.{Setting, put_entries, PageFs, page, content}
use craftec.Vfs.CidVfs.Coherent.{IsCoherent}
use craftec.Vfs.CidVfs.Keeps.{Holds, read_page-Holds, write_page-Holds, commit-Holds}

module _ (σ : Setting) where
  -- A call after the snapshot. What is written, and the index that a commit would store, are data
  -- in use; every call may fail.
  pub data Step (v : PageFs σ) : PageFs σ → Type 0 where
    reads : (io : Io) (page_num : ℕ) → Step v (read_page σ.hash σ.store σ.lru io page_num v).0
    writes :
        (page_num : ℕ) (bytes : List ℕ)
        → page_num < 256 ^ 4
        → σ.Seen bytes
        → Step v (write_page σ.hash σ.store σ.lru page_num bytes v).0
    commits :
        (io : ℕ → Io)
        → σ.Seen (serialize_entries (put_entries σ.hash v.dirty_pages v.page_index.entries))
        → Step v (commit σ.hash σ.store σ.lru io v).0

  pub data Later (v : PageFs σ) : PageFs σ → Type 0 where
    at_once : Later v v
    then_step : (w x : PageFs σ) → Later v w → Step w x → Later v x

  Step-Holds :
      (cid : ℕ) (bytes : List ℕ) (v w : PageFs σ)
      → Step v w
      → Holds σ cid bytes v
      → Holds σ cid bytes w
  Step-Holds cid bytes v _ (reads io p) h = read_page-Holds σ io p cid bytes v h
  Step-Holds cid bytes v _ (writes p new small seen) h =
      write_page-Holds σ p new cid bytes v small seen h
  Step-Holds cid bytes v _ (commits io seen) h = commit-Holds σ io cid bytes v seen h

  Later-Holds :
      (cid : ℕ) (bytes : List ℕ) (v w : PageFs σ)
      → Later v w
      → Holds σ cid bytes v
      → Holds σ cid bytes w
  Later-Holds cid bytes v _ at_once h = h
  Later-Holds cid bytes v _ (then_step w x l q) h =
      Step-Holds cid bytes w x q (Later-Holds cid bytes v w l h)

  entries_or : List (ℕ × ℕ) → Result Snapshot VfsError → List (ℕ × ℕ)
  entries_or d (ok snap) = snap.entries
  entries_or d (err e) = d

  snapshot-entries :
      (v : PageFs σ) (snap : Snapshot)
      → snapshot σ.hash σ.store σ.lru v ≡ ok snap
      → snap.entries ≡ v.page_index.entries
  unfolding snapshot entries_or
  snapshot-entries v snap taken = elim (Option-cases v.current_root) [
    | inl r ↦
        let now : snapshot σ.hash σ.store σ.lru v ≡ err no_root_cid = rw (r, snapshot) refl in
        absurd (cc)
    | inr (root, r) ↦
        let now : snapshot σ.hash σ.store σ.lru v
            ≡ ok (record { root_cid = root; entries = v.page_index.entries }) =
          rw (r, snapshot) refl in
        ap (entries_or []) (sym taken ∙ now)
  ]

  -- A snapshot of a coherent file system resolves every page to a content id under which the
  -- store has the bytes that the page had then, after any later reads, writes and commits, whether
  -- they succeed or fail, if the pages that are written and the indexes that the commits store are
  -- data in use.
  pub resolve_page-snapshot :
      (v w : PageFs σ) (snap : Snapshot) (page_num : ℕ)
      → IsCoherent σ v
      → snapshot σ.hash σ.store σ.lru v ≡ ok snap
      → Later v w
      → content σ w.store (resolve_page page_num snap) ≡ page σ v page_num
  unfolding resolve_page
  resolve_page-snapshot v w snap p h taken later =
      rw (snapshot-entries v snap taken) (elim (Option-cases (lookup p v.page_index.entries)) [
        | inl e ↦ rw e refl
        | inr (c, e) ↦
            let (bytes, here) = h.backed.held p c e in
            let kept = Later-Holds c bytes v w later ((h.backed.stored, here), h.usable) in
            rw (e, here) (kept.0.1)
      ])
