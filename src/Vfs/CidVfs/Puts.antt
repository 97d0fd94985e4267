-- ===== src/Vfs/CidVfs/Puts.antt =====
-- The loop of `commit` over the dirty pages: crates/craftec-vfs/src/vfs.rs.
use craftec.Prelude.{
  ℕ, ◌+◌, ◌≡◌, refl, ◌∙◌, arith, List, [], ◌∷◌, Option, none, some, inl, inr, ◌⊎◌, ◌==◌, eq_refl,
  if◌then◌else◌, Bool-cases,
}
use craftec.Prelude.Result.{Result, ok, err}
use craftec.Prelude.Assoc.{lookup, insert, Distinct, lookup-insert}
use craftec.Obj.Store.{Io, ObjError}
use craftec.Vfs.PageIndex.{VfsError, store_error, from_store, set}
use craftec.Vfs.CidVfs.{put_pages}
use craftec.Vfs.CidVfs.Pages.{
  Setting, over, overlay, AllSeen, put_entries, PageFs, content, page, IsBacked, put-IsBacked,
  put-content,
}

module _ (σ : Setting) where
  module _ (io : Io) (bytes : List ℕ) (p : ℕ) (s : σ.store.State) (entries : List (ℕ × ℕ))
      (seen : σ.Seen bytes) (b : IsBacked σ s entries)
      (r : (σ.store.put io bytes s).1 ≡ ok (σ.hash bytes)) where
    put-here : σ.laws.contents (σ.store.put io bytes s).0 (σ.hash bytes) ≡ some bytes
    put-here = elim (σ.laws.put_lem io bytes s seen b.stored) [
      | inl (q, after) ↦ after (σ.hash bytes) ∙ rw (eq_refl (σ.hash bytes)) refl
      | inr (e, q, after) ↦ absurd (cc)
    ]

    set-IsBacked : IsBacked σ (σ.store.put io bytes s).0 (insert p (σ.hash bytes) entries)
    set-IsBacked =
        let b' = put-IsBacked σ io bytes s entries seen b in
        record {
          stored = b'.stored;
          held = λ q c e. elim (Bool-cases (p == q)) [
            | inl h ↦
                let e' : some (σ.hash bytes) ≡ some c =
                  rw (lookup-insert p q (σ.hash bytes) entries, h) at e in
                let same : σ.hash bytes ≡ c = (cc) in (bytes, rw (← same) put-here)
            | inr h ↦ b'.held q c (rw (lookup-insert p q (σ.hash bytes) entries, h) at e)
          ];
        }

    set-content :
        (q : ℕ)
        → content σ (σ.store.put io bytes s).0 (lookup q (insert p (σ.hash bytes) entries))
          ≡ (if p == q then some bytes else content σ s (lookup q entries))
    set-content q = rw (lookup-insert p q (σ.hash bytes) entries) (elim (Bool-cases (p == q)) [
      | inl h ↦ rw h put-here
      | inr h ↦ rw h (put-content σ io bytes s entries seen b q)
    ])

  -- Only the store and the index may differ.
  pub record SameRest (v w : PageFs σ) : Type 0 where
    pub cache : w.page_cache ≡ v.page_cache
    pub root : w.current_root ≡ v.current_root
    pub dirty : w.dirty_pages ≡ v.dirty_pages

  -- All pages are stored and in the index, or the store failed.
  abbrev pub PutsResult :
      List (ℕ × List ℕ) → PageFs σ → PageFs σ × Result (Unit {0}) VfsError → Type 0
  PutsResult dirty v r =
      SameRest v r.0
      × (((r.1 ≡ ok tt)
            × IsBacked σ r.0.store r.0.page_index.entries
            × (r.0.page_index.entries ≡ put_entries σ.hash dirty v.page_index.entries)
            × ((q : ℕ) → page σ r.0 q ≡ overlay dirty (page σ v) q))
          ⊎ ((e : ObjError) × (r.1 ≡ err (store_error (from_store e)))))

  overlay-cons :
      (p q : ℕ) (bytes : List ℕ) (dirty : List (ℕ × List ℕ)) (old new : ℕ → Option (List ℕ))
      → lookup p dirty ≡ none
      → new q ≡ (if p == q then some bytes else old q)
      → overlay dirty new q ≡ overlay ((p, bytes) ∷ dirty) old q
  unfolding lookup over
  overlay-cons p q bytes dirty old new d e = elim (Bool-cases (p == q)) [
    | inl h ↦
        let same : p ≡ q = ground arith in
        let gone : lookup q dirty ≡ none = rw (← same) d in rw (gone, over, e, h) refl
    | inr h ↦ rw (e, h) refl
  ]

  pub put_pages_lem :
      (io : ℕ → Io) (i : ℕ) (dirty : List (ℕ × List ℕ)) (v : PageFs σ)
      → Distinct dirty
      → AllSeen σ.Seen dirty
      → IsBacked σ v.store v.page_index.entries
      → PutsResult dirty v (put_pages σ.hash σ.store σ.lru io i dirty v)
  unfolding put_pages put_entries lookup over
  put_pages_lem io i [] v d seen b =
      (record { cache = refl; root = refl; dirty = refl }, inl (refl, b, refl, λ q. refl))
  put_pages_lem io i ((p, bytes) ∷ dirty) v d seen b =
      let s = (σ.store.put (io i) bytes v.store).0 in
      elim (σ.laws.put_lem (io i) bytes v.store (seen.1) b.stored) [
        | inr (e, r, after) ↦
            rw (r, put_pages) (record { cache = refl; root = refl; dirty = refl }, inr (e, refl))
        | inl (r, after) ↦
            let v' : PageFs σ = record v {
              store = s;
              page_index = set p (σ.hash bytes) v.page_index;
            } in
            let b' = set-IsBacked (io i) bytes p v.store v.page_index.entries (seen.1) b r in
            let rest = put_pages_lem io (i + 1) dirty v' d.1 (seen.2) (unfold set in b') in
            let step =
              λ (q : ℕ). set-content (io i) bytes p v.store v.page_index.entries (seen.1) b r q in
            rw (r, put_pages)
              (
                record { cache = rest.0.cache; root = rest.0.root; dirty = rest.0.dirty },
                elim (rest.1) [
                  | inl (done, backed, index, pages) ↦ inl (
                    done,
                    backed,
                    unfold set in index,
                    λ q.
                        pages q
                        ∙ overlay-cons p q bytes dirty (page σ v) (page σ v') d.0
                            (unfold set in step q),
                  )
                  | inr failed ↦ inr failed
                ],
              )
      ]
