-- ===== src/Sql/Database/Sync.antt =====
-- The pages that a database file is cut into: crates/craftec-sql/src/database.rs.
use craftec.Prelude.{
  ℕ, zero, suc, ◌+◌, ◌-◌, ◌*◌, ◌%◌, ◌^◌, ◌<◌, ◌≤◌, ◌≡◌, refl, ap, ◌∙◌, arith, List, [], ◌∷◌, Option,
  none, some, true, false, inl, inr, ltb, ◌==◌, if◌then◌else◌, Bool-cases, length, take, drop,
  replicate, length-append, length-replicate, length-take, length-drop, drop-drop,
}
use craftec.Prelude.Result.{Result, ok}
use craftec.Prelude.Assoc.{lookup, insert, lookup-insert}
use craftec.Vfs.PageIndex.{VfsError}
use craftec.Vfs.CidVfs.{write_page}
use craftec.Vfs.CidVfs.Pages.{Setting, PageFs, over}
use craftec.Vfs.CidVfs.Coherent.{IsCoherent}
use craftec.Vfs.CidVfs.Writes.{buffered-IsCoherent}
use craftec.Sql.Database.{chunks, padded, write_chunks}

-- The page of a file: its bytes from `page_num * page_size` on, with zeros up to a whole page.
unfoldable pub file_page : ℕ → List ℕ → ℕ → Option (List ℕ)
file_page page_size bytes page_num =
    if ltb (page_num * page_size) (length bytes)
    then some (padded page_size (take page_size (drop (page_num * page_size) bytes)))
    else none

-- The dirty pages once the chunks are written, the first of them as page i.
unfoldable pub buffered : ℕ → ℕ → List (List ℕ) → List (ℕ × List ℕ) → List (ℕ × List ℕ)
buffered page_size i [] dirty = dirty
buffered page_size i (chunk ∷ rest) dirty =
    buffered page_size (i + 1) rest (insert i (padded page_size chunk) dirty)

abbrev pub AllShort : ℕ → List (List ℕ) → Type 0
AllShort size [] = Unit
AllShort size (chunk ∷ rest) = (length chunk ≤ size) × AllShort size rest

pub chunks-AllShort : (fuel size : ℕ) (bytes : List ℕ) → AllShort size (chunks fuel size bytes)
unfolding chunks
chunks-AllShort zero size bytes = tt
chunks-AllShort (suc fuel) size [] = tt
chunks-AllShort (suc fuel) size (b ∷ bytes) =
    let n = length-take size (b ∷ bytes) in
    (omega (arith, n), chunks-AllShort fuel size (drop size (b ∷ bytes)))

length-padded :
    (size : ℕ) (chunk : List ℕ) → length chunk ≤ size → length (padded size chunk) ≡ size
length-padded size chunk h =
    let n = length-append chunk (replicate (size - length chunk) 0) in
    let m = length-replicate {A = ℕ} (size - length chunk) 0 in omega (arith, h, n, m)

-- The page that comes of the chunks, the first of them being page i.
unfoldable pub chunk_at : ℕ → ℕ → List (List ℕ) → ℕ → Option (List ℕ)
chunk_at page_size i [] q = none
chunk_at page_size i (chunk ∷ rest) q =
    if i == q then some (padded page_size chunk) else chunk_at page_size (i + 1) rest q

chunk_at-below : (size i : ℕ) (cs : List (List ℕ)) (q : ℕ) → q < i → chunk_at size i cs q ≡ none
unfolding chunk_at
chunk_at-below size i [] q h = refl
chunk_at-below size i (c ∷ cs) q h =
    let other : (i == q) ≡ false = ground arith in
    rw other (chunk_at-below size (i + 1) cs q (omega (arith, h)))

lookup-buffered :
    (size i : ℕ) (cs : List (List ℕ)) (dirty : List (ℕ × List ℕ)) (q : ℕ)
    → lookup q (buffered size i cs dirty) ≡ over (chunk_at size i cs q) (lookup q dirty)
unfolding buffered chunk_at over
lookup-buffered size i [] dirty q = refl
lookup-buffered size i (c ∷ cs) dirty q =
    lookup-buffered size (i + 1) cs (insert i (padded size c) dirty) q
    ∙ rw (lookup-insert i q (padded size c) dirty) (elim (Bool-cases (i == q)) [
      | inl e ↦
          let below : q < i + 1 = ground arith in
          rw (e, chunk_at-below size (i + 1) cs q below, over) refl
      | inr e ↦ rw e refl
    ])

file_page-step :
    (size m : ℕ) (bytes : List ℕ)
    → 0 < size
    → file_page size (drop size bytes) m ≡ file_page size bytes (m + 1)
unfolding file_page
file_page-step size m bytes pos =
    let n = length-drop size bytes in
    let steps : (m + 1) * size ≡ size + m * size = omega arith in
    rw (steps, drop-drop size (m * size) bytes, n)
      (elim (Bool-cases (ltb (size + m * size) (length bytes))) [
        | inl e ↦
            let e' : ltb (m * size) (length bytes - size) ≡ true = ground arith in rw (e, e') refl
        | inr e ↦
            let e' : ltb (m * size) (length bytes - size) ≡ false = ground (arith, pos) in
            rw (e, e') refl
      ])

chunk_at-chunks :
    (fuel size i q : ℕ) (bytes : List ℕ)
    → 0 < size
    → length bytes ≤ fuel
    → i ≤ q
    → chunk_at size i (chunks fuel size bytes) q ≡ file_page size bytes (q - i)
unfolding chunks chunk_at file_page
chunk_at-chunks zero size i q [] pos h le =
    let e : ltb ((q - i) * size) 0 ≡ false = ground arith in rw e refl
chunk_at-chunks zero size i q (b ∷ bytes) pos h le = absurd (omega (arith, h))
chunk_at-chunks (suc fuel) size i q [] pos h le =
    let e : ltb ((q - i) * size) 0 ≡ false = ground arith in rw e refl
chunk_at-chunks (suc fuel) size i q (b ∷ bytes) pos h le = elim (Bool-cases (i == q)) [
  | inl e ↦
      let first : q - i ≡ 0 = ground arith in
      let none_before : 0 * size ≡ 0 = omega arith in
      let not_empty : ltb 0 (suc (length bytes)) ≡ true = ground arith in
      rw (e, first, none_before, not_empty) refl
  | inr e ↦
      let n = length-drop size (b ∷ bytes) in
      let later : q - i ≡ (q - (i + 1)) + 1 = ground (arith, le) in
      rw e (
        chunk_at-chunks fuel size (i + 1) q (drop size (b ∷ bytes)) pos (omega (arith, n, h, pos))
          (ground (arith, le))
        ∙ (file_page-step size (q - (i + 1)) (b ∷ bytes) pos
            ∙ ap (file_page size (b ∷ bytes)) (rw later refl)))
]

pub chunk_at-file_page :
    (size : ℕ) (bytes : List ℕ) (q : ℕ)
    → 0 < size
    → chunk_at size 0 (chunks (length bytes) size bytes) q ≡ file_page size bytes q
chunk_at-file_page size bytes q pos =
    chunk_at-chunks (length bytes) size 0 q bytes pos (omega arith) (omega arith)
    ∙ ap (file_page size bytes) (omega arith)

-- The dirty pages once a whole file is written.
pub lookup-buffered-chunks :
    (size : ℕ) (bytes : List ℕ) (dirty : List (ℕ × List ℕ)) (q : ℕ)
    → 0 < size
    → lookup q (buffered size 0 (chunks (length bytes) size bytes) dirty)
      ≡ over (file_page size bytes q) (lookup q dirty)
lookup-buffered-chunks size bytes dirty q pos =
    lookup-buffered size 0 (chunks (length bytes) size bytes) dirty q
    ∙ ap (λ o. over o (lookup q dirty)) (chunk_at-file_page size bytes q pos)

module _ (σ : Setting) where
  write_page-fits :
      (p : ℕ) (bytes : List ℕ) (v : PageFs σ)
      → length bytes ≡ v.page_size
      → write_page σ.hash σ.store σ.lru p bytes v
        ≡ (record v { dirty_pages = insert p bytes v.dirty_pages }, ok tt)
  unfolding write_page
  write_page-fits p bytes v h =
      let fits : (length bytes == v.page_size) ≡ true = ground arith in rw (fits, write_page) refl

  write_chunks-cons :
      (i : ℕ) (c : List ℕ) (cs : List (List ℕ)) (v w : PageFs σ)
      → write_page σ.hash σ.store σ.lru (i % 2 ^ 32) (padded v.page_size c) v ≡ (w, ok tt)
      → write_chunks σ.hash σ.store σ.lru i (c ∷ cs) v
        ≡ write_chunks σ.hash σ.store σ.lru (i + 1) cs w
  unfolding write_chunks
  write_chunks-cons i c cs v w e =
      rw (e, write_chunks)
        (ap (λ u. write_chunks σ.hash σ.store σ.lru (i + 1) cs u)
          (ap (λ (r : PageFs σ × Result (Unit {0}) VfsError). r.0) e))

  pub write_chunks_lem :
      (i : ℕ) (cs : List (List ℕ)) (v : PageFs σ)
      → AllShort v.page_size cs
      → i + length cs ≤ 2 ^ 32
      → write_chunks σ.hash σ.store σ.lru i cs v
        ≡ (record v { dirty_pages = buffered v.page_size i cs v.dirty_pages }, ok tt)
  unfolding write_chunks buffered
  write_chunks_lem i [] v short few = refl
  write_chunks_lem i (c ∷ cs) v short few =
      let whole : i % 2 ^ 32 ≡ i = omega (arith, few) in
      let page = padded v.page_size c in
      let w : PageFs σ = record v { dirty_pages = insert i page v.dirty_pages } in
      let written = write_page-fits i page v (length-padded v.page_size c (short.0)) in
      write_chunks-cons i c cs v w (rw whole written)
      ∙ write_chunks_lem (i + 1) cs w (short.1) (omega (arith, few))

  pub buffered_all-IsCoherent :
      (i : ℕ) (cs : List (List ℕ)) (v : PageFs σ)
      → i + length cs ≤ 256 ^ 4
      → ((q : ℕ) (page : List ℕ) → chunk_at v.page_size i cs q ≡ some page → σ.Seen page)
      → IsCoherent σ v
      → IsCoherent σ (record v { dirty_pages = buffered v.page_size i cs v.dirty_pages })
  unfolding buffered chunk_at
  buffered_all-IsCoherent i [] v few seen h = h
  buffered_all-IsCoherent i (c ∷ cs) v few seen h =
      let page = padded v.page_size c in
      let same : (i == i) ≡ true = ground arith in
      let first : σ.Seen page = seen i page (rw same refl) in
      let w : PageFs σ = record v { dirty_pages = insert i page v.dirty_pages } in
      buffered_all-IsCoherent (i + 1) cs w (omega (arith, few))
        (λ q b e. elim (Bool-cases (i == q)) [
          | inl d ↦
              let below : q < i + 1 = ground arith in
              let gone = chunk_at-below v.page_size (i + 1) cs q below in absurd (cc)
          | inr d ↦ seen q b (rw d e)
        ])
        (buffered-IsCoherent σ i page v h (omega (arith, few)) first)
