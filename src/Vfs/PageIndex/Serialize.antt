-- ===== src/Vfs/PageIndex/Serialize.antt =====
-- The bytes of a page index and their reading: crates/craftec-vfs/src/page_index.rs.
use craftec.Prelude.{
  ℕ, ◌+◌, ◌*◌, ◌%◌, ◌^◌, ◌<◌, ◌≤◌, ◌≡◌, refl, ap, ap₂, sym, ◌∙◌, arith, List, [], ◌∷◌, ◌++◌, Option,
  none, some, inl, inr, ltb, true, false, if◌then◌else◌, ◌==◌, length, take, drop, Bool-cases,
  length-append, length-take, take-length-append, drop-length-append, drop-drop, take-take, ◌↔◌,
}
use mathlib.Core.List.{append-nil, append_assoc}
use craftec.Prelude.Assoc.{lookup, insert, Distinct, lookup-insert}
use craftec.Prelude.Sort.{
  sort_by_key, lookup-sort_by_key, length-sort_by_key, sort_by_key-AllEntries, sort_by_key-Above,
  Above-Distinct, AllEntries, sort_by_key-ext,
}
use craftec.Prelude.Bytes.{
  to_le_bytes, from_le_bytes, from_le_bytes-to_le_bytes, length-to_le_bytes,
}
use craftec.Prelude.Result.{Result, ok, err}
use craftec.Vfs.PageIndex.{
  PageIndex, VfsError, serialization_error, too_short, truncated, pair_bytes, serialize_entries,
  serialize, slice, read_entries, deserialize,
}

abbrev pub Fits : ℕ → ℕ → Type 0
Fits page_num cid = (page_num < 256 ^ 4) × (cid < 256 ^ 32)

-- No page stands twice, pages are u32 numbers, content ids have 32 bytes, and the count fits a u32.
pub record IsStorable (entries : List (ℕ × ℕ)) : Type 0 where
  pub distinct : Distinct entries
  pub count : length entries < 256 ^ 4
  pub fits : AllEntries Fits entries

take-front : (n : ℕ) (xs ys : List ℕ) → length xs ≡ n → take n (xs ++ ys) ≡ xs
take-front n xs ys e = rw (← e) (take-length-append xs ys)

drop-front : (n : ℕ) (xs ys : List ℕ) → length xs ≡ n → drop n (xs ++ ys) ≡ ys
drop-front n xs ys e = rw (← e) (drop-length-append xs ys)

length-pair_bytes : (pairs : List (ℕ × ℕ)) → length (pair_bytes pairs) ≡ length pairs * 36
unfolding pair_bytes
length-pair_bytes [] = omega arith
length-pair_bytes ((p, c) ∷ pairs) =
    let split = length-append (to_le_bytes 4 p) (to_le_bytes 32 c ++ pair_bytes pairs) in
    let split' = length-append (to_le_bytes 32 c) (pair_bytes pairs) in
    omega (
      arith,
      split,
      split',
      length-to_le_bytes 4 p,
      length-to_le_bytes 32 c,
      length-pair_bytes pairs,
    )

unfoldable pub insert_all : List (ℕ × ℕ) → List (ℕ × ℕ) → List (ℕ × ℕ)
insert_all [] entries = entries
insert_all ((p, c) ∷ pairs) entries = insert_all pairs (insert p c entries)

abbrev pub or_else : Option ℕ → Option ℕ → Option ℕ
or_else none o = o
or_else (some c) o = some c

lookup-insert_all :
    (pairs entries : List (ℕ × ℕ)) (k : ℕ)
    → Distinct pairs
    → lookup k (insert_all pairs entries) ≡ or_else (lookup k pairs) (lookup k entries)
unfolding insert_all lookup
lookup-insert_all [] entries k d = refl
lookup-insert_all ((p, c) ∷ pairs) entries k d =
    lookup-insert_all pairs (insert p c entries) k d.1
    ∙ rw (lookup-insert p k c entries) (elim (Bool-cases (p == k)) [
      | inl h ↦
          let same : p ≡ k = ground arith in
          let gone : lookup k pairs ≡ none = rw (← same) (d.0) in rw (h, gone) refl
      | inr h ↦ rw h refl
    ])

-- Reading the bytes of the pairs inserts them all.
read_entries-pair_bytes :
    (pairs : List (ℕ × ℕ)) (i : ℕ) (bytes rest : List ℕ) (entries : List (ℕ × ℕ))
    → AllEntries Fits pairs
    → drop (4 + i * 36) bytes ≡ pair_bytes pairs ++ rest
    → read_entries (length pairs) i bytes entries ≡ insert_all pairs entries
unfolding read_entries pair_bytes insert_all
read_entries-pair_bytes [] i bytes rest entries a e = refl
read_entries-pair_bytes ((p, c) ∷ pairs) i bytes rest entries a e =
    let off = 4 + i * 36 in
    let tail = pair_bytes pairs ++ rest in
    let here : drop off bytes ≡ to_le_bytes 4 p ++ (to_le_bytes 32 c ++ tail) =
      e
      ∙ (append_assoc (to_le_bytes 4 p) (to_le_bytes 32 c ++ pair_bytes pairs) rest
          ∙ ap (λ t. to_le_bytes 4 p ++ t)
              (append_assoc (to_le_bytes 32 c) (pair_bytes pairs) rest)) in
    let behind : drop (off + 4) bytes ≡ to_le_bytes 32 c ++ tail =
      sym (drop-drop off 4 bytes)
      ∙ (ap (drop 4) here
          ∙ drop-front 4 (to_le_bytes 4 p) (to_le_bytes 32 c ++ tail) (length-to_le_bytes 4 p)) in
    let next : drop (4 + (i + 1) * 36) bytes ≡ tail =
      ap (λ n. drop n bytes) (omega arith)
      ∙ (sym (drop-drop (off + 4) 32 bytes)
          ∙ (ap (drop 32) behind
              ∙ drop-front 32 (to_le_bytes 32 c) tail (length-to_le_bytes 32 c))) in
    let page : from_le_bytes (slice off 4 bytes) ≡ p =
      ap (λ t. from_le_bytes (take 4 t)) here
      ∙ (ap from_le_bytes
            (take-front 4 (to_le_bytes 4 p) (to_le_bytes 32 c ++ tail) (length-to_le_bytes 4 p))
          ∙ from_le_bytes-to_le_bytes 4 p (a.0.0)) in
    let cid : from_le_bytes (slice (off + 4) 32 bytes) ≡ c =
      ap (λ t. from_le_bytes (take 32 t)) behind
      ∙ (ap from_le_bytes (take-front 32 (to_le_bytes 32 c) tail (length-to_le_bytes 32 c))
          ∙ from_le_bytes-to_le_bytes 32 c (a.0.1)) in
    ap₂ (λ x y. read_entries (length pairs) (i + 1) bytes (insert x y entries)) page cid
    ∙ (read_entries-pair_bytes pairs (i + 1) bytes rest (insert p c entries) a.1 next)

module _ (entries : List (ℕ × ℕ)) (v : IsStorable entries) where
  sorted-Fits : AllEntries Fits (sort_by_key entries)
  sorted-Fits = sort_by_key-AllEntries Fits entries v.fits

  sorted-Distinct : Distinct (sort_by_key entries)
  sorted-Distinct = Above-Distinct 0 (sort_by_key entries) (sort_by_key-Above entries v.distinct)

  kept_count : length entries % 2 ^ 32 ≡ length entries
  kept_count = let small = v.count in omega (arith, small)

  header :
      (rest : List ℕ) → take 4 (serialize_entries entries ++ rest) ≡ to_le_bytes 4 (length entries)
  unfolding serialize_entries
  header rest =
      let word = to_le_bytes 4 (length entries % 2 ^ 32) in
      ap (take 4) (append_assoc word (pair_bytes (sort_by_key entries)) rest)
      ∙ (take-front 4 word _ (length-to_le_bytes 4 (length entries % 2 ^ 32))
          ∙ ap (to_le_bytes 4) kept_count)

  body :
      (rest : List ℕ)
      → drop 4 (serialize_entries entries ++ rest) ≡ pair_bytes (sort_by_key entries) ++ rest
  unfolding serialize_entries
  body rest =
      let word = to_le_bytes 4 (length entries % 2 ^ 32) in
      ap (drop 4) (append_assoc word (pair_bytes (sort_by_key entries)) rest)
      ∙ drop-front 4 word _ (length-to_le_bytes 4 (length entries % 2 ^ 32))

  pub length-serialize : length (serialize_entries entries) ≡ 4 + length entries * 36
  unfolding serialize_entries
  length-serialize =
      let pairs = sort_by_key entries in
      let split = length-append (to_le_bytes 4 (length entries % 2 ^ 32)) (pair_bytes pairs) in
      omega (
        arith,
        split,
        length-to_le_bytes 4 (length entries % 2 ^ 32),
        length-pair_bytes pairs,
        length-sort_by_key entries,
      )

  read_count :
      (rest : List ℕ)
      → from_le_bytes (slice 0 4 (serialize_entries entries ++ rest)) ≡ length entries
  read_count rest =
      ap from_le_bytes (header rest) ∙ from_le_bytes-to_le_bytes 4 (length entries) v.count

or_else-nil : (k : ℕ) (o : Option ℕ) → or_else o (lookup {V = ℕ} k []) ≡ o
unfolding lookup
or_else-nil k none = refl
or_else-nil k (some c) = refl

-- The serialised form of a storable index is read back, whatever bytes follow, as an index with the
-- same content id for every page and no root.
pub deserialize-serialize :
    (ix : PageIndex) (rest : List ℕ)
    → IsStorable ix.entries
    → (back : PageIndex) × (deserialize (serialize ix ++ rest) ≡ ok back)
      × ((page_num : ℕ) → lookup page_num back.entries ≡ lookup page_num ix.entries)
      × (back.root_cid ≡ none)
unfolding deserialize
deserialize-serialize ix rest v =
    let bytes = serialize ix ++ rest in
    let pairs = sort_by_key ix.entries in
    let long : 4 + length ix.entries * 36 ≤ length bytes =
      (let split = length-append (serialize ix) rest in
        omega (arith, split, length-serialize ix.entries v)) in
    let not_short : ltb (length bytes) 4 ≡ false = ground arith in
    let not_cut : ltb (length bytes) (4 + length ix.entries * 36) ≡ false = ground arith in
    let count = read_count ix.entries v rest in
    let read : read_entries (length ix.entries) 0 bytes [] ≡ insert_all pairs [] =
      ap (λ n. read_entries n 0 bytes []) (sym (length-sort_by_key ix.entries))
      ∙ read_entries-pair_bytes pairs 0 bytes rest [] (sorted-Fits ix.entries v)
          (body ix.entries v rest) in
    (
      record { entries = insert_all pairs []; root_cid = none },
      rw (not_short, count, not_cut, read) refl,
      λ k.
          lookup-insert_all pairs [] k (sorted-Distinct ix.entries v)
          ∙ (or_else-nil k (lookup k pairs) ∙ lookup-sort_by_key k ix.entries),
      refl,
    )

-- A proper prefix of the serialised form of a storable index is refused: as too short below four
-- bytes, and as truncated from there on, with the length that was expected.
pub deserialize-cut :
    (ix : PageIndex) (n : ℕ)
    → IsStorable ix.entries
    → n < length (serialize ix)
    → deserialize (take n (serialize ix)) ≡ (
        if ltb n 4
        then err (serialization_error too_short)
        else err (serialization_error (truncated (4 + length ix.entries * 36) n)))
unfolding deserialize
deserialize-cut ix n v h =
    let bytes = take n (serialize ix) in
    let size : length bytes ≡ n = omega (arith, length-take n (serialize ix)) in
    elim (Bool-cases (ltb n 4)) [
      | inl e ↦ rw (size, e) refl
      | inr e ↦
          let count : from_le_bytes (take 4 bytes) ≡ length ix.entries =
            ap from_le_bytes (
              take-take 4 n (serialize ix) (ground arith)
              ∙ ap (take 4) (sym (append-nil (serialize ix))))
            ∙ read_count ix.entries v [] in
          let cut : ltb n (4 + length ix.entries * 36) ≡ true =
            (let long = length-serialize ix.entries v in ground arith) in
          rw (size, e, count, cut) refl
    ]

value_or : PageIndex → Result PageIndex VfsError → PageIndex
value_or d (ok ix) = ix
value_or d (err e) = d

-- The form as a function of the sorted entries.
of_sorted : List (ℕ × ℕ) → List ℕ
of_sorted pairs = to_le_bytes 4 (length pairs % 2 ^ 32) ++ pair_bytes pairs

serialize-of_sorted :
    (entries : List (ℕ × ℕ)) → serialize_entries entries ≡ of_sorted (sort_by_key entries)
unfolding serialize_entries of_sorted
serialize-of_sorted entries = rw (length-sort_by_key entries) refl

pub same_form-lookup :
    (a b : PageIndex)
    → IsStorable a.entries
    → IsStorable b.entries
    → serialize a ≡ serialize b
    → (page_num : ℕ) → lookup page_num a.entries ≡ lookup page_num b.entries
unfolding value_or
same_form-lookup a b v w e k =
    let (x, read_x, same_x, root_x) = deserialize-serialize a [] v in
    let (y, read_y, same_y, root_y) = deserialize-serialize b [] w in
    let both : ok x ≡ ok y = sym read_x ∙ (ap (λ t. deserialize (t ++ [])) e ∙ read_y) in
    sym (same_x k) ∙ (ap (λ r. lookup k (value_or a r).entries) both ∙ same_y k)

-- Two storable indexes have the same serialised form exactly if they have the same content id for
-- every page: the form depends on the map alone, not on the order of its entries.
pub serialize_iff :
    (a b : PageIndex)
    → IsStorable a.entries
    → IsStorable b.entries
    → (serialize a ≡ serialize b)
      ↔ ((page_num : ℕ) → lookup page_num a.entries ≡ lookup page_num b.entries)
serialize_iff a b v w = (
  same_form-lookup a b v w,
  λ h.
      serialize-of_sorted a.entries
      ∙ (ap of_sorted (sort_by_key-ext a.entries b.entries v.distinct w.distinct h)
          ∙ sym (serialize-of_sorted b.entries)),
)
