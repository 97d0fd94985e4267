-- ===== src/Vfs/Tests.antt =====
-- Examples for the code: an empty file system over an empty store, and a page that is written and
-- committed.
use craftec.Prelude.{
  ℕ, ◌≡◌, ◌↔◌, ◌++◌, refl, arith, List, [], ◌∷◌, inl, inr, false, none, some, ◌==◌, ltb,
  if◌then◌else◌, replicate, take,
}
use craftec.Prelude.Result.{ok, err}
use craftec.Prelude.Assoc.{lookup, insert, contains_key}
use craftec.Prelude.Sort.{sort_by_key, place}
use craftec.Prelude.Bytes.{to_le_bytes}
use craftec.Obj.Store as Store
use craftec.Obj.Store.{Io, io_error}
use craftec.Obj.Store.Contents.{new-IsValid}
use craftec.Obj.Store.Implements.{object_store, object_store_laws}
use craftec.Obj.Toys.{
  toy_hash, InUse, InUse-collision_free, object_cache, object_cache-IsLru, full_filter,
  full_filter-IsBloom, no_fault, page_lru, page_lru-IsLru,
}
use craftec.Vfs.PageIndex.{
  PageIndex, set, set_root, deserialize, serialize, serialize_entries, pair_bytes,
  serialization_error, too_short, truncated, store_error, from_store,
}
use craftec.Vfs.PageIndex.Serialize.{
  IsStorable, deserialize-serialize, deserialize-cut, serialize_iff,
}
use craftec.Vfs.CidVfs.{
  Snapshot, snapshot, read_page, write_page, commit, put_pages, put_index, resolve_page,
}
use craftec.Vfs.CidVfs.Pages.{Setting, PageFs, content, put_entries}
use craftec.Vfs.CidVfs.Coherent.{IsCoherent}
use craftec.Vfs.CidVfs.Reads.{ReadResult, read_page_lem}
use craftec.Vfs.CidVfs.Commits.{CommitResult, commit_lem}
use craftec.Vfs.CidVfs.Writes.{ReadsBack, commit_write, read-commit-write}
use craftec.Vfs.CidVfs.Snapshots.{
  Later, at_once, then_step, reads, writes, commits, resolve_page-snapshot,
}

abbrev index : PageIndex
index = record { entries = (4, 9) ∷ (3, 2) ∷ []; root_cid = none }

abbrev same_index : PageIndex
same_index = record { entries = (3, 2) ∷ (4, 9) ∷ []; root_cid = some 1 }

index-IsStorable : IsStorable index.entries
unfolding lookup
index-IsStorable = record {
  distinct = (refl, (refl, tt));
  count = omega arith;
  fits = ((omega arith, omega arith), ((omega arith, omega arith), tt));
}

same_index-IsStorable : IsStorable same_index.entries
unfolding lookup
same_index-IsStorable = record {
  distinct = (refl, (refl, tt));
  count = omega arith;
  fits = ((omega arith, omega arith), ((omega arith, omega arith), tt));
}

deserialize-serialize_example :
    (back : PageIndex) × (deserialize (serialize index ++ 1 ∷ []) ≡ ok back)
    × ((page_num : ℕ) → lookup page_num back.entries ≡ lookup page_num index.entries)
    × (back.root_cid ≡ none)
deserialize-serialize_example = deserialize-serialize index (1 ∷ []) index-IsStorable

deserialize-cut_example : deserialize (take 50 (serialize index)) ≡ (
    if ltb 50 4
    then err (serialization_error too_short)
    else err (serialization_error (truncated 76 50)))
unfolding serialize_entries pair_bytes sort_by_key place to_le_bytes
deserialize-cut_example = deserialize-cut index 50 index-IsStorable (omega arith)

serialize_iff_example :
    (serialize index ≡ serialize same_index)
    ↔ ((page_num : ℕ) → lookup page_num index.entries ≡ lookup page_num same_index.entries)
serialize_iff_example = serialize_iff index same_index index-IsStorable same_index-IsStorable

-- The data in use: a page of two bytes, the form of the index that has it as page 0, and those of
-- the one with page 1 too and of the empty one.
abbrev pub canonical : ℕ → List ℕ
canonical n =
    if n == 2
    then 7 ∷ 9 ∷ []
    else if n == 40
    then 1 ∷ 0 ∷ 0 ∷ 0 ∷ 0 ∷ 0 ∷ 0 ∷ 0 ∷ 2 ∷ replicate 31 0
    else if n == 76
    then 2 ∷ 0 ∷ 0 ∷ 0 ∷ 0 ∷ 0 ∷ 0 ∷ 0 ∷ 2 ∷ (replicate 31 0 ++ 1 ∷ 0 ∷ 0 ∷ 0 ∷ 2 ∷ replicate 31 0)
    else if n == 4
    then replicate 4 0
    else []

abbrev pub setting : Setting
setting = record {
  hash = toy_hash;
  Seen = InUse canonical;
  store = object_store toy_hash object_cache full_filter;
  laws =
      object_store_laws toy_hash object_cache full_filter (InUse canonical) object_cache-IsLru
        full_filter-IsBloom (InUse-collision_free canonical);
  lru = page_lru;
  lru_laws = page_lru-IsLru;
  collision_free = InUse-collision_free canonical;
  short = λ a u. u.1;
}

abbrev pub fresh : PageFs setting
fresh = record {
  store = record {
    files = [];
    cache = none;
    bloom = tt;
    metrics = Store.no_metrics;
    listening = false;
    events = [];
  };
  page_index = record { entries = []; root_cid = none };
  page_cache = record { cache = none; hits = 0; misses = 0 };
  dirty_pages = [];
  current_root = none;
  page_size = 2;
}

nothing :
    (cid : ℕ) (bytes : List ℕ)
    → lookup cid [] ≡ some bytes
    → InUse canonical bytes × (toy_hash bytes ≡ cid)
unfolding lookup
nothing cid bytes h = absurd (cc)

no_page :
    (page_num cid : ℕ)
    → lookup page_num [] ≡ some cid
    → (bytes : List ℕ) × (setting.laws.contents fresh.store cid ≡ some bytes)
unfolding lookup
no_page page_num cid h = absurd (cc)

pub fresh-IsCoherent : IsCoherent setting fresh
unfolding Store.new
fresh-IsCoherent = record {
  backed = record {
    stored =
        new-IsValid toy_hash object_cache full_filter (InUse canonical) object_cache-IsLru
          full_filter-IsBloom (InUse-collision_free canonical) 4 [] nothing;
    held = no_page;
  };
  storable = record { distinct = tt; count = omega arith; fits = tt };
  rooted = (refl, λ k. refl);
  cached = λ root page_num bytes e. absurd (cc);
  drafts = tt;
  usable = tt;
}

-- Page 0 was written.
abbrev drafted : PageFs setting
drafted = record fresh { dirty_pages = (0, 7 ∷ 9 ∷ []) ∷ [] }

drafted-IsCoherent : IsCoherent setting drafted
unfolding lookup
drafted-IsCoherent =
    let h = fresh-IsCoherent in
    record {
      backed = h.backed;
      storable = h.storable;
      rooted = h.rooted;
      cached = h.cached;
      drafts = (refl, tt);
      usable = (omega arith, (refl, omega arith), tt);
    }

read_page_lem_example :
    ReadResult setting 0 fresh (read_page toy_hash setting.store page_lru no_fault 0 fresh)
read_page_lem_example = read_page_lem setting no_fault 0 fresh fresh-IsCoherent

commit_lem_example :
    CommitResult setting drafted (commit toy_hash setting.store page_lru (λ i. no_fault) drafted)
unfolding serialize_entries pair_bytes sort_by_key place to_le_bytes put_entries insert
commit_lem_example =
    commit_lem setting (λ i. no_fault) drafted drafted-IsCoherent (omega arith) (refl, omega arith)

committed_40 : (commit_write setting (λ i. no_fault) 0 (7 ∷ 9 ∷ []) fresh).1 ≡ ok 40
unfolding commit write_page put_pages put_index set set_root Store.put Store.contains Store.written
    contains_key lookup insert serialize_entries pair_bytes sort_by_key place to_le_bytes
committed_40 = refl

read-commit-write_example :
    ReadsBack setting no_fault 0
      (7 ∷ 9 ∷ [])
      (commit_write setting (λ i. no_fault) 0 (7 ∷ 9 ∷ []) fresh).0
unfolding serialize_entries pair_bytes sort_by_key place to_le_bytes put_entries insert
read-commit-write_example =
    read-commit-write setting no_fault (λ i. no_fault) 0 (7 ∷ 9 ∷ []) fresh 40 fresh-IsCoherent
      (omega arith) (refl, omega arith) refl (omega arith) (refl, omega arith) committed_40

-- Page 0 was written and committed.
abbrev committed : PageFs setting
committed = (commit toy_hash setting.store page_lru (λ i. no_fault) drafted).0

commit-drafted : (commit toy_hash setting.store page_lru (λ i. no_fault) drafted).1 ≡ ok 40
unfolding commit put_pages put_index set set_root Store.put Store.contains Store.written
    contains_key lookup insert serialize_entries pair_bytes sort_by_key place to_le_bytes
commit-drafted = refl

committed-IsCoherent : IsCoherent setting committed
committed-IsCoherent = elim commit_lem_example [
  | inl (root, answer, now, form, clean, pages, coherent) ↦ coherent
  | inr (inl (e, failed, root, clean)) ↦ let done = commit-drafted in absurd (cc)
  | inr (inr (clean, rootless, answer)) ↦ absurd (cc)
]

abbrev snap : Snapshot
snap = record { root_cid = 40; entries = (0, 2) ∷ [] }

abbrev write_fault : Io
write_fault = record no_fault { write_error = some 5 }

-- Page 1 is written and the commit of it fails at the index; it is written again, committed, and
-- page 0 is read.
abbrev redrafted : PageFs setting
redrafted = (write_page toy_hash setting.store page_lru 1 (7 ∷ 9 ∷ []) committed).0

abbrev refused : PageFs setting
refused = (commit toy_hash setting.store page_lru (λ i. write_fault) redrafted).0

abbrev rewritten : PageFs setting
rewritten = (write_page toy_hash setting.store page_lru 1 (7 ∷ 9 ∷ []) refused).0

abbrev recommitted : PageFs setting
recommitted = (commit toy_hash setting.store page_lru (λ i. no_fault) rewritten).0

abbrev reread : PageFs setting
reread = (read_page toy_hash setting.store page_lru no_fault 0 recommitted).0

commit-redrafted :
    (commit toy_hash setting.store page_lru (λ i. write_fault) redrafted).1
    ≡ err (store_error (from_store (io_error 5)))
unfolding commit write_page put_pages put_index set set_root Store.put Store.contains Store.written
    contains_key lookup insert serialize_entries pair_bytes sort_by_key place to_le_bytes
commit-redrafted = refl

commit-rewritten : (commit toy_hash setting.store page_lru (λ i. no_fault) rewritten).1 ≡ ok 76
unfolding commit write_page put_pages put_index set set_root Store.put Store.contains Store.written
    contains_key lookup insert serialize_entries pair_bytes sort_by_key place to_le_bytes
commit-rewritten = refl

reread-Later : Later setting committed reread
unfolding commit write_page put_pages put_index set set_root Store.put Store.contains Store.written
    contains_key lookup insert serialize_entries pair_bytes sort_by_key place to_le_bytes
    put_entries
reread-Later =
    then_step _ _
      (then_step _ _
        (then_step _ _
          (then_step _ _
            (then_step _ _ at_once (writes 1 (7 ∷ 9 ∷ []) (omega arith) (refl, omega arith)))
            (commits (λ i. write_fault) (refl, omega arith)))
          (writes 1 (7 ∷ 9 ∷ []) (omega arith) (refl, omega arith)))
        (commits (λ i. no_fault) (refl, omega arith)))
      (reads no_fault 0)

snapshot-committed : snapshot toy_hash setting.store page_lru committed ≡ ok snap
unfolding snapshot commit put_pages put_index set set_root Store.put Store.contains Store.written
    contains_key lookup insert serialize_entries pair_bytes sort_by_key place to_le_bytes
snapshot-committed = refl

resolve_page-snapshot_example :
    content setting reread.store (resolve_page 0 snap) ≡ some (7 ∷ 9 ∷ [])
unfolding commit put_pages put_index set set_root Store.put Store.contains Store.written
    contains_key lookup insert serialize_entries pair_bytes sort_by_key place to_le_bytes
resolve_page-snapshot_example =
    resolve_page-snapshot setting committed reread snap 0 committed-IsCoherent snapshot-committed
      reread-Later
