-- ===== src/Vfs/CidVfs.antt =====
-- Pages over the object store: crates/craftec-vfs/src/vfs.rs and snapshot.rs. The store and the LRU
-- cache are parameters, and what the file system answers in a call is an argument. The order of
-- the dirty pages in their list stands for the iteration order of the map. Each operation is one
-- step: the log, the locks and the time of a snapshot are left out.
pub mod Pages
pub mod Puts
pub mod Coherent
pub mod Reads
pub mod Commits
pub mod Writes
pub mod Keeps
pub mod Snapshots
use craftec.Prelude.{
  ℕ, zero, suc, ◌+◌, ◌^◌, List, [], ◌∷◌, Option, none, some, Bool, true, false, not, ◌&&◌, ◌||◌,
  ltb, leb, ◌==◌, if◌then◌else◌, length,
}
use craftec.Prelude.Result.{Result, ok, err}
use craftec.Prelude.Assoc.{lookup, insert}
use craftec.Prelude.Lru.{Lru}
use craftec.Obj.Store.{Io, ObjError}
use craftec.Obj.Interface.{ContentStore}
use craftec.Vfs.PageCache.{PageCache, default_capacity}
use craftec.Vfs.PageCache as Cache
use craftec.Vfs.PageIndex.{
  PageIndex, VfsError, page_not_found, integrity_check_failed, store_error, invalid_page_size,
  no_root_cid, from_store, missing_from_store, empty_index, set, set_root, serialize,
}

pub record CidVfs (S C : Type 0) : Type 0 where
  pub store : S
  pub page_index : PageIndex
  pub page_cache : PageCache C
  pub dirty_pages : List (ℕ × List ℕ)
  pub current_root : Option ℕ
  pub page_size : ℕ

pub record Snapshot : Type 0 where
  pub root_cid : ℕ
  pub entries : List (ℕ × ℕ)

abbrev pub default_page_size : ℕ
default_page_size = 16384

-- A power of two that a `usize` can hold.
unfoldable pub is_power_of_two_below : ℕ → ℕ → Bool
is_power_of_two_below zero n = false
is_power_of_two_below (suc w) n = if n == 2 ^ w then true else is_power_of_two_below w n

unfoldable pub is_power_of_two : ℕ → Bool
unfolding is_power_of_two_below
is_power_of_two n = is_power_of_two_below 64 n

abbrev pub root_or_none : Option ℕ → Result ℕ VfsError
root_or_none none = err no_root_cid
root_or_none (some root) = ok root

-- The root that a read is cached under.
abbrev pub cache_root : Option ℕ → ℕ
cache_root none = 0
cache_root (some root) = root

module _ (hash : List ℕ → ℕ) (store : ContentStore) (lru : Lru (ℕ × ℕ) (List ℕ)) where
  abbrev pub Vfs : Type 0
  Vfs = CidVfs store.State lru.Cache

  unfoldable pub new : store.State → ℕ → Result Vfs VfsError
  unfolding is_power_of_two Cache.with_capacity
  new s page_size =
      if not (leb 512 page_size && leb page_size 65536) || not (is_power_of_two page_size)
      then err (invalid_page_size page_size)
      else ok (record {
        store = s;
        page_index = empty_index;
        page_cache = Cache.with_capacity lru default_capacity;
        dirty_pages = [];
        current_root = none;
        page_size = page_size;
      })

  -- Steps 4 and 5 of `read_page`, on what the store answered for the page's content id.
  unfoldable pub check_fetched :
      ℕ → ℕ → ℕ → Result (Option (List ℕ)) ObjError → Vfs → Vfs × Result (List ℕ) VfsError
  unfolding Cache.put
  check_fetched root page_num cid (err e) v = (v, err (store_error (from_store e)))
  check_fetched root page_num cid (ok none) v = (v, err (store_error (missing_from_store cid)))
  check_fetched root page_num cid (ok (some bytes)) v =
      if hash bytes == cid
      then (record v { page_cache = Cache.put lru root page_num bytes v.page_cache }, ok bytes)
      else (v, err (integrity_check_failed page_num cid (hash bytes)))

  -- Steps 2 to 5, after a miss of the cache.
  unfoldable pub fetch_page : Io → ℕ → ℕ → Vfs → Vfs × Result (List ℕ) VfsError
  unfolding check_fetched lookup
  fetch_page io root page_num v = elim (lookup page_num v.page_index.entries) [
    | none ↦ (v, err (page_not_found page_num))
    | some cid ↦
        let (s, answer) = store.get io cid v.store in
        check_fetched root page_num cid answer (record v { store = s })
  ]

  unfoldable pub read_page : Io → ℕ → Vfs → Vfs × Result (List ℕ) VfsError
  unfolding fetch_page Cache.get
  read_page io page_num v =
      let root = cache_root v.current_root in
      let (cache, found) = Cache.get lru root page_num v.page_cache in
      let v' = record v { page_cache = cache } in
      elim found [ some bytes ↦ (v', ok bytes) | none ↦ fetch_page io root page_num v' ]

  unfoldable pub write_page : ℕ → List ℕ → Vfs → Vfs × Result (Unit {0}) VfsError
  write_page page_num bytes v =
      if length bytes == v.page_size
      then (record v { dirty_pages = insert page_num bytes v.dirty_pages }, ok tt)
      else (v, err (invalid_page_size (length bytes)))

  -- Steps 2 and 3 of `commit`: the loop over the drained pages. `io i` is about the i-th of them.
  unfoldable pub put_pages :
      (ℕ → Io) → ℕ → List (ℕ × List ℕ) → Vfs → Vfs × Result (Unit {0}) VfsError
  put_pages io i [] v = (v, ok tt)
  put_pages io i ((page_num, bytes) ∷ dirty) v =
      let (s, answer) = store.put (io i) bytes v.store in
      elim answer [
        | err e ↦ (record v { store = s }, err (store_error (from_store e)))
        | ok cid ↦
            put_pages io (i + 1) dirty
              (record v { store = s; page_index = set page_num cid v.page_index })
      ]

  -- Steps 4 to 7.
  unfoldable pub put_index : Io → Vfs → Vfs × Result ℕ VfsError
  put_index io v =
      let (s, answer) = store.put io (serialize v.page_index) v.store in
      elim answer [
        | err e ↦ (record v { store = s }, err (store_error (from_store e)))
        | ok new_root ↦ (
          record v {
            store = s;
            page_index = set_root new_root v.page_index;
            current_root = some new_root;
          },
          ok new_root,
        )
      ]

  unfoldable pub commit : (ℕ → Io) → Vfs → Vfs × Result ℕ VfsError
  unfolding put_pages put_index
  commit io v =
      let drained = record v { dirty_pages = [] } in
      elim v.dirty_pages [
        | [] ↦ (drained, root_or_none v.current_root)
        | page ∷ pages ↦
            let (v', answer) = put_pages io 0 (page ∷ pages) drained in
            elim answer [
              | err e ↦ (v', err e)
              | ok done ↦ put_index (io (length (page ∷ pages))) v'
            ]
      ]

  unfoldable pub snapshot : Vfs → Result Snapshot VfsError
  snapshot v = elim v.current_root [
    | none ↦ err no_root_cid
    | some root ↦ ok (record { root_cid = root; entries = v.page_index.entries })
  ]

unfoldable pub resolve_page : ℕ → Snapshot → Option ℕ
unfolding lookup
resolve_page page_num snap = lookup page_num snap.entries
