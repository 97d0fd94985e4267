-- ===== src/Obj/Store.antt =====
-- The content-addressed store: crates/craftec-obj/src/store.rs, cache.rs, bloom.rs and error.rs. A
-- content id is a number, and `hash` stands for BLAKE3. The files of the shard directories are an
-- association list from content ids; what the file system answers in a call is an argument.
-- Temporary files, the log and the locks are left out. The LRU cache and the bloom filter are
-- third-party code, and so parameters.
pub mod Contents
pub mod Implements
use craftec.Prelude.{
  ℕ, ◌+◌, ◌%◌, ◌^◌, List, [], ◌∷◌, ◌++◌, Option, none, some, Bool, true, false, not, ◌&&◌, ◌==◌,
  if◌then◌else◌, length,
}
use craftec.Prelude.Result.{Result, ok, err}
use craftec.Prelude.Assoc.{lookup, insert, contains_key}
use craftec.Prelude.Assoc.{remove as remove_key}
use craftec.Prelude.Lru.{Lru}

pub data ObjError : Type 0 where
  integrity_violation : ℕ → ℕ → ObjError
  not_found : ℕ → ObjError
  io_error : ℕ → ObjError
  store_full : ObjError
  invalid_cid : List ℕ → List ℕ → ObjError

-- The operations of the `bloomfilter` crate.
pub record Bloom : Type 1 where
  pub Filter : Type 0
  pub create : Filter
  pub set : ℕ → Filter → Filter
  pub check : ℕ → Filter → Bool

-- What the file system answers, where it is asked: the error numbers, if there are any.
pub record Io : Type 0 where
  pub metadata_fails : Bool
  pub write_error : Option ℕ
  pub rename_error : Option ℕ
  pub read_error : Option ℕ
  pub remove_error : Option ℕ

pub record StoreMetrics : Type 0 where
  pub puts : ℕ
  pub gets : ℕ
  pub cache_hits : ℕ
  pub cache_misses : ℕ
  pub bloom_false_positives : ℕ
  pub integrity_violations : ℕ

abbrev pub no_metrics : StoreMetrics
no_metrics = record {
  puts = 0;
  gets = 0;
  cache_hits = 0;
  cache_misses = 0;
  bloom_false_positives = 0;
  integrity_violations = 0;
}

-- `AtomicU64::fetch_add(1)`.
abbrev pub increment : ℕ → ℕ
increment n = (n + 1) % 2 ^ 64

abbrev pub libc_enospc : ℕ
libc_enospc = 28

-- `events` has what was sent, if a sender was set.
pub record Inner (C F : Type 0) : Type 0 where
  pub files : List (ℕ × List ℕ)
  pub cache : C
  pub bloom : F
  pub metrics : StoreMetrics
  pub listening : Bool
  pub events : List ℕ

unfoldable pub write_failure : ℕ → ObjError
write_failure e = if e == libc_enospc then store_full else io_error e

module _ (hash : List ℕ → ℕ) (lru : Lru ℕ (List ℕ)) (filter : Bloom) where
  abbrev pub ObjectStore : Type 0
  ObjectStore = Inner lru.Cache filter.Filter

  unfoldable pub rebuild : List (ℕ × List ℕ) → filter.Filter
  rebuild [] = filter.create
  rebuild ((cid, bytes) ∷ files) = filter.set cid (rebuild files)

  -- Opens the store on the files that are there.
  unfoldable pub new : ℕ → List (ℕ × List ℕ) → ObjectStore
  unfolding rebuild
  new cache_capacity files = record {
    files = files;
    cache = lru.create cache_capacity;
    bloom = rebuild files;
    metrics = no_metrics;
    listening = false;
    events = [];
  }

  unfoldable pub set_event_sender : ObjectStore → ObjectStore
  set_event_sender s = record s { listening = true }

  -- The bloom filter, and then `metadata` on the path.
  unfoldable pub contains : Io → ℕ → ObjectStore → Bool
  unfolding contains_key
  contains io cid s =
      filter.check cid s.bloom && (contains_key cid s.files && not io.metadata_fails)

  -- The end of `put`, once the file stands in its place.
  unfoldable pub written : ℕ → List ℕ → ObjectStore → ObjectStore
  written cid bytes s = record s {
    files = insert cid bytes s.files;
    bloom = filter.set cid s.bloom;
    cache = lru.put cid bytes s.cache;
    events = if s.listening then s.events ++ cid ∷ [] else s.events;
  }

  unfoldable pub put : Io → List ℕ → ObjectStore → ObjectStore × Result ℕ ObjError
  unfolding contains written write_failure
  put io bytes s =
      let cid = hash bytes in
      let s' = record s { metrics = record s.metrics { puts = increment s.metrics.puts } } in
      if contains io cid s' then (s', ok cid) else elim io.write_error [
        | some e ↦ (s', err (write_failure e))
        | none ↦ elim io.rename_error [
          | some e ↦ (s', err (io_error e))
          | none ↦ (written cid bytes s', ok cid)
        ]
      ]

  -- The third and fourth layer of `get`: the file, and its hash.
  unfoldable pub read_file : Io → ℕ → ObjectStore → ObjectStore × Result (Option (List ℕ)) ObjError
  unfolding lookup
  read_file io cid s = elim io.read_error [
    | some e ↦ (s, err (io_error e))
    | none ↦ elim (lookup cid s.files) [
      | none ↦ (
        record s {
          metrics = record s.metrics {
            bloom_false_positives = increment s.metrics.bloom_false_positives;
          };
        },
        ok none,
      )
      | some bytes ↦
          if hash bytes == cid
          then (record s { cache = lru.put cid bytes s.cache }, ok (some bytes))
          else (
            record s {
              metrics = record s.metrics {
                integrity_violations = increment s.metrics.integrity_violations;
              };
            },
            err (integrity_violation cid (hash bytes)),
          )
    ]
  ]

  -- A read of the cache moves the entry in it to the front.
  unfoldable pub get : Io → ℕ → ObjectStore → ObjectStore × Result (Option (List ℕ)) ObjError
  unfolding read_file
  get io cid s =
      let (cache, hit) = lru.get cid s.cache in
      let gets = increment s.metrics.gets in
      elim hit [
        | some bytes ↦ (
          record s {
            cache = cache;
            metrics = record s.metrics { gets = gets; cache_hits = increment s.metrics.cache_hits };
          },
          ok (some bytes),
        )
        | none ↦
            let s' = record s {
              cache = cache;
              metrics = record s.metrics {
                gets = gets;
                cache_misses = increment s.metrics.cache_misses;
              };
            } in
            if filter.check cid s'.bloom then read_file io cid s' else (s', ok none)
      ]

  unfoldable pub delete : Io → ℕ → ObjectStore → ObjectStore × Result Bool ObjError
  unfolding contains_key
  delete io cid s = elim io.remove_error [
    | some e ↦ (s, err (io_error e))
    | none ↦
        if contains_key cid s.files
        then (record s { files = remove_key cid s.files; cache = lru.pop cid s.cache }, ok true)
        else (s, ok false)
  ]

  -- The names of the files in the shard directories.
  unfoldable pub list_cids : ObjectStore → List ℕ
  list_cids s = names s.files
    where
      names : List (ℕ × List ℕ) → List ℕ
      names [] = []
      names ((cid, bytes) ∷ files) = cid ∷ names files

  unfoldable pub object_count : ObjectStore → ℕ
  object_count s = length s.files

  -- The sum of the files' sizes, a u64 number.
  unfoldable pub disk_usage : ObjectStore → ℕ
  disk_usage s = total s.files
    where
      total : List (ℕ × List ℕ) → ℕ
      total [] = 0
      total ((cid, bytes) ∷ files) = (length bytes + total files) % 2 ^ 64
