-- ===== src/Vfs/PageCache.antt =====
-- The cache of pages: crates/craftec-vfs/src/page_cache.rs. A key is a root and a page number. The
-- hit rate, a float, is left out.
use craftec.Prelude.{ℕ, ◌+◌, ◌%◌, ◌^◌, List, Option, none, some, max}
use craftec.Prelude.Lru.{Lru}

pub record PageCache (C : Type 0) : Type 0 where
  pub cache : C
  pub hits : ℕ
  pub misses : ℕ

-- `AtomicU64::fetch_add(1)`.
abbrev pub increment : ℕ → ℕ
increment n = (n + 1) % 2 ^ 64

abbrev pub default_capacity : ℕ
default_capacity = 16384

module _ (lru : Lru (ℕ × ℕ) (List ℕ)) where
  unfoldable pub with_capacity : ℕ → PageCache lru.Cache
  with_capacity capacity = record { cache = lru.create (max capacity 1); hits = 0; misses = 0 }

  unfoldable pub get : ℕ → ℕ → PageCache lru.Cache → PageCache lru.Cache × Option (List ℕ)
  get root page_num c =
      let (cache, found) = lru.get (root, page_num) c.cache in
      elim found [
        | some bytes ↦ (record c { cache = cache; hits = increment c.hits }, some bytes)
        | none ↦ (record c { cache = cache; misses = increment c.misses }, none)
      ]

  unfoldable pub put : ℕ → ℕ → List ℕ → PageCache lru.Cache → PageCache lru.Cache
  put root page_num bytes c = record c { cache = lru.put (root, page_num) bytes c.cache }

  unfoldable pub invalidate : ℕ → ℕ → PageCache lru.Cache → PageCache lru.Cache
  invalidate root page_num c = record c { cache = lru.pop (root, page_num) c.cache }

  unfoldable pub len : PageCache lru.Cache → ℕ
  len c = lru.len c.cache
