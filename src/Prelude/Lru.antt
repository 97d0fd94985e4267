-- ===== src/Prelude/Lru.antt =====
-- The `lru` crate's `LruCache`, as the operations that the code calls, with what its documentation
-- promises of them: a lookup finds what was put last under a key, unless it was evicted.
use Prim.Native.Nat.{ℕ}
use mathlib.Core.Logic.{◌≢◌}
use mathlib.Core.Option.{Option, none, some}
use mathlib.Core.Path.{◌≡◌}

pub record Lru (K V : Type 0) : Type 1 where
  pub Cache : Type 0
  pub create : ℕ → Cache
  pub get : K → Cache → Cache × Option V
  pub peek : K → Cache → Option V
  pub put : K → V → Cache → Cache
  pub pop : K → Cache → Cache
  pub len : Cache → ℕ

pub record IsLru {K V : Type 0} (lru : Lru K V) : Type 0 where
  pub peek-create : (k : K) (capacity : ℕ) → lru.peek k (lru.create capacity) ≡ none
  pub get_lem : (k : K) (c : lru.Cache) → (lru.get k c).1 ≡ lru.peek k c
  pub peek-get : (j k : K) (c : lru.Cache) → lru.peek j (lru.get k c).0 ≡ lru.peek j c
  pub peek-put_self :
      (k : K) (v w : V) (c : lru.Cache) → lru.peek k (lru.put k v c) ≡ some w → w ≡ v
  pub peek-put_other :
      (j k : K) (v w : V) (c : lru.Cache)
      → k ≢ j
      → lru.peek j (lru.put k v c) ≡ some w
      → lru.peek j c ≡ some w
  pub peek-pop_self : (k : K) (c : lru.Cache) → lru.peek k (lru.pop k c) ≡ none
  pub peek-pop_other : (j k : K) (c : lru.Cache) → k ≢ j → lru.peek j (lru.pop k c) ≡ lru.peek j c
