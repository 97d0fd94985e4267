-- ===== src/Obj/Interface.antt =====
-- What the other parts use of the object store: its reads and writes, and what they promise.
use craftec.Prelude.{ℕ, ◌≡◌, ◌⊎◌, List, Option, some, ◌==◌, if◌then◌else◌}
use craftec.Prelude.Result.{Result, ok, err}
use craftec.Obj.Store.{Io, ObjError}

pub record ContentStore : Type 1 where
  pub State : Type 0
  pub get : Io → ℕ → State → State × Result (Option (List ℕ)) ObjError
  pub put : Io → List ℕ → State → State × Result ℕ ObjError

-- The store is a map from content ids to data in use. A call that fails changes nothing in it.
pub record IsContentStore (hash : List ℕ → ℕ) (Seen : List ℕ → Type 0) (store : ContentStore)
    : Type 1 where
  pub IsValid : store.State → Type 0
  pub contents : store.State → ℕ → Option (List ℕ)
  pub intact :
      (s : store.State) (cid : ℕ) (bytes : List ℕ)
      → IsValid s
      → contents s cid ≡ some bytes
      → Seen bytes × (hash bytes ≡ cid)
  pub get-IsValid :
      (io : Io) (cid : ℕ) (s : store.State) → IsValid s → IsValid (store.get io cid s).0
  pub get-contents :
      (io : Io) (cid : ℕ) (s : store.State)
      → IsValid s
      → (j : ℕ) → contents (store.get io cid s).0 j ≡ contents s j
  pub get_lem :
      (io : Io) (cid : ℕ) (s : store.State)
      → IsValid s
      → ((store.get io cid s).1 ≡ ok (contents s cid))
        ⊎ ((e : ObjError) × ((store.get io cid s).1 ≡ err e))
  pub put-IsValid :
      (io : Io) (bytes : List ℕ) (s : store.State)
      → Seen bytes
      → IsValid s
      → IsValid (store.put io bytes s).0
  pub put_lem :
      (io : Io) (bytes : List ℕ) (s : store.State)
      → Seen bytes
      → IsValid s
      → (((store.put io bytes s).1 ≡ ok (hash bytes))
          × ((j : ℕ)
              → contents (store.put io bytes s).0 j
                ≡ (if hash bytes == j then some bytes else contents s j)))
        ⊎ ((e : ObjError) × ((store.put io bytes s).1 ≡ err e)
            × ((j : ℕ) → contents (store.put io bytes s).0 j ≡ contents s j))
