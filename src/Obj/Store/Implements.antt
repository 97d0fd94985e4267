-- ===== src/Obj/Store/Implements.antt =====
-- The object store keeps what the other parts rely on: crates/craftec-obj/src/store.rs.
use craftec.Prelude.{ℕ, ◌≡◌, refl, List, inl, inr}
use craftec.Prelude.Assoc.{lookup}
use craftec.Prelude.Lru.{Lru, IsLru}
use craftec.Obj.Store.{Bloom, ObjectStore, get, put, io_error}
use craftec.Obj.Interface.{ContentStore, IsContentStore}
use craftec.Obj.Store.Contents.{IsBloom, IsValid, put_lem, get_lem}

module _ (hash : List ℕ → ℕ) (lru : Lru ℕ (List ℕ)) (filter : Bloom) where
  abbrev pub object_store : ContentStore
  object_store = record {
    State = ObjectStore hash lru filter;
    get = get hash lru filter;
    put = put hash lru filter;
  }

  -- The object store implements the interface: seen as a map from content ids to bytes, its valid
  -- states behave as one, where no two data in use have the same hash, the cache and the bloom
  -- filter keep their promises, and a call may fail.
  abbrev pub object_store_laws :
      (Seen : List ℕ → Type 0)
      → IsLru lru
      → IsBloom filter
      → ((a b : List ℕ) → Seen a → Seen b → hash a ≡ hash b → a ≡ b)
      → IsContentStore hash Seen object_store
  object_store_laws Seen lru_laws bloom_laws free = record {
    IsValid = IsValid hash lru filter Seen lru_laws bloom_laws free;
    contents = λ s cid. lookup cid s.files;
    intact = λ s cid bytes v. v.intact cid bytes;
    get-IsValid =
        λ io cid s v. (get_lem hash lru filter Seen lru_laws bloom_laws free io cid s v).0;
    get-contents = λ io cid s v j.
        let same = (get_lem hash lru filter Seen lru_laws bloom_laws free io cid s v).1 in
        rw same refl;
    get_lem = λ io cid s v.
        elim ((get_lem hash lru filter Seen lru_laws bloom_laws free io cid s v).2) [
          | inl e ↦ inl e
          | inr (x, fault, e) ↦ inr (io_error x, e)
        ];
    put-IsValid = λ io bytes s seen v.
        (put_lem hash lru filter Seen lru_laws bloom_laws free io bytes s seen v).0;
    put_lem = λ io bytes s seen v.
        elim ((put_lem hash lru filter Seen lru_laws bloom_laws free io bytes s seen v).1) [
          | inl r ↦ inl r
          | inr (e, failed, same) ↦ inr (e, failed, λ j. rw same refl)
        ];
  }
