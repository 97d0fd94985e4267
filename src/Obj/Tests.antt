-- ===== src/Obj/Tests.antt =====
-- Examples for the code: a store with one object.
use craftec.Prelude.{
  ℕ, ◌≡◌, refl, arith, List, [], ◌∷◌, some, ◌==◌, if◌then◌else◌, Bool-cases, inl, inr,
}
use craftec.Prelude.Assoc.{lookup}
use craftec.Obj.Store.{ObjectStore, new, get, put, delete}
use craftec.Obj.Store.Contents.{IsValid, GetResult, PutResult, DeleteResult, store_lem, new-IsValid}
use craftec.Obj.Toys.{
  toy_hash, InUse, InUse-collision_free, object_cache, object_cache-IsLru, full_filter,
  full_filter-IsBloom, no_fault,
}

-- The data in use: the bytes 7, 9 and the byte 5.
abbrev canonical : ℕ → List ℕ
canonical n = if n == 2 then 7 ∷ 9 ∷ [] else if n == 1 then 5 ∷ [] else []

abbrev Used : List ℕ → Type 0
Used = InUse canonical

abbrev opened : ObjectStore toy_hash object_cache full_filter
opened = new toy_hash object_cache full_filter 4 ((2, 7 ∷ 9 ∷ []) ∷ [])

abbrev Sound : ObjectStore toy_hash object_cache full_filter → Type 0
Sound =
    IsValid toy_hash object_cache full_filter Used object_cache-IsLru full_filter-IsBloom
      (InUse-collision_free canonical)

intact :
    (cid : ℕ) (bytes : List ℕ)
    → lookup cid ((2, 7 ∷ 9 ∷ []) ∷ []) ≡ some bytes
    → Used bytes × (toy_hash bytes ≡ cid)
unfolding lookup
intact cid bytes h = elim (Bool-cases (2 == cid)) [
  | inl e ↦
      let h' = rw e at h in
      let same : 7 ∷ 9 ∷ [] ≡ bytes = (cc) in rw (← same) ((refl, omega arith), ground arith)
  | inr e ↦ let h' = rw e at h in absurd (cc)
]

opened-Sound : Sound opened
opened-Sound =
    new-IsValid toy_hash object_cache full_filter Used object_cache-IsLru full_filter-IsBloom
      (InUse-collision_free canonical) 4 ((2, 7 ∷ 9 ∷ []) ∷ []) intact

store_lem_example :
    PutResult toy_hash object_cache full_filter Used object_cache-IsLru full_filter-IsBloom
      (InUse-collision_free canonical)
      (5 ∷ [])
      opened
      (put toy_hash object_cache full_filter no_fault (5 ∷ []) opened)
    × GetResult toy_hash object_cache full_filter Used object_cache-IsLru full_filter-IsBloom
        (InUse-collision_free canonical)
        no_fault
        2
        opened
        (get toy_hash object_cache full_filter no_fault 2 opened)
    × DeleteResult toy_hash object_cache full_filter Used object_cache-IsLru full_filter-IsBloom
        (InUse-collision_free canonical)
        no_fault
        2
        opened
        (delete toy_hash object_cache full_filter no_fault 2 opened)
store_lem_example =
    store_lem toy_hash object_cache full_filter Used object_cache-IsLru full_filter-IsBloom
      (InUse-collision_free canonical) no_fault (5 ∷ []) 2 opened (refl, omega arith) opened-Sound
