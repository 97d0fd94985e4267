-- ===== src/Obj/Store/Contents.antt =====
-- What the object store holds, seen as a map from content ids to bytes:
-- crates/craftec-obj/src/store.rs.
use craftec.Prelude.{
  ℕ, ◌≡◌, ◌≢◌, refl, ap, sym, ◌∙◌, arith, List, [], ◌∷◌, Option, none, some, Bool, true, false, inl,
  inr, ◌⊎◌, ◌&&◌, ◌==◌, if◌then◌else◌, Bool-cases, Option-cases,
}
use craftec.Prelude.Assoc.{lookup, remove, contains_key, lookup-insert, lookup-remove}
use craftec.Prelude.Lru.{Lru, IsLru}
use craftec.Prelude.Result.{Result, ok, err}
use craftec.Obj.Store.{
  ObjError, io_error, Bloom, Io, ObjectStore, increment, rebuild, new, contains, written, put,
  read_file, get, delete,
}

-- What the documentation of the bloom filter promises: no false negatives.
pub record IsBloom (filter : Bloom) : Type 0 where
  pub set_self : (k : ℕ) (f : filter.Filter) → filter.check k (filter.set k f) ≡ true
  pub set_keeps :
      (j k : ℕ) (f : filter.Filter)
      → filter.check j f ≡ true
      → filter.check j (filter.set k f) ≡ true

-- `Seen` is about the data in use, of which no two have the same hash.
module _ (hash : List ℕ → ℕ) (lru : Lru ℕ (List ℕ)) (filter : Bloom) (Seen : List ℕ → Type 0)
    (lru_laws : IsLru lru) (bloom_laws : IsBloom filter)
    (collision_free : (a b : List ℕ) → Seen a → Seen b → hash a ≡ hash b → a ≡ b) where
  -- Every file has the hash of its name, the bloom filter knows it, and what is cached is a file.
  pub record IsValid (s : ObjectStore hash lru filter) : Type 0 where
    pub intact :
        (cid : ℕ) (bytes : List ℕ)
        → lookup cid s.files ≡ some bytes
        → Seen bytes × (hash bytes ≡ cid)
    pub indexed :
        (cid : ℕ) (bytes : List ℕ)
        → lookup cid s.files ≡ some bytes
        → filter.check cid s.bloom ≡ true
    pub backed :
        (cid : ℕ) (bytes : List ℕ)
        → lru.peek cid s.cache ≡ some bytes
        → lookup cid s.files ≡ some bytes

  -- The cache may hold any file.
  cached-IsValid :
      (s t : ObjectStore hash lru filter)
      → t.files ≡ s.files
      → t.bloom ≡ s.bloom
      → ((cid : ℕ) (bytes : List ℕ)
          → lru.peek cid t.cache ≡ some bytes
          → lookup cid s.files ≡ some bytes)
      → IsValid s
      → IsValid t
  cached-IsValid s t f b held v = record {
    intact = λ cid bytes h. v.intact cid bytes (rw (← f) h);
    indexed = λ cid bytes h. rw b (v.indexed cid bytes (rw (← f) h));
    backed = λ cid bytes h. rw f (held cid bytes h);
  }

  put_same :
      (cid j : ℕ) (bytes b : List ℕ) (c : lru.Cache)
      → cid ≡ j
      → lru.peek j (lru.put cid bytes c) ≡ some b
      → b ≡ bytes
  put_same cid j bytes b c same h =
      lru_laws.peek-put_self cid bytes b c (ap (λ i. lru.peek i (lru.put cid bytes c)) same ∙ h)

  put-held :
      (cid : ℕ) (bytes : List ℕ) (s : ObjectStore hash lru filter)
      → lookup cid s.files ≡ some bytes
      → IsValid s
      → (j : ℕ) (b : List ℕ) → lru.peek j (lru.put cid bytes s.cache) ≡ some b
      → lookup j s.files ≡ some b
  put-held cid bytes s here v j b h = elim (Bool-cases (cid == j)) [
    | inl e ↦
        let same : cid ≡ j = ground arith in
        let value : b ≡ bytes = put_same cid j bytes b s.cache same h in rw (← same, value) here
    | inr e ↦
        let other : cid ≢ j = ground arith in
        v.backed j b (lru_laws.peek-put_other j cid bytes b s.cache other h)
  ]

  written-IsValid :
      (bytes : List ℕ) (s : ObjectStore hash lru filter)
      → Seen bytes
      → IsValid s
      → IsValid (written hash lru filter (hash bytes) bytes s)
  unfolding written
  written-IsValid bytes s seen v = record {
    intact = λ cid b h. elim (Bool-cases (hash bytes == cid)) [
      | inl e ↦
          let h' : some bytes ≡ some b =
            rw (lookup-insert (hash bytes) cid bytes s.files, e) at h in
          let same : bytes ≡ b = (cc) in rw (← same) (seen, ground arith)
      | inr e ↦ v.intact cid b (rw (lookup-insert (hash bytes) cid bytes s.files, e) at h)
    ];
    indexed = λ cid b h. elim (Bool-cases (hash bytes == cid)) [
      | inl e ↦
          let same : hash bytes ≡ cid = ground arith in
          rw (← same) (bloom_laws.set_self (hash bytes) s.bloom)
      | inr e ↦
          bloom_laws.set_keeps cid (hash bytes) s.bloom
            (v.indexed cid b (rw (lookup-insert (hash bytes) cid bytes s.files, e) at h))
    ];
    backed = λ cid b h.
        rw (lookup-insert (hash bytes) cid bytes s.files) (elim (Bool-cases (hash bytes == cid)) [
          | inl e ↦
              let same : hash bytes ≡ cid = ground arith in
              let value : b ≡ bytes = put_same (hash bytes) cid bytes b s.cache same h in
              rw (e, value) refl
          | inr e ↦
              let other : hash bytes ≢ cid = ground arith in
              rw e
                (v.backed cid b (lru_laws.peek-put_other cid (hash bytes) bytes b s.cache other h))
        ]);
  }

  -- The files after a successful `put`.
  abbrev pub Holds : List ℕ → ObjectStore hash lru filter → ObjectStore hash lru filter → Type 0
  Holds bytes s t =
      (cid : ℕ)
      → lookup cid t.files ≡ (if hash bytes == cid then some bytes else lookup cid s.files)

  -- A file with this name holds these bytes already.
  present-Holds :
      (bytes : List ℕ) (s t : ObjectStore hash lru filter)
      → t.files ≡ s.files
      → lookup (hash bytes) s.files ≡ some bytes
      → Holds bytes s t
  present-Holds bytes s t same here cid = elim (Bool-cases (hash bytes == cid)) [
    | inl e ↦ let q : hash bytes ≡ cid = ground arith in rw (e, same, ← q) here
    | inr e ↦ rw (e, same) refl
  ]

  contains-found :
      (io : Io) (cid : ℕ) (s : ObjectStore hash lru filter)
      → contains hash lru filter io cid s ≡ true
      → (bytes : List ℕ) × (lookup cid s.files ≡ some bytes)
  unfolding contains contains_key
  contains-found io cid s h = elim (Option-cases (lookup cid s.files)) [
    | inl e ↦ absurd (missing (filter.check cid s.bloom) (rw (e, contains_key) at h))
    | inr (bytes, e) ↦ (bytes, e)
  ]
    where
      missing : (b : Bool) → (b && false) ≡ true → ⊥
      missing true q = cc
      missing false q = cc

  abbrev pub PutResult :
      List ℕ
      → ObjectStore hash lru filter
      → ObjectStore hash lru filter × Result ℕ ObjError
      → Type 0
  PutResult bytes s r =
      IsValid r.0
      × (((r.1 ≡ ok (hash bytes)) × Holds bytes s r.0)
          ⊎ ((e : ObjError) × (r.1 ≡ err e) × (r.0.files ≡ s.files)))

  -- From a valid store, putting data in use keeps the store valid, and either answers its hash as
  -- the content id, and then the id names exactly the data and every other id what it did, or
  -- answers an error, and then no file has changed.
  pub put_lem :
      (io : Io) (bytes : List ℕ) (s : ObjectStore hash lru filter)
      → Seen bytes
      → IsValid s
      → PutResult bytes s (put hash lru filter io bytes s)
  unfolding put
  put_lem io bytes s seen v =
      let s' : ObjectStore hash lru filter = record s {
        metrics = record s.metrics { puts = increment s.metrics.puts };
      } in
      let v' = cached-IsValid s s' refl refl v.backed v in
      elim (Bool-cases (contains hash lru filter io (hash bytes) s')) [
        | inl h ↦
            let (old, e) = contains-found io (hash bytes) s' h in
            let known = v.intact (hash bytes) old e in
            let same : old ≡ bytes = collision_free old bytes known.0 seen known.1 in
            rw (h, put) (v', inl (refl, present-Holds bytes s s' refl (e ∙ ap some same)))
        | inr h ↦ elim (Option-cases io.write_error) [
          | inl w ↦ elim (Option-cases io.rename_error) [
            | inl r ↦
                rw (h, put, w, r)
                  (
                    written-IsValid bytes s' seen v',
                    inl (
                      refl,
                      λ cid. unfold written in lookup-insert (hash bytes) cid bytes s.files,
                    ),
                  )
            | inr (x, r) ↦ rw (h, put, w, r) (v', inr (_, refl, refl))
          ]
          | inr (x, w) ↦ rw (h, put, w) (v', inr (_, refl, refl))
        ]
      ]

  abbrev pub GetResult :
      Io
      → ℕ
      → ObjectStore hash lru filter
      → ObjectStore hash lru filter × Result (Option (List ℕ)) ObjError
      → Type 0
  GetResult io cid s r =
      IsValid r.0
      × (r.0.files ≡ s.files)
      × ((r.1 ≡ ok (lookup cid s.files))
          ⊎ ((e : ℕ) × (io.read_error ≡ some e) × (r.1 ≡ err (io_error e))))

  read_file_lem :
      (io : Io) (cid : ℕ) (s : ObjectStore hash lru filter)
      → IsValid s
      → GetResult io cid s (read_file hash lru filter io cid s)
  unfolding read_file
  read_file_lem io cid s v = elim (Option-cases io.read_error) [
    | inr (x, r) ↦ rw (r, read_file) (v, refl, inr (x, refl, refl))
    | inl r ↦ elim (Option-cases (lookup cid s.files)) [
      | inl e ↦ rw (r, read_file, e) (cached-IsValid s _ refl refl v.backed v, refl, inl refl)
      | inr (bytes, e) ↦
          let good : (hash bytes == cid) ≡ true =
            (let q = (v.intact cid bytes e).1 in ground arith) in
          rw (r, read_file, e, good)
            (
              cached-IsValid s (record s { cache = lru.put cid bytes s.cache }) refl refl
                  (put-held cid bytes s e v) v,
              refl,
              inl refl,
            )
    ]
  ]

  -- From a valid store, a read keeps the store valid and every file, and answers what the content
  -- id names, unless the file system fails to read; a damaged file is never met.
  pub get_lem :
      (io : Io) (cid : ℕ) (s : ObjectStore hash lru filter)
      → IsValid s
      → GetResult io cid s (get hash lru filter io cid s)
  unfolding get
  get_lem io cid s v =
      let c = (lru.get cid s.cache).0 in
      let gets = increment s.metrics.gets in
      let hit : ObjectStore hash lru filter = record s {
        cache = c;
        metrics = record s.metrics { gets = gets; cache_hits = increment s.metrics.cache_hits };
      } in
      let miss : ObjectStore hash lru filter = record s {
        cache = c;
        metrics = record s.metrics { gets = gets; cache_misses = increment s.metrics.cache_misses };
      } in
      let held : (j : ℕ) (b : List ℕ) → lru.peek j c ≡ some b → lookup j s.files ≡ some b =
        λ j b h. v.backed j b (sym (lru_laws.peek-get j cid s.cache) ∙ h) in
      elim (Option-cases ((lru.get cid s.cache).1)) [
        | inr (bytes, e) ↦
            let here = v.backed cid bytes (sym (lru_laws.get_lem cid s.cache) ∙ e) in
            rw (e, get) (cached-IsValid s hit refl refl held v, refl, inl (ap ok (sym here)))
        | inl e ↦
            let v' = cached-IsValid s miss refl refl held v in
            elim (Bool-cases (filter.check cid s.bloom)) [
              | inl h ↦ rw (e, get, h) (read_file_lem io cid miss v')
              | inr h ↦
                  rw (e, get, h)
                    (
                      v',
                      refl,
                      inl (elim (Option-cases (lookup cid s.files)) [
                        | inl n ↦ ap ok (sym n)
                        | inr (b, n) ↦ let q = v.indexed cid b n in absurd (cc)
                      ]),
                    )
            ]
      ]

  contains_key-false :
      (cid : ℕ) (files : List (ℕ × List ℕ))
      → contains_key cid files ≡ false
      → lookup cid files ≡ none
  unfolding contains_key
  contains_key-false cid files h = elim (Option-cases (lookup cid files)) [
    | inl e ↦ e
    | inr (b, e) ↦ let q : true ≡ false = rw (e, contains_key) at h in absurd (cc)
  ]

  abbrev pub DeleteResult :
      Io
      → ℕ
      → ObjectStore hash lru filter
      → ObjectStore hash lru filter × Result Bool ObjError
      → Type 0
  DeleteResult io cid s r =
      IsValid r.0
      × (((r.1 ≡ ok (contains_key cid s.files))
            × ((j : ℕ) → lookup j r.0.files ≡ (if cid == j then none else lookup j s.files)))
          ⊎ ((e : ℕ) × (io.remove_error ≡ some e) × (r ≡ (s, err (io_error e)))))

  -- From a valid store, a deletion keeps the store valid, and either removes exactly the one file
  -- and tells whether it was there, or answers the error of the file system and changes nothing.
  pub delete_lem :
      (io : Io) (cid : ℕ) (s : ObjectStore hash lru filter)
      → IsValid s
      → DeleteResult io cid s (delete hash lru filter io cid s)
  unfolding delete
  delete_lem io cid s v = elim (Option-cases io.remove_error) [
    | inr (x, r) ↦ rw (r, delete) (v, inr (x, refl, refl))
    | inl r ↦ elim (Bool-cases (contains_key cid s.files)) [
      | inl h ↦ rw (r, delete, h) (removed, inl (refl, λ j. lookup-remove cid j s.files))
      | inr h ↦
          rw (r, delete, h)
            (
              v,
              inl (
                refl,
                λ j. elim (Bool-cases (cid == j)) [
                  | inl e ↦
                      let same : cid ≡ j = ground arith in
                      rw (e, ← same) (contains_key-false cid s.files h)
                  | inr e ↦ rw e refl
                ],
              ),
            )
    ]
  ]
    where
      removed : IsValid (record s { files = remove cid s.files; cache = lru.pop cid s.cache })
      removed = record {
        intact = λ j b h. elim (Bool-cases (cid == j)) [
          | inl e ↦ let h' = rw (lookup-remove cid j s.files, e) at h in absurd (cc)
          | inr e ↦ v.intact j b (rw (lookup-remove cid j s.files, e) at h)
        ];
        indexed = λ j b h. elim (Bool-cases (cid == j)) [
          | inl e ↦ let h' = rw (lookup-remove cid j s.files, e) at h in absurd (cc)
          | inr e ↦ v.indexed j b (rw (lookup-remove cid j s.files, e) at h)
        ];
        backed = λ j b h. elim (Bool-cases (cid == j)) [
          | inl e ↦
              let same : cid ≡ j = ground arith in
              let gone = lru_laws.peek-pop_self cid s.cache in
              let h' : lru.peek cid (lru.pop cid s.cache) ≡ some b =
                ap (λ i. lru.peek i (lru.pop cid s.cache)) same ∙ h in
              absurd (cc)
          | inr e ↦
              let other : cid ≢ j = ground arith in
              rw (lookup-remove cid j s.files, e)
                (v.backed j b (sym (lru_laws.peek-pop_other j cid s.cache other) ∙ h))
        ];
      }

  -- The store refines a map from content ids to bytes. From a valid store, each operation keeps it
  -- valid. Putting data in use either answers its hash and makes that id name exactly the data,
  -- leaving the others, or answers an error and changes no file. A read changes no file and answers
  -- what the id names, unless the file system fails to read. A deletion removes exactly the one
  -- file and tells whether it was there, or answers the file system's error and changes nothing.
  pub store_lem :
      (io : Io) (bytes : List ℕ) (cid : ℕ) (s : ObjectStore hash lru filter)
      → Seen bytes
      → IsValid s
      → PutResult bytes s (put hash lru filter io bytes s)
        × GetResult io cid s (get hash lru filter io cid s)
        × DeleteResult io cid s (delete hash lru filter io cid s)
  store_lem io bytes cid s seen v =
      (put_lem io bytes s seen v, get_lem io cid s v, delete_lem io cid s v)

  rebuild-check :
      (files : List (ℕ × List ℕ)) (cid : ℕ) (bytes : List ℕ)
      → lookup cid files ≡ some bytes
      → filter.check cid (rebuild hash lru filter files) ≡ true
  unfolding rebuild lookup
  rebuild-check [] cid bytes h = absurd (cc)
  rebuild-check ((c, b) ∷ files) cid bytes h = elim (Bool-cases (c == cid)) [
    | inl e ↦
        let same : c ≡ cid = ground arith in
        rw (← same) (bloom_laws.set_self c (rebuild hash lru filter files))
    | inr e ↦
        bloom_laws.set_keeps cid c (rebuild hash lru filter files)
          (rebuild-check files cid bytes (rw e at h))
  ]

  -- A store opened on undamaged files is valid.
  pub new-IsValid :
      (capacity : ℕ) (files : List (ℕ × List ℕ))
      → ((cid : ℕ) (bytes : List ℕ)
          → lookup cid files ≡ some bytes
          → Seen bytes × (hash bytes ≡ cid))
      → IsValid (new hash lru filter capacity files)
  unfolding new
  new-IsValid capacity files good = record {
    intact = good;
    indexed = rebuild-check files;
    backed = λ cid bytes h. let q = lru_laws.peek-create cid capacity in absurd (cc);
  }
