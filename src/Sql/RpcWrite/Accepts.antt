-- ===== src/Sql/RpcWrite/Accepts.antt =====
-- Which writes reach the database: crates/craftec-sql/src/rpc_write.rs and commit.rs.
use craftec.Prelude.{
  ℕ, ◌≡◌, ◌≢◌, refl, ap, arith, List, Option, none, some, Bool, true, false, inl, inr, ◌⊎◌, ◌==◌,
  Bool-cases,
}
use craftec.Prelude.Result.{Result, ok, err}
use craftec.Prelude.Lru.{Lru}
use craftec.Types.Identity.{verify}
use craftec.Obj.Store.{Io}
use craftec.Obj.Interface.{ContentStore}
use craftec.Sql.Commit.{
  SqlError, check_roots, check_cas, check_ownership, invalid_signature, unauthorized_writer,
  cas_conflict,
}
use craftec.Sql.Database.{SignedWrite, Libsql, Database, mutate, execute}
use craftec.Sql.RpcWrite.{build_signed_payload, verify_signature, handle_signed_write}

-- No root is expected, or the one that is there.
abbrev pub IsCurrent : Option ℕ → ℕ → Type 0
IsCurrent none root = Unit
IsCurrent (some expected) root = expected ≡ root

abbrev pub IsStale : Option ℕ → ℕ → SqlError → Type 0
IsStale none root e = ⊥
IsStale (some expected) root e = (expected ≢ root) × (e ≡ cas_conflict expected root)

roots_lem :
    (expected : Option ℕ) (root : ℕ)
    → ((check_roots expected (some root) ≡ ok tt) × IsCurrent expected root)
      ⊎ ((e : SqlError) × (check_roots expected (some root) ≡ err e) × IsStale expected root e)
unfolding check_roots
roots_lem none root = inl (refl, tt)
roots_lem (some expected) root = elim (Bool-cases (expected == root)) [
  | inl e ↦ inl (rw e refl, ground arith)
  | inr e ↦
      let other : expected ≢ root = ground arith in
      inr (cas_conflict expected root, rw e refl, (other, refl))
]

module _ {Key Sig : Type 0} (parse_key : ℕ → Option Key) (check : Key → List ℕ → Sig → Bool)
    (hash : List ℕ → ℕ) (store : ContentStore) (lru : Lru (ℕ × ℕ) (List ℕ)) (engine : Libsql) where
  abbrev pub signed : SignedWrite Sig → Bool
  signed msg =
      verify parse_key check (build_signed_payload msg.writer msg.sql msg.expected_root)
        msg.signature msg.writer

  -- The first check that fails.
  abbrev pub IsDenied : SignedWrite Sig → Database hash store lru engine → SqlError → Type 0
  IsDenied msg db e =
      ((signed msg ≡ false) × (e ≡ invalid_signature msg.writer))
      ⊎ (((signed msg ≡ true)
            × (msg.writer ≢ db.owner)
            × (e ≡ unauthorized_writer msg.writer db.owner))
          ⊎ ((signed msg ≡ true)
              × (msg.writer ≡ db.owner)
              × IsStale msg.expected_root db.root_cid e))

  abbrev pub IsAuthorised : SignedWrite Sig → Database hash store lru engine → Type 0
  IsAuthorised msg db =
      (signed msg ≡ true) × (msg.writer ≡ db.owner) × IsCurrent msg.expected_root db.root_cid

  -- The answer says how the statement went.
  abbrev pub Follows :
      Database hash store lru engine × Result ℕ SqlError
      → Database hash store lru engine × Result (Unit {0}) SqlError
      → Type 0
  Follows r done =
      (r.0 ≡ done.0)
      × (((done.1 ≡ ok tt) × (r.1 ≡ ok (r.0.root_cid)))
          ⊎ ((e : SqlError) × (done.1 ≡ err e) × (r.1 ≡ err e)))

  abbrev pub Outcome : (ℕ → Io) → SignedWrite Sig → Database hash store lru engine → Type 0
  Outcome ios msg db =
      ((handle_signed_write parse_key check hash store lru engine ios msg db).0 ≡ db)
        × ((e : SqlError) × ((handle_signed_write parse_key check hash store lru engine ios msg
                db).1
              ≡ err e)
            × IsDenied msg db e)
      ⊎ IsAuthorised msg db
        × Follows (handle_signed_write parse_key check hash store lru engine ios msg db)
            (mutate hash store lru engine ios msg.sql db)

  execute-owner :
      (ios : ℕ → Io) (sql : List ℕ) (writer : ℕ) (db : Database hash store lru engine)
      → (writer == db.owner) ≡ true
      → execute hash store lru engine ios sql writer db ≡ mutate hash store lru engine ios sql db
  unfolding execute check_ownership
  execute-owner ios sql writer db w = rw (w, execute) refl

  -- The rest of `handle_signed_write`, once the statement has run.
  unfoldable concluded :
      Database hash store lru engine × Result (Unit {0}) SqlError
      → Database hash store lru engine × Result ℕ SqlError
  concluded r = elim (r.1) [ err e ↦ (r.0, err e) | ok done ↦ (r.0, ok (r.0.root_cid)) ]

  concluded-Follows :
      (r : Database hash store lru engine × Result (Unit {0}) SqlError) → Follows (concluded r) r
  unfolding concluded
  concluded-Follows (db, ok tt) = (refl, inl (refl, refl))
  concluded-Follows (db, err e) = (refl, inr (e, refl, refl))

  handle-passed :
      (ios : ℕ → Io) (msg : SignedWrite Sig) (db : Database hash store lru engine)
      → signed msg ≡ true
      → (msg.writer == db.owner) ≡ true
      → check_roots msg.expected_root (some db.root_cid) ≡ ok tt
      → handle_signed_write parse_key check hash store lru engine ios msg db
        ≡ concluded (mutate hash store lru engine ios msg.sql db)
  unfolding handle_signed_write verify_signature check_ownership check_cas concluded
  handle-passed ios msg db s w fresh =
      rw (s, w, fresh, handle_signed_write)
        (ap concluded (execute-owner ios msg.sql msg.writer db w))

  authorised_lem :
      (ios : ℕ → Io) (msg : SignedWrite Sig) (db : Database hash store lru engine)
      → signed msg ≡ true
      → (msg.writer == db.owner) ≡ true
      → check_roots msg.expected_root (some db.root_cid) ≡ ok tt
      → IsCurrent msg.expected_root db.root_cid
      → Outcome ios msg db
  authorised_lem ios msg db s w fresh current =
      let owner : msg.writer ≡ db.owner = ground arith in
      rw (handle-passed ios msg db s w fresh)
        (inr ((s, owner, current), concluded-Follows (mutate hash store lru engine ios msg.sql db)))

  -- A signed write reaches the database exactly if its signature is over its own payload by its
  -- writer, the writer is the owner, and the expected root, where there is one, is the present
  -- root; then the database becomes what the statement makes of it, and the answer is its new root
  -- or its error. Otherwise the database is unchanged and the answer is the error of the first of
  -- these checks that fails.
  pub handle_signed_write_lem :
      (ios : ℕ → Io) (msg : SignedWrite Sig) (db : Database hash store lru engine)
      → Outcome ios msg db
  unfolding handle_signed_write verify_signature check_ownership check_cas
  handle_signed_write_lem ios msg db = elim (Bool-cases (signed msg)) [
    | inr s ↦
        rw (s, handle_signed_write)
          (inl (refl, (invalid_signature msg.writer, refl, inl (refl, refl))))
    | inl s ↦ elim (Bool-cases (msg.writer == db.owner)) [
      | inr w ↦
          let other : msg.writer ≢ db.owner = ground arith in
          rw (s, w, handle_signed_write)
            (inl (
              refl,
              (unauthorized_writer msg.writer db.owner, refl, inr (inl (refl, other, refl))),
            ))
      | inl w ↦
          let owner : msg.writer ≡ db.owner = ground arith in
          elim (roots_lem msg.expected_root db.root_cid) [
            | inr (e, stale, why) ↦
                rw (s, w, stale, handle_signed_write)
                  (inl (refl, (e, refl, inr (inr (refl, owner, why)))))
            | inl (fresh, current) ↦ authorised_lem ios msg db s w fresh current
          ]
    ]
  ]
