-- ===== src/Sql/RpcWrite.antt =====
-- Signed writes from other nodes: crates/craftec-sql/src/rpc_write.rs. `parse_key` and `check` are
-- the signature scheme's (Types/Identity). The ids spell their 32 bytes, the least one first. The
-- log is left out.
pub mod Payload
pub mod Accepts
use craftec.Prelude.{
  ℕ, ◌%◌, ◌^◌, List, [], ◌∷◌, ◌++◌, Option, none, some, Bool, not, if◌then◌else◌, length,
}
use craftec.Prelude.Result.{Result, ok, err}
use craftec.Prelude.Bytes.{to_le_bytes}
use craftec.Prelude.Lru.{Lru}
use craftec.Types.Identity.{verify}
use craftec.Obj.Store.{Io}
use craftec.Obj.Interface.{ContentStore}
use craftec.Sql.Commit.{SqlError, CommitContext, invalid_signature, check_ownership, check_cas}
use craftec.Sql.Database.{SignedWrite, Libsql, Database, execute}

abbrev pub root_bytes : Option ℕ → List ℕ
root_bytes none = 0 ∷ []
root_bytes (some cid) = 1 ∷ to_le_bytes 32 cid

unfoldable pub build_signed_payload : ℕ → List ℕ → Option ℕ → List ℕ
build_signed_payload writer sql root =
    to_le_bytes 4 32
    ++ (to_le_bytes 32 writer ++ (to_le_bytes 4 (length sql % 2 ^ 32) ++ (sql ++ root_bytes root)))

module _ {Key Sig : Type 0} (parse_key : ℕ → Option Key) (check : Key → List ℕ → Sig → Bool) where
  unfoldable pub verify_signature : SignedWrite Sig → Result (Unit {0}) SqlError
  unfolding verify build_signed_payload
  verify_signature msg =
      let signed_payload = build_signed_payload msg.writer msg.sql msg.expected_root in
      if not (verify parse_key check signed_payload msg.signature msg.writer)
      then err (invalid_signature msg.writer)
      else ok tt

  module _ (hash : List ℕ → ℕ) (store : ContentStore) (lru : Lru (ℕ × ℕ) (List ℕ))
      (engine : Libsql) where
    unfoldable pub handle_signed_write :
        (ℕ → Io)
        → SignedWrite Sig
        → Database hash store lru engine
        → Database hash store lru engine × Result ℕ SqlError
    unfolding verify_signature check_ownership check_cas execute
    handle_signed_write ios msg db =
        let ctx : CommitContext = record {
          writer = msg.writer;
          sql = msg.sql;
          expected_root = msg.expected_root;
        } in
        elim (verify_signature msg) [
          | err e ↦ (db, err e)
          | ok signed ↦ elim (check_ownership ctx db.owner) [
            | err e ↦ (db, err e)
            | ok owned ↦ elim (check_cas ctx (some db.root_cid)) [
              | err e ↦ (db, err e)
              | ok fresh ↦
                  let (db', answer) = execute hash store lru engine ios msg.sql msg.writer db in
                  elim answer [ err e ↦ (db', err e) | ok done ↦ (db', ok db'.root_cid) ]
            ]
          ]
        ]
