-- ===== src/Sql/Database.antt =====
-- The database: crates/craftec-sql/src/database.rs. libsql with its file is the parameter `State`:
-- `run` executes a statement, and `read_file` is what `tokio::fs::read` gives of the file. What the
-- file system below answers while pages are committed is an argument. The path, the reading
-- connection and the log are left out.
pub mod Sync
pub mod Execute
use craftec.Prelude.{
  ℕ, zero, suc, ◌+◌, ◌-◌, ◌%◌, ◌^◌, List, [], ◌∷◌, ◌++◌, Option, none, some, Bool, if◌then◌else◌,
  length, take, drop, replicate,
}
use craftec.Prelude.Result.{Result, ok, err}
use craftec.Prelude.Lru.{Lru}
use craftec.Obj.Store.{Io}
use craftec.Obj.Interface.{ContentStore}
use craftec.Vfs.PageIndex.{VfsError}
use craftec.Vfs.CidVfs.{CidVfs, Vfs, write_page, commit}
use craftec.Sql.Commit.{SqlError, CommitContext, check_ownership, vfs_error, sql_syntax_error, io}

pub record SignedWrite (Sig : Type 0) : Type 0 where
  pub writer : ℕ
  pub sql : List ℕ
  pub expected_root : Option ℕ
  pub signature : Sig

-- `Event::PageCommitted`.
pub record PageCommitted : Type 0 where
  pub db_id : ℕ
  pub page_num : ℕ
  pub root_cid : ℕ

pub record Libsql : Type 1 where
  pub State : Type 0
  pub run : List ℕ → State → State × Result (Unit {0}) (List ℕ)
  pub read_file : State → Result (List ℕ) (List ℕ)

pub record CraftDatabase (V E : Type 0) : Type 0 where
  pub db_id : ℕ
  pub owner : ℕ
  pub vfs : V
  pub root_cid : ℕ
  pub libsql : E
  pub listening : Bool
  pub events : List PageCommitted

-- `slice::chunks`; each round of the fuel takes at least one byte where the size is not zero.
unfoldable pub chunks : ℕ → ℕ → List ℕ → List (List ℕ)
chunks zero size bytes = []
chunks (suc fuel) size [] = []
chunks (suc fuel) size (b ∷ bytes) =
    take size (b ∷ bytes) ∷ chunks fuel size (drop size (b ∷ bytes))

-- A page of zeros with the chunk copied to its front.
abbrev pub padded : ℕ → List ℕ → List ℕ
padded page_size chunk = chunk ++ replicate (page_size - length chunk) 0

module _ (hash : List ℕ → ℕ) (store : ContentStore) (lru : Lru (ℕ × ℕ) (List ℕ)) where
  -- The loop over the chunks, from the i-th on.
  unfoldable pub write_chunks :
      ℕ → List (List ℕ) → Vfs hash store lru → Vfs hash store lru × Result (Unit {0}) VfsError
  unfolding write_page
  write_chunks i [] v = (v, ok tt)
  write_chunks i (chunk ∷ rest) v =
      let (v', answer) = write_page hash store lru (i % 2 ^ 32) (padded v.page_size chunk) v in
      elim answer [ err e ↦ (v', err e) | ok done ↦ write_chunks (i + 1) rest v' ]

  -- From the answer of reading the file.
  unfoldable pub sync_pages_to_vfs :
      (ℕ → Io)
      → Result (List ℕ) (List ℕ)
      → Vfs hash store lru
      → Vfs hash store lru × Result ℕ SqlError
  unfolding chunks write_chunks commit
  sync_pages_to_vfs ios (err e) v = (v, err (io e))
  sync_pages_to_vfs ios (ok db_bytes) v =
      let (v', written) = write_chunks 0 (chunks (length db_bytes) v.page_size db_bytes) v in
      elim written [
        | err e ↦ (v', err (vfs_error e))
        | ok done ↦
            let (v'', answer) = commit hash store lru ios v' in
            elim answer [ err e ↦ (v'', err (vfs_error e)) | ok root ↦ (v'', ok root) ]
      ]

  module _ (engine : Libsql) where
    abbrev pub Database : Type 0
    Database = CraftDatabase (Vfs hash store lru) engine.State

    -- The new root, and the event where someone listens.
    unfoldable pub publish : ℕ → Database → Database
    publish new_root db = record db {
      root_cid = new_root;
      events =
          if db.listening
          then db.events ++ record { db_id = db.db_id; page_num = 0; root_cid = new_root } ∷ []
          else db.events;
    }

    -- What `execute` does once the writer is known to be the owner.
    unfoldable pub mutate : (ℕ → Io) → List ℕ → Database → Database × Result (Unit {0}) SqlError
    unfolding sync_pages_to_vfs publish
    mutate ios sql db =
        let (state, ran) = engine.run sql db.libsql in
        let db' : Database = record db { libsql = state } in
        elim ran [
          | err e ↦ (db', err (sql_syntax_error e))
          | ok done ↦
              let (v, answer) = sync_pages_to_vfs ios (engine.read_file state) db'.vfs in
              elim answer [
                | err e ↦ (record db' { vfs = v }, err e)
                | ok new_root ↦ (publish new_root (record db' { vfs = v }), ok tt)
              ]
        ]

    unfoldable pub execute :
        (ℕ → Io) → List ℕ → ℕ → Database → Database × Result (Unit {0}) SqlError
    unfolding check_ownership mutate
    execute ios sql writer db =
        let ctx : CommitContext = record { writer = writer; sql = sql; expected_root = none } in
        elim (check_ownership ctx db.owner) [ err e ↦ (db, err e) | ok done ↦ mutate ios sql db ]
