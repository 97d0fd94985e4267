-- ===== src/Sql/Tests.antt =====
-- Examples for the code: a database over the empty file system, whose engine appends the statement
-- to a file of one page of two bytes.
use craftec.Prelude.{
  ℕ, zero, suc, ◌*◌, ◌≡◌, refl, arith, List, [], ◌∷◌, Option, none, some, Bool, true, false, ◌==◌,
  ltb,
}
use craftec.Prelude.Assoc.{insert}
use craftec.Prelude.Result.{ok}
use craftec.Prelude.Sort.{sort_by_key, place}
use craftec.Prelude.Bytes.{to_le_bytes}
use craftec.Obj.Toys.{toy_hash, page_lru, no_fault}
use craftec.Vfs.PageIndex.{serialize_entries, pair_bytes}
use craftec.Vfs.CidVfs.Pages.{put_entries}
use craftec.Vfs.Tests.{setting, fresh, fresh-IsCoherent}
use craftec.Sql.Database.{SignedWrite, Libsql, chunks, mutate}
use craftec.Sql.Database.Sync.{file_page, buffered}
use craftec.Sql.Database.Execute.{Db, IsUsable, MutateResult, mutate_lem}
use craftec.Sql.RpcWrite.Payload.{build_signed_payload-inj}
use craftec.Sql.RpcWrite.Accepts.{Outcome, handle_signed_write_lem}

-- The file becomes the statement.
abbrev engine : Libsql
engine = record { State = List ℕ; run = λ sql s. (sql, ok tt); read_file = λ s. ok s }

abbrev db : Db setting engine
db = record {
  db_id = 1;
  owner = 5;
  vfs = fresh;
  root_cid = 4;
  libsql = [];
  listening = true;
  events = [];
}

abbrev write : SignedWrite ℕ
write = record { writer = 5; sql = 7 ∷ 9 ∷ []; expected_root = some 4; signature = 3 }

-- The key is the writer, and a signature is right if it is 3.
abbrev parse_key : ℕ → Option ℕ
parse_key node = some node

abbrev check : ℕ → List ℕ → ℕ → Bool
check key msg sig = sig == 3

handle_signed_write_lem_example :
    Outcome parse_key check toy_hash setting.store page_lru engine (λ i. no_fault) write db
handle_signed_write_lem_example =
    handle_signed_write_lem parse_key check toy_hash setting.store page_lru engine (λ i. no_fault)
      write db

build_signed_payload-inj_example :
    (write.writer ≡ 5) × (write.sql ≡ 7 ∷ 9 ∷ []) × (write.expected_root ≡ some 4)
build_signed_payload-inj_example =
    build_signed_payload-inj write.writer 5 write.sql (7 ∷ 9 ∷ []) write.expected_root (some 4)
      (omega arith) (omega arith) (omega arith) (omega arith) (omega arith) (omega arith) refl

-- The file is one page, the one that is in use.
page_of_file :
    (q : ℕ) (bytes : List ℕ) → file_page 2 (7 ∷ 9 ∷ []) q ≡ some bytes → setting.Seen bytes
unfolding file_page
page_of_file zero bytes e = let same : 7 ∷ 9 ∷ [] ≡ bytes = (cc) in rw (← same) (refl, omega arith)
page_of_file (suc q) bytes e =
    let beyond : ltb (suc q * 2) 2 ≡ false = ground arith in
    let none_there : none ≡ some bytes = rw beyond at e in absurd (cc)

file-IsUsable : IsUsable setting (7 ∷ 9 ∷ []) fresh
unfolding chunks buffered put_entries insert serialize_entries pair_bytes sort_by_key place
    to_le_bytes
file-IsUsable = record {
  sized = omega arith;
  count = omega arith;
  seen = page_of_file;
  few = omega arith;
  form_seen = (refl, omega arith);
}

mutate_lem_example :
    MutateResult setting engine
      (7 ∷ 9 ∷ [])
      db
      (mutate toy_hash setting.store page_lru engine (λ i. no_fault) (7 ∷ 9 ∷ []) db)
mutate_lem_example =
    mutate_lem setting engine (λ i. no_fault) (7 ∷ 9 ∷ []) (7 ∷ 9 ∷ []) db fresh-IsCoherent
      file-IsUsable refl refl
