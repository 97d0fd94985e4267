-- ===== src/Sql/Commit.antt =====
-- The checks before a write: crates/craftec-sql/src/commit.rs and error.rs. Nodes and content ids
-- are numbers, which the errors carry in place of their texts.
use craftec.Prelude.{ℕ, List, Option, none, some, not, ◌==◌, if◌then◌else◌}
use craftec.Prelude.Result.{Result, ok, err}
use craftec.Vfs.PageIndex.{VfsError}

pub data SqlError : Type 0 where
  unauthorized_writer : ℕ → ℕ → SqlError
  invalid_signature : ℕ → SqlError
  cas_conflict : ℕ → ℕ → SqlError
  vfs_error : VfsError → SqlError
  sql_syntax_error : List ℕ → SqlError
  migration_failed : List ℕ → SqlError
  not_initialised : SqlError
  already_exists : List ℕ → SqlError
  serialization_error : List ℕ → SqlError
  libsql_error : List ℕ → SqlError
  io : List ℕ → SqlError

pub record CommitContext : Type 0 where
  pub writer : ℕ
  pub sql : List ℕ
  pub expected_root : Option ℕ

-- The match on the two roots.
unfoldable pub check_roots : Option ℕ → Option ℕ → Result (Unit {0}) SqlError
check_roots none current = ok tt
check_roots (some expected) none = ok tt
check_roots (some expected) (some current) =
    if not (expected == current) then err (cas_conflict expected current) else ok tt

unfoldable pub check_cas : CommitContext → Option ℕ → Result (Unit {0}) SqlError
unfolding check_roots
check_cas ctx current_root = check_roots ctx.expected_root current_root

unfoldable pub check_ownership : CommitContext → ℕ → Result (Unit {0}) SqlError
check_ownership ctx owner =
    if not (ctx.writer == owner) then err (unauthorized_writer ctx.writer owner) else ok tt
