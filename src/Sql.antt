-- ===== src/Sql.antt =====
-- The database over content-addressed pages: crates/craftec-sql.
pub mod Commit
pub mod Database
pub mod RpcWrite
pub mod Tests
