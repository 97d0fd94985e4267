-- ===== src/Obj.antt =====
-- The object store: crates/craftec-obj.
pub mod Store
pub mod Interface
pub mod Toys
pub mod Tests
