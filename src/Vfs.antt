-- ===== src/Vfs.antt =====
-- The virtual file system of content-addressed pages: crates/craftec-vfs.
pub mod PageIndex
pub mod PageCache
pub mod CidVfs
pub mod Tests
