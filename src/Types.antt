-- ===== src/Types.antt =====
-- The shared types: crates/craftec-types.
pub mod Identity
pub mod Piece
pub mod Hlc
pub mod Message
pub mod Wire
pub mod Tests
