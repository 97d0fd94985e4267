-- ===== src/Rlnc.antt =====
-- Random linear network coding: crates/craftec-rlnc.
pub mod Gf256
pub mod Decoder
pub mod Redundancy
pub mod Encoder
pub mod Recoder
pub mod Engine
pub mod Tests
