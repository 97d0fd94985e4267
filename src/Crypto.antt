-- ===== src/Crypto.antt =====
-- Cryptographic helpers: crates/craftec-crypto.
pub mod HomMac
