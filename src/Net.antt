-- ===== src/Net.antt =====
-- Networking: crates/craftec-net.
pub mod Swim
pub mod Dht
pub mod Pending
pub mod Pool
pub mod Tests
