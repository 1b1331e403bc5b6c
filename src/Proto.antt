-- ===== src/Proto.antt =====
-- The shared protocol, crates/herdr-relay-proto.
pub mod Codes
pub mod Percent
pub mod PairingUri
pub mod Phrase
pub mod Samples
mod Tests
