-- ===== src/Hub.antt =====
-- The relay service, crates/herdr-relay-hub.
pub mod Limits
pub mod Session
pub mod Push
pub mod Connection
pub mod Pump
pub mod Tests
