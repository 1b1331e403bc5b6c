-- ===== src/Host.antt =====
-- The Host's side: crates/herdr-relay.
pub mod Pairing
pub mod Watch
pub mod Store
pub mod Bridge
pub mod Input
pub mod Codec
pub mod Scheduler
pub mod KeyMap
pub mod Registry
pub mod Tests
