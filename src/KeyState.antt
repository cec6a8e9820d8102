-- ===== src/KeyState.antt =====
-- crates/trusik-protocol/src/lib.rs: the shared memory between Stonemite and the trusik proxy.
pub mod State
pub mod Ring
pub mod Keys
pub mod Lease
pub mod Tests
