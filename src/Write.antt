-- ===== src/Write.antt =====
-- crates/fava-write, crates/fava-write-store and crates/fava-write-store-memory: accepted writes,
-- their receipts, and the store that keeps them.
pub mod Receipt
pub mod Routes
pub mod Lanes
pub mod Replay
pub mod Store
pub mod Lifecycle
pub mod Handlers
pub mod Steps
pub mod Evidence
pub mod Settlement
pub mod Atomic
pub mod Reservations
pub mod Capacity
pub mod Cancellation
