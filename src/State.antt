-- ===== src/State.antt =====
-- crates/fava-state: the values of the universal event state and the decisions about them.
pub mod Contribution
pub mod Coordinate
pub mod Deletion
pub mod Mutations
pub mod Order
pub mod Authorization
pub mod Soundness
pub mod Earliest
pub mod Completeness
