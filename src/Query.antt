-- ===== src/Query.antt =====
-- crates/fava-query and crates/fava-query-standard: a query, and its evaluation over the snapshots
-- of its sources.
pub mod Types
pub mod Evaluate
pub mod Build
pub mod Winners
pub mod Chosen
pub mod Merged
pub mod Contributed
pub mod Axes
pub mod Account
pub mod Cached
