-- ===== src/EventCache.antt =====
-- crates/fava-event-cache and crates/fava-event-cache-memory: the bounded cache of signed events.
pub mod Source
pub mod Memory
pub mod Contract
pub mod Entries
pub mod Rounds
pub mod Invariant
pub mod Origins
pub mod Admission
pub mod Deletions
pub mod Replacements
pub mod Currency
pub mod Steps
pub mod Reach
pub mod Published
pub mod Retention
pub mod Reports
