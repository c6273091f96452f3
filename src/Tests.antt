-- ===== src/Tests.antt =====
-- Concrete values, runs of the definitions on them, and the theorems at them.
mod Crate
mod States
mod Caches
mod Receipts
mod Writes
mod Plans
mod Planned
mod Queries
mod Composed
mod Accounts
mod Contacts
mod Routed
mod Chained
