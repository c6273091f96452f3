-- ===== src/Subscriptions.antt =====
-- crates/fava-subscriptions and crates/fava-subscriptions-standard: which demand shares a wire
-- filter, and which is served by one already sent.
pub mod Filter
pub mod Matching
pub mod Union
pub mod Tags
pub mod Axes
pub mod Coverage
pub mod Grouping
pub mod Rounds
pub mod Exact
pub mod Buckets
pub mod Carried
pub mod Complete
pub mod Tally
