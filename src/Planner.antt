-- ===== src/Planner.antt =====
-- crates/fava-subscriptions-standard/src/lib.rs, attach.rs and diff.rs, with the types of
-- crates/fava-subscriptions: the plan for the demand of one relay session.
pub mod Types
pub mod Attach
pub mod Message
pub mod Candidates
pub mod Diff
pub mod Plan
pub mod Rounds
pub mod Members
pub mod Service
pub mod Served
pub mod Joins
pub mod Pending
pub mod Folds
pub mod Residual
pub mod Owners
pub mod Accounts
pub mod Limits
pub mod Answers
