-- ===== src/Routing.antt =====
-- crates/fava-routing: routes and their ordered composition.
pub mod Plan
pub mod Contribution
pub mod Coverage
pub mod Bounds
pub mod Composer
pub mod Composition
pub mod Shortfalls
pub mod Validated
pub mod Explicit
