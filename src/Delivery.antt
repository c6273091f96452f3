-- ===== src/Delivery.antt =====
-- crates/fava-delivery and crates/fava-delivery-standard: whether a destination is attempted again.
pub mod Policy
pub mod Ceiling
