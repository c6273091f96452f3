-- ===== src/Delivery/Policy.antt =====
-- crates/fava-delivery/src/lib.rs and crates/fava-delivery-standard/src/lib.rs: the decision of the
-- standard policy.
use fava.Base.{ℕ, String, ltb, if◌then◌else◌}
use fava.Write.Receipt.{RelayDeliveryOutcome, pending, retryable}

pub record DeliveryFacts : Type 0 where
  pub attempts : ℕ
  pub outcome : RelayDeliveryOutcome

-- The text of a give-up is made of the ceiling and the last reason.
pub data DeliveryDecision : Type 0 where
  attempt_now : DeliveryDecision
  give_up : ℕ → String → DeliveryDecision
  settled : DeliveryDecision

unfoldable pub decide_outcome : ℕ → ℕ → RelayDeliveryOutcome → DeliveryDecision
decide_outcome maximum_attempts attempts pending =
    if ltb attempts maximum_attempts then attempt_now else settled
decide_outcome maximum_attempts attempts (retryable reason) =
    if ltb attempts maximum_attempts then attempt_now else give_up maximum_attempts reason
decide_outcome maximum_attempts attempts _ = settled

unfoldable pub decide : ℕ → DeliveryFacts → DeliveryDecision
unfolding decide_outcome
decide maximum_attempts facts = decide_outcome maximum_attempts facts.attempts facts.outcome
