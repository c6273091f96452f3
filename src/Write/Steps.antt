-- ===== src/Write/Steps.antt =====
-- crates/fava-write-store-memory/src/lifecycle.rs: the changes that handlers make of a receipt, as
-- steps.
use fava.Base.{ℕ, ◌+◌, ◌≡◌, ◌⊎◌, inl, inr, arith, true, String, some, Result, ok, Option-cases}
use fava.BTreeMap.{nat_key, get, insert}
use fava.Nostr.{RelayUrl}
use fava.Routing.Plan.{RouteTarget, RoutePlan}
use fava.Write.Receipt.{
  RelayDeliveryOutcome, attempting, Receipt, opened, is_terminal, destinations, with_destinations,
}
use fava.Write.Routes.{WriteStoreError, apply_route_to_receipt, validate_current_revision}
use fava.Write.Store.{settle, is_before_handoff}
use fava.Write.Lifecycle.{
  Change, changed, changed_or_promoted, Claim, require_current, begin_attempt, record_outcome,
  apply_route, may_transition, count_or_zero,
}

-- A handler's change that is made.
abbrev pub Makes : Result WriteStoreError Change → Receipt → Type 0
Makes answer after = (answer ≡ ok (changed after)) ⊎ (answer ≡ ok (changed_or_promoted after))

pub data DeliveryStep (describe : RouteTarget → String) (r : Receipt) : Receipt → Type 0 where
  begins :
      (claim : Claim) (session : RelayUrl) (attempt : ℕ) {after : Receipt}
      → begin_attempt claim session attempt r ≡ ok (changed after)
      → DeliveryStep describe r after
  records :
      (claim : Claim) (session : RelayUrl) (attempt : ℕ) (outcome : RelayDeliveryOutcome)
      {after : Receipt}
      → record_outcome claim session attempt outcome r ≡ ok (changed after)
      → DeliveryStep describe r after
  routes :
      (claim : Claim) (plan : RoutePlan) {after : Receipt}
      → apply_route describe claim plan r ≡ ok (changed after)
      → DeliveryStep describe r after

-- What a begun attempt, and a recorded outcome, say of the receipt.
pub record Begun (session : RelayUrl) (attempt : ℕ) (r after : Receipt) : Type 0 where
  pub was_open : r.outcome ≡ opened
  pub counted : attempt ≡ count_or_zero (get session r.attempts) + 1
  pub before_handoff :
      (o : RelayDeliveryOutcome) × (get session (destinations r) ≡ some o)
      × (is_before_handoff o ≡ true)
  pub result :
      with_destinations
        (insert session attempting (destinations r))
        (record r { attempts = insert session attempt r.attempts })
      ≡ after

pub record Recorded (session : RelayUrl) (outcome : RelayDeliveryOutcome) (r after : Receipt)
    : Type 0 where
  pub was_open : r.outcome ≡ opened
  pub transition :
      (o : RelayDeliveryOutcome) × (get session (destinations r) ≡ some o)
      × (may_transition o outcome ≡ true)
  pub result : settle (with_destinations (insert session outcome (destinations r)) r) ≡ after

pub current_open :
    (claim : Claim) (r : Receipt) → require_current r claim ≡ ok tt → r.outcome ≡ opened
unfolding require_current validate_current_revision is_terminal
current_open claim r h = ground arith

module _ (claim : Claim) (session : RelayUrl) (attempt : ℕ) (r : Receipt) {after : Receipt} where
  pub begin_attempt-Begun :
      begin_attempt claim session attempt r ≡ ok (changed after) → Begun session attempt r after
  unfolding begin_attempt
  begin_attempt-Begun h = elim (Option-cases (get session (destinations r))) [
    | inl absent ↦ absurd (ground (arith, absent))
    | inr (o, found) ↦ record {
      was_open = ground (arith, current_open claim r);
      counted = ground (arith, found);
      before_handoff = (o, found, ground (arith, found));
      result = ground (arith, found);
    }
  ]

  pub record_outcome-Recorded :
      (outcome : RelayDeliveryOutcome)
      → record_outcome claim session attempt outcome r ≡ ok (changed after)
      → Recorded session outcome r after
  unfolding record_outcome
  record_outcome-Recorded outcome h = elim (Option-cases (get session (destinations r))) [
    | inl absent ↦ absurd (ground (arith, absent))
    | inr (o, found) ↦ record {
      was_open = ground (arith, current_open claim r);
      transition = (o, found, ground (arith, found));
      result = ground (arith, found);
    }
  ]

  pub apply_route-applied :
      (describe : RouteTarget → String) (plan : RoutePlan)
      → apply_route describe claim plan r ≡ ok (changed after)
      → (apply_route_to_receipt describe r plan ≡ ok after) × (r.outcome ≡ opened)
  unfolding apply_route
  apply_route-applied describe plan h = (ground arith, ground (arith, current_open claim r))
