-- ===== src/Write/Evidence.antt =====
-- crates/fava-write-store-memory/src/lifecycle.rs: the answer of a relay is kept.
use fava.Base.{◌≡◌, inl, inr, arith, true, String, some, ◌∙◌, ap}
use fava.BTreeMap.{nat_key, get, insert, get-insert}
use fava.Nostr.{RelayUrl}
use fava.Routing.Plan.{RouteTarget}
use fava.Write.Receipt.{
  RelayDeliveryOutcome, attempting, is_terminal_outcome, Receipt, destinations, with_destinations,
}
use fava.Write.Lanes.{lanes_routed, apply_route-cases}
use fava.Write.Store.{settle}
use fava.Write.Steps.{
  DeliveryStep, begins, records, routes, begin_attempt-Begun, record_outcome-Recorded,
  apply_route-applied,
}

pub data DeliveryTrail (describe : RouteTarget → String) (r : Receipt) : Receipt → Type 0 where
  start : DeliveryTrail describe r r
  next :
      {mid after : Receipt}
      → DeliveryTrail describe r mid
      → DeliveryStep describe mid after
      → DeliveryTrail describe r after

pub destinations-settle : (r : Receipt) → destinations (settle r) ≡ destinations r
unfolding settle
destinations-settle r = ground arith

module _ (describe : RouteTarget → String) (s : RelayUrl) (o : RelayDeliveryOutcome)
    (terminal : is_terminal_outcome o ≡ true) where
  step-keeps :
      (r : Receipt) {after : Receipt}
      → DeliveryStep describe r after
      → get s (destinations r) ≡ some o
      → get s (destinations after) ≡ some o
  unfolding is_terminal_outcome
  step-keeps r (begins claim session attempt h) held =
      let b = begin_attempt-Begun claim session attempt r h in
      rw (← b.result) (
        ground (
          arith,
          held,
          terminal,
          b.before_handoff,
          get-insert session s attempting (destinations r),
        ))
  step-keeps r (records claim session attempt outcome h) held =
      let b = record_outcome-Recorded claim session attempt r outcome h in
      rw (← b.result) (
        ap (get s)
          (destinations-settle (with_destinations (insert session outcome (destinations r)) r))
        ∙ ground
            (arith, held, terminal, b.transition, get-insert session s outcome (destinations r)))
  step-keeps r (routes claim plan h) held =
      elim (apply_route-cases describe plan r (apply_route-applied claim 0 0 r describe plan h).0) [
        | inl same ↦ rw (← same) held
        | inr e ↦ rw (← e) (ground (arith, held, terminal, lanes_routed describe plan r s))
      ]

  -- Once a destination has a terminal outcome, it keeps exactly that outcome through any attempts,
  -- recorded outcomes and routes.
  pub trail-keeps_terminal :
      (r : Receipt) {after : Receipt}
      → DeliveryTrail describe r after
      → get s (destinations r) ≡ some o
      → get s (destinations after) ≡ some o
  trail-keeps_terminal r start held = held
  trail-keeps_terminal r (next {mid} trail step) held =
      step-keeps mid step (trail-keeps_terminal r trail held)
