-- ===== src/Write/Settlement.antt =====
-- crates/fava-write-store-memory/src/model.rs and lifecycle.rs: when a receipt is closed.
use fava.Base.{
  is_empty, ◌≡◌, inl, inr, refl, arith, false, not, String, some, List, [], ◌∷◌, any, all,
  any_of_In, map_of_In,
}
use fava.BTreeMap.{BTreeMap, nat_key, get, insert, get-insert, values, In-get}
use fava.Nostr.{RelayUrl}
use fava.Routing.Plan.{RouteTarget, RoutePlan}
use fava.Write.Receipt.{
  RelayDeliveryOutcome, attempting, is_terminal_outcome, Receipt, ReceiptOutcome, opened,
  destinations, with_destinations,
}
use fava.Write.Routes.{routed, settle_route}
use fava.Write.Lanes.{settlement, all_terminal, apply_route-cases}
use fava.Write.Store.{settle}
use fava.Write.Steps.{
  DeliveryStep, begins, records, routes, begin_attempt-Begun, record_outcome-Recorded,
  apply_route-applied,
}
use fava.Write.Evidence.{DeliveryTrail, start, next}

-- The outcome of the receipt is the one that its route and its destinations settle.
abbrev pub settled_outcome : Receipt → ReceiptOutcome
settled_outcome r =
    settlement r.route_settled (all_terminal (destinations r)) (is_empty r.desired_destinations)

abbrev pub IsSettled : Receipt → Type 0
IsSettled r = r.outcome ≡ settled_outcome r

not_all_terminal :
    (s : RelayUrl) (o : RelayDeliveryOutcome) (d : BTreeMap RelayUrl RelayDeliveryOutcome)
    → get s d ≡ some o
    → is_terminal_outcome o ≡ false
    → all_terminal d ≡ false
not_all_terminal s o d held open_one = ground (
  arith,
  any_of_In o (λ o. not (is_terminal_outcome o)) (values d)
      (map_of_In (s, o) (λ (e : RelayUrl × RelayDeliveryOutcome). e.1) d (In-get s d held)),
)

all-not-any :
    (os : List RelayDeliveryOutcome)
    → all is_terminal_outcome os ≡ not (any (λ o. not (is_terminal_outcome o)) os)
all-not-any [] = refl
all-not-any (o ∷ os) = ground (arith, all-not-any os)

settle-IsSettled : (r : Receipt) → r.outcome ≡ opened → IsSettled (settle r)
unfolding settle
settle-IsSettled r h = ground (arith, all-not-any (values (destinations r)))

module _ (describe : RouteTarget → String) where
  routed-IsSettled : (plan : RoutePlan) (r : Receipt) → IsSettled (routed describe plan r)
  unfolding routed settle_route
  routed-IsSettled plan r = ground arith

  step-IsSettled :
      (r : Receipt) {after : Receipt}
      → DeliveryStep describe r after
      → IsSettled r
      → IsSettled after
  unfolding is_terminal_outcome
  step-IsSettled r (begins claim session attempt h) good =
      let b = begin_attempt-Begun claim session attempt r h in
      rw (← b.result) (
        ground (
          arith,
          b.was_open,
          not_all_terminal session attempting (insert session attempting (destinations r)),
          get-insert session session attempting (destinations r),
        ))
  step-IsSettled r (records claim session attempt outcome h) good =
      let b = record_outcome-Recorded claim session attempt r outcome h in
      rw (← b.result) (
        settle-IsSettled (with_destinations (insert session outcome (destinations r)) r) b.was_open)
  step-IsSettled r (routes claim plan h) good =
      elim (apply_route-cases describe plan r (apply_route-applied claim 0 0 r describe plan h).0) [
        | inl same ↦ rw (← same) good
        | inr e ↦ rw (← e) (routed-IsSettled plan r)
      ]

  -- Attempts, recorded outcomes and routes keep a receipt settled: it is closed exactly when its
  -- route is settled and every destination has a terminal outcome, as complete if it desires a
  -- destination, and without destination otherwise.
  pub trail-IsSettled :
      (r : Receipt) {after : Receipt}
      → DeliveryTrail describe r after
      → IsSettled r
      → IsSettled after
  trail-IsSettled r start good = good
  trail-IsSettled r (next {mid} trail step) good =
      step-IsSettled mid step (trail-IsSettled r trail good)
