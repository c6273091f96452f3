-- ===== src/Write/Lanes.antt =====
-- crates/fava-write-store/src/receipt.rs, `apply_newer_route_to_receipt`: what a route does to the
-- outcome of each destination.
use fava.Base.{
  is_empty, ◌≡◌, ◌⊎◌, refl, Bool, true, false, not, ◌&&◌, String, Option, none, some, List, [], ◌∷◌,
  arith, ◌==◌, if◌then◌else◌, ok, any,
}
use fava.BTreeMap.{BTreeMap, nat_key, get, keys, values, get-insert, get-remove}
use fava.BTreeSet.{BTreeSet, contains, difference}
use fava.Nostr.{RelayUrl}
use fava.Routing.Plan.{RouteTarget, RoutePlan, settled}
use fava.Write.Receipt.{
  pending, retryable, cancelled_before_handoff, is_terminal_outcome, Receipt, ReceiptOutcome,
  opened, complete, no_destination, destinations,
}
use fava.Write.Routes.{
  Outcome, Lanes, withdraw, withdraw_all, request, request_all, settle_route, routed,
  apply_newer_route_to_receipt, apply_route_to_receipt,
}

-- What becomes of an outcome whose destination is taken back: only what no attempt has touched is
-- withdrawn.
abbrev pub withdrawn : Option Outcome → Option Outcome
withdrawn (some pending) = none
withdrawn (some (retryable _)) = some cancelled_before_handoff
withdrawn o = o

-- The outcome of a destination, by whether the new route and the old one desire it.
abbrev pub lane : Bool → Bool → Option Outcome → Option Outcome
lane true _ none = some pending
lane true _ (some o) = some o
lane false true o = withdrawn o
lane false false o = o

get-withdraw :
    (s t : RelayUrl) (l : Lanes)
    → get s (withdraw t l).0 ≡ (if t == s then withdrawn (get s l.0) else get s l.0)
unfolding withdraw
get-withdraw s t l = ground (arith, get-insert t s cancelled_before_handoff l.0, get-remove t s l.0)

withdrawn_twice : (o : Option Outcome) → withdrawn (withdrawn o) ≡ withdrawn o
withdrawn_twice o = ground arith

get-withdraw_all :
    (s : RelayUrl) (ts : List RelayUrl) (l : Lanes)
    → get s (withdraw_all ts l).0 ≡ (if contains s ts then withdrawn (get s l.0) else get s l.0)
unfolding withdraw_all contains
get-withdraw_all s [] l = refl
get-withdraw_all s (t ∷ ts) l =
    ground
      (arith, get-withdraw_all s ts (withdraw t l), get-withdraw s t l, withdrawn_twice (get s l.0))

abbrev pub requested : Option Outcome → Option Outcome
requested none = some pending
requested (some o) = some o

get-request :
    (s t : RelayUrl) (d : BTreeMap RelayUrl Outcome)
    → get s (request t d) ≡ (if t == s then requested (get s d) else get s d)
unfolding request
get-request s t d = ground (arith, get-insert t s pending d)

get-request_all :
    (s : RelayUrl) (ts : List RelayUrl) (d : BTreeMap RelayUrl Outcome)
    → get s (request_all ts d) ≡ (if contains s ts then requested (get s d) else get s d)
unfolding request_all contains
get-request_all s [] d = refl
get-request_all s (t ∷ ts) d = ground (arith, get-request_all s ts (request t d), get-request s t d)

contains-difference :
    (s : RelayUrl) (xs ys : BTreeSet RelayUrl)
    → contains s (difference xs ys) ≡ (contains s xs && not (contains s ys))
unfolding difference contains
contains-difference s [] ys = refl
contains-difference s (x ∷ xs) ys = ground (arith, contains-difference s xs ys)

-- The outcome of a settled receipt.
abbrev pub settlement : Bool → Bool → Bool → ReceiptOutcome
settlement true true true = no_destination
settlement true true false = complete
settlement _ _ _ = opened

abbrev pub all_terminal : BTreeMap RelayUrl Outcome → Bool
all_terminal d = not (any (λ o. not (is_terminal_outcome o)) (values d))

module _ (describe : RouteTarget → String) (plan : RoutePlan) (r : Receipt) where
  pub destinations-routed :
      destinations (routed describe plan r)
      ≡ request_all
          (keys plan.destinations)
          (withdraw_all
            (difference r.desired_destinations (keys plan.destinations))
            (destinations r, r.attempts)).0
  unfolding routed
  destinations-routed = ground arith

  pub lanes_routed :
      (s : RelayUrl)
      → get s (destinations (routed describe plan r))
        ≡ lane
            (contains s (keys plan.destinations))
            (contains s r.desired_destinations)
            (get s (destinations r))
  lanes_routed s = rw destinations-routed (
      ground (
        arith,
        get-request_all s (keys plan.destinations)
            (withdraw_all (difference r.desired_destinations (keys plan.destinations))
              (destinations r, r.attempts)).0,
        get-withdraw_all s (difference r.desired_destinations (keys plan.destinations))
            (destinations r, r.attempts),
        contains-difference s r.desired_destinations (keys plan.destinations),
      ))

  pub outcome-routed :
      (routed describe plan r).outcome
      ≡ settlement
          (settled plan)
          (all_terminal (destinations (routed describe plan r)))
          (is_empty (keys plan.destinations))
  unfolding routed settle_route
  outcome-routed = ground arith

  -- An accepted route is in the receipt, or was there before.
  pub apply_route-cases :
      {after : Receipt}
      → apply_route_to_receipt describe r plan ≡ ok after
      → (r ≡ after) ⊎ (routed describe plan r ≡ after)
  unfolding apply_route_to_receipt apply_newer_route_to_receipt
  apply_route-cases h = ground arith
