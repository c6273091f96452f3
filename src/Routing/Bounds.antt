-- ===== src/Routing/Bounds.antt =====
-- crates/fava-routing/src/lib.rs, `from_contribution`: how many relays a plan has.
use fava.Base.{
  ℕ, ◌≤◌, ◌≡◌, refl, arith, not, List, [], ◌∷◌, length, ok, is_none, Result-cases, inl, inr,
}
use fava.BTreeMap.{BTreeMap, nat_key, get, insert, get-insert, length-insert}
use fava.BTreeSet.{BTreeSet, contains, extend, contains-insert, length-insert as length-insert_set}
use fava.Nostr.{RelayUrl}
use fava.Routing.Plan.{RouteDestination, RouteContribution, PlannedRelay, RoutePlan}
use fava.Routing.Contribution.{
  plan_destination, cover_targets, Planned, plan_all, from_contribution, validate_bounds, bounded,
  sessions_of,
}

-- The map has as many relays as the set, and the same.
record SameRelays (destinations : BTreeMap RelayUrl PlannedRelay) (relays : BTreeSet RelayUrl)
    : Type 0 where
  count : length destinations ≡ length relays
  relay : (r : RelayUrl) → contains r relays ≡ not (is_none (get r destinations))

insert-SameRelays :
    (relay : RelayUrl) (p : PlannedRelay) (destinations : BTreeMap RelayUrl PlannedRelay)
    (relays : BTreeSet RelayUrl)
    → SameRelays destinations relays
    → SameRelays (insert relay p destinations) (fava.BTreeSet.insert relay relays)
insert-SameRelays relay p destinations relays same = record {
  count = ground (
    arith,
    length-insert relay p destinations,
    length-insert_set relay relays,
    same.count,
    same.relay relay,
  );
  relay = λ r.
      ground
        (arith, get-insert relay r p destinations, contains-insert relay r relays, same.relay r);
}

plan_destination-SameRelays :
    (d : RouteDestination) (destinations : BTreeMap RelayUrl PlannedRelay)
    (relays : BTreeSet RelayUrl)
    → SameRelays destinations relays
    → SameRelays (plan_destination d destinations) (fava.BTreeSet.insert d.session relays)
unfolding plan_destination
plan_destination-SameRelays d destinations relays same =
    insert-SameRelays d.session _ destinations relays same

plan_all-SameRelays :
    (ds : List RouteDestination) (planned : Planned) (relays : BTreeSet RelayUrl)
    → SameRelays planned.0 relays
    → SameRelays (plan_all ds planned).0 (extend relays (sessions_of ds))
unfolding plan_all extend
plan_all-SameRelays [] planned relays same = same
plan_all-SameRelays (d ∷ ds) (destinations, coverage) relays same =
    plan_all-SameRelays ds
      (plan_destination d destinations, cover_targets d.session d.targets coverage)
      (fava.BTreeSet.insert d.session relays)
      (plan_destination-SameRelays d destinations relays same)

-- A plan made of a contribution has no more relays than the bound on destinations, however many
-- destinations the contribution has; it has the contribution's shortfalls, and its revision.
pub from_contribution-bound :
    (revision : ℕ) (c : RouteContribution) {plan : RoutePlan}
    → from_contribution revision c ≡ ok plan
    → (length plan.destinations ≤ 256)
      × (plan.shortfalls ≡ c.shortfalls)
      × (plan.revision ≡ revision)
unfolding from_contribution validate_bounds bounded get contains
from_contribution-bound revision c {plan} h = elim (Result-cases (validate_bounds c)) [
  | inr (e, refused) ↦ absurd (ground (arith, refused))
  | inl (u, valid) ↦
      let same =
        plan_all-SameRelays c.destinations ([], c.coverage) []
          (record { count = refl; relay = λ r. refl }) in
      (ground (arith, valid, same.count), ground (arith, valid), ground (arith, valid))
]
