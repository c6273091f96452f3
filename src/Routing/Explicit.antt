-- ===== src/Routing/Explicit.antt =====
-- crates/fava-routing/src/lib.rs, `RoutePlan::explicit`: relays that the application selects.
use fava.Base.{ℕ, ◌≡◌, refl, ◌∙◌, arith, true, ◌&&◌, List, [], ◌∷◌, map, ok, Result-cases, inl, inr}
use fava.BTreeMap.{nat_key}
use fava.BTreeSet.{BTreeSet, contains}
use fava.Nostr.{RelayUrl}
use fava.Routing.Plan.{RouteTarget, target_key, RouteContribution, RoutePlan, settled}
use fava.Routing.Contribution.{
  from_contribution, validate_bounds, explicit_plan, explicit_destination,
}
use fava.Routing.Coverage.{plans, lists, from_contribution-covers}

lists-explicit :
    (s : RelayUrl) (t : RouteTarget) (relays : List RelayUrl) (targets : BTreeSet RouteTarget)
    → lists s t (map (explicit_destination targets) relays)
      ≡ (contains s relays && contains t targets)
unfolding contains
lists-explicit s t [] targets = refl
lists-explicit s t (relay ∷ relays) targets = ground (arith, lists-explicit s t relays targets)

from_contribution-unresolved :
    (revision : ℕ) (c : RouteContribution) {plan : RoutePlan}
    → c.unresolved ≡ []
    → c.coverage ≡ []
    → from_contribution revision c ≡ ok plan
    → settled plan ≡ true
unfolding from_contribution settled fava.BTreeSet.extend
from_contribution-unresolved revision c {plan} no_targets no_coverage h =
    elim (Result-cases (validate_bounds c)) [
      | inr (e, refused) ↦ absurd (ground (arith, refused))
      | inl (u, valid) ↦ ground (arith, valid, no_targets, no_coverage)
    ]

-- A plan of explicit relays sends every target to each of them and to no other relay, and it is
-- settled from the start.
pub explicit_plan_lem :
    (s : RelayUrl) (t : RouteTarget) (relays : List RelayUrl) (targets : BTreeSet RouteTarget)
    {plan : RoutePlan}
    → explicit_plan relays targets ≡ ok plan
    → (plans s t plan.destinations ≡ (contains s relays && contains t targets))
      × (settled plan ≡ true)
unfolding explicit_plan
explicit_plan_lem s t relays targets h = (
  (from_contribution-covers s t 1 _ h).0 ∙ lists-explicit s t relays targets,
  from_contribution-unresolved 1 _ refl refl h,
)
