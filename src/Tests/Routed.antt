-- ===== src/Tests/Routed.antt =====
-- crates/fava-routing: a plan made of two destinations, and the theorems at it.
use fava.Base.{ℕ, ◌≤◌, ◌≡◌, ◌||◌, refl, List, [], ◌∷◌, ok, length}
use fava.BTreeMap.{nat_key}
use fava.Routing.Plan.{
  RouteTarget, author, target_key, covered, unresolved, RouteDestination, RouteContribution,
  RoutePlan, whole_request, PlannedRelay,
}
use fava.Routing.Contribution.{from_contribution, explicit_plan}
use fava.Routing.Coverage.{plans, covers, lists, from_contribution-covers}
use fava.BTreeSet.{contains}
use fava.Routing.Bounds.{from_contribution-bound}

abbrev destination : List RouteTarget → RouteDestination
destination targets = record { session = 1; targets = targets; router = "outbox"; reason = "10002" }

abbrev contribution : RouteContribution
contribution = record {
  destinations = destination (author 7 ∷ []) ∷ destination (author 8 ∷ []) ∷ [];
  coverage = (author 9, unresolved) ∷ [];
  unresolved = [];
  shortfalls = [];
}

-- One relay for both authors, and one author still without.
abbrev plan : RoutePlan
plan = record {
  revision = 3;
  destinations =
      (
        1,
        record {
          session = 1;
          targets = author 7 ∷ author 8 ∷ [];
          reasons = ("outbox", "10002") ∷ [];
        },
      )
      ∷ [];
  coverage =
      (author 7, covered (1 ∷ [])) ∷ (author 8, covered (1 ∷ [])) ∷ (author 9, unresolved) ∷ [];
  unresolved = author 9 ∷ [];
  shortfalls = [];
}

planned : from_contribution 3 contribution ≡ ok plan
unfolding from_contribution fava.Routing.Contribution.validate_bounds
    fava.Routing.Contribution.bounded fava.BTreeSet.extend fava.BTreeSet.insert
    fava.Routing.Contribution.validate_reasons fava.Routing.Contribution.validate_covered
    fava.Routing.Contribution.validate_shortfalls fava.BTreeMap.insert
planned = refl

from_contribution-covers_example :
    (plans 1 (author 8) plan.destinations ≡ lists 1 (author 8) contribution.destinations)
    × (covers 1 (author 8) plan.coverage ≡ (
        covers 1 (author 8) contribution.coverage || lists 1 (author 8) contribution.destinations))
from_contribution-covers_example = from_contribution-covers 1 (author 8) 3 contribution planned

from_contribution-bound_example :
    (length plan.destinations ≤ 256) × (plan.shortfalls ≡ contribution.shortfalls) × ◌≡◌ {A = ℕ} 3 3
from_contribution-bound_example = from_contribution-bound 3 contribution planned

-- Two relays that the application selects, of which one is named twice.
abbrev explicit_relay : ℕ → ℕ × PlannedRelay
explicit_relay session = (
  session,
  record {
    session = session;
    targets = whole_request ∷ [];
    reasons = ("explicit", "application-selected relay") ∷ [];
  },
)

abbrev selected : RoutePlan
selected = record {
  revision = 1;
  destinations = explicit_relay 1 ∷ explicit_relay 2 ∷ [];
  coverage = (whole_request, covered (1 ∷ 2 ∷ [])) ∷ [];
  unresolved = [];
  shortfalls = [];
}

selects : explicit_plan (2 ∷ 1 ∷ 2 ∷ []) (whole_request ∷ []) ≡ ok selected
unfolding explicit_plan fava.Routing.Contribution.validate_bounds fava.Routing.Contribution.bounded
    fava.BTreeSet.extend fava.BTreeSet.insert fava.Routing.Contribution.validate_reasons
    fava.Routing.Contribution.validate_covered fava.Routing.Contribution.validate_shortfalls
    fava.BTreeMap.insert
selects = refl
