-- ===== src/Routing/Contribution.antt =====
-- crates/fava-routing/src/lib.rs and chain.rs: contributions, their bounds, and the plan that is made
-- of one.
use Prim.Native.String.{len}
use fava.Base.{
  ℕ, ◌≡◌, ◌↔◌, arith, Bool, true, false, ◌&&◌, ◌||◌, String, Option, none, some, List, [], ◌∷◌, map,
  ltb, if◌then◌else◌, str_eq, eq_iff, length, keep, Result, ok, err, ◌>>=◌,
}
use fava.BTreeMap.{BTreeMap, Key, nat_key, string_key, get, insert, values}
use fava.BTreeSet.{BTreeSet, extend}
use fava.Nostr.{RelayUrl}
use fava.Routing.Plan.{
  RouteTarget, target_key, CoverageState, covered, unresolved, settled_absent, RouteDestination,
  RouteContribution, PlannedRelay, RoutePlan,
}

abbrev pub max_destinations : ℕ
max_destinations = 256

abbrev pub max_covered_sessions : ℕ
max_covered_sessions = 256

abbrev pub max_text_bytes : ℕ
max_text_bytes = 4096

-- `RouterError::Refused` for a bound.
pub data RouterError : Type 0 where
  exceeds_bound : RouterError

unfoldable pub bounded : ℕ → ℕ → Result RouterError (Unit {0})
bounded actual maximum = if ltb maximum actual then err exceeds_bound else ok tt

-- The loops of `validate_bounds`.
unfoldable pub validate_reasons : List RouteDestination → Result RouterError (Unit {0})
unfolding bounded
validate_reasons [] = ok tt
validate_reasons (destination ∷ destinations) = do
  _ ← bounded (len destination.reason) max_text_bytes
  validate_reasons destinations

unfoldable pub validate_covered : List CoverageState → Result RouterError (Unit {0})
unfolding bounded
validate_covered [] = ok tt
validate_covered (covered sessions ∷ states) = do
  _ ← bounded (length sessions) max_covered_sessions
  validate_covered states
validate_covered (_ ∷ states) = validate_covered states

unfoldable pub validate_shortfalls : List String → Result RouterError (Unit {0})
unfolding bounded
validate_shortfalls [] = ok tt
validate_shortfalls (shortfall ∷ shortfalls) = do
  _ ← bounded (len shortfall) max_text_bytes
  validate_shortfalls shortfalls

abbrev pub sessions_of : List RouteDestination → List RelayUrl
sessions_of = map (λ destination. destination.session)

unfoldable pub validate_bounds : RouteContribution → Result RouterError (Unit {0})
validate_bounds contribution = do
  _ ← bounded (length (extend [] (sessions_of contribution.destinations))) max_destinations
  _ ← validate_reasons contribution.destinations
  _ ← validate_covered (values contribution.coverage)
  validate_shortfalls contribution.shortfalls

unfoldable pub merge_coverage : CoverageState → CoverageState → CoverageState
merge_coverage (covered current) (covered incoming) = covered (extend current incoming)
merge_coverage unresolved (covered incoming) = covered incoming
merge_coverage settled_absent (covered incoming) = covered incoming
merge_coverage (covered current) unresolved = covered current
merge_coverage unresolved unresolved = unresolved
merge_coverage settled_absent unresolved = unresolved
merge_coverage current settled_absent = current

-- `merge_coverage(coverage.entry(target).or_insert(Unresolved), state)`.
abbrev pub or_unresolved : Option CoverageState → CoverageState
or_unresolved none = unresolved
or_unresolved (some state) = state

unfoldable pub merge_entry :
    RouteTarget
    → CoverageState
    → BTreeMap RouteTarget CoverageState
    → BTreeMap RouteTarget CoverageState
unfolding merge_coverage
merge_entry target state coverage =
    insert target (merge_coverage (or_unresolved (get target coverage)) state) coverage

pub pair_eq_iff : (a b : String × String) → ((str_eq a.0 b.0 && str_eq a.1 b.1) ≡ true) ↔ (a ≡ b)
pair_eq_iff a b = ground (arith, eq_iff a.0 b.0, eq_iff a.1 b.1)

instance abbrev pub text_pair_key : Key (String × String)
text_pair_key = record {
  beq = λ a b. str_eq a.0 b.0 && str_eq a.1 b.1;
  blt = λ a b. string_key.blt a.0 b.0 || (str_eq a.0 b.0 && string_key.blt a.1 b.1);
  beq_iff = pair_eq_iff;
}

abbrev pub planned_or_new : RelayUrl → Option PlannedRelay → PlannedRelay
planned_or_new session none = record { session = session; targets = []; reasons = [] }
planned_or_new session (some planned) = planned

-- One round of the loop over the destinations, and the loop in it over the targets.
unfoldable pub plan_destination :
    RouteDestination → BTreeMap RelayUrl PlannedRelay → BTreeMap RelayUrl PlannedRelay
plan_destination destination destinations =
    let planned = planned_or_new destination.session (get destination.session destinations) in
    insert destination.session
      (record planned {
        targets = extend planned.targets destination.targets;
        reasons = fava.BTreeSet.insert (destination.router, destination.reason) planned.reasons;
      })
      destinations

unfoldable pub cover_targets :
    RelayUrl
    → List RouteTarget
    → BTreeMap RouteTarget CoverageState
    → BTreeMap RouteTarget CoverageState
unfolding merge_entry
cover_targets session [] coverage = coverage
cover_targets session (target ∷ targets) coverage =
    cover_targets session targets (merge_entry target (covered (session ∷ [])) coverage)

abbrev pub Planned : Type 0
Planned = BTreeMap RelayUrl PlannedRelay × BTreeMap RouteTarget CoverageState

unfoldable pub plan_all : List RouteDestination → Planned → Planned
unfolding plan_destination cover_targets
plan_all [] planned = planned
plan_all (destination ∷ rest) (destinations, coverage) = plan_all rest (
  plan_destination destination destinations,
  cover_targets destination.session destination.targets coverage,
)

abbrev pub is_unresolved : CoverageState → Bool
is_unresolved unresolved = true
is_unresolved _ = false

unfoldable pub from_contribution : ℕ → RouteContribution → Result RouterError RoutePlan
unfolding plan_all
from_contribution revision contribution = do
  _ ← validate_bounds contribution
  let planned = plan_all contribution.destinations ([], contribution.coverage)
  ok (record {
    revision = revision;
    destinations = planned.0;
    coverage = planned.1;
    unresolved =
        extend contribution.unresolved
          (map (λ e. e.0) (keep (λ e. is_unresolved e.1) contribution.coverage));
    shortfalls = contribution.shortfalls;
  })

-- `RoutePlan::explicit`.
abbrev pub explicit_destination : BTreeSet RouteTarget → RelayUrl → RouteDestination
explicit_destination targets relay = record {
  session = relay;
  targets = targets;
  router = "explicit";
  reason = "application-selected relay";
}

unfoldable pub explicit_plan : List RelayUrl → BTreeSet RouteTarget → Result RouterError RoutePlan
unfolding from_contribution
explicit_plan relays targets = from_contribution 1 (record {
  destinations = map (explicit_destination targets) relays;
  coverage = [];
  unresolved = [];
  shortfalls = [];
})
