-- ===== src/Planner/Candidates.antt =====
-- crates/fava-subscriptions-standard/src/lib.rs: the steps of `plan` before and behind the message
-- bound.
use fava.Base.{
  drop, ℕ, ◌+◌, ◌-◌, Option, none, some, List, [], ◌∷◌, ◌++◌, map, take, length, leb, ltb,
  if◌then◌else◌,
}
use fava.BTreeMap.{pair_key, string_key}
use fava.BTreeSet
use fava.BTreeSet.{BTreeSet, contains, extend}
use fava.Subscriptions.Filter.{Filter}
use fava.Subscriptions.Grouping.{RelayDemand}
use fava.Planner.Types.{
  SubscriptionId, DemandId, RelayReadConstraints, AttributedSubscription, SubscriptionShortfall,
  subscriptions_exhausted, filter_limit_exceeded, demand_id, InstalledSubscriptions,
  SubscriptionPlanError, duplicate_demand, filters_eq,
}
use fava.Planner.Attach.{Attached, attach}

-- `none` if no demand is there twice.
unfoldable pub refuse_duplicate :
    BTreeSet DemandId → List RelayDemand → Option SubscriptionPlanError
refuse_duplicate seen [] = none
refuse_duplicate seen (item ∷ demand) =
    let rest = refuse_duplicate (BTreeSet.insert (demand_id item) seen) demand in
    if contains (demand_id item) seen then some (duplicate_demand (demand_id item)) else rest

unfoldable pub refuse_duplicate_demand : List RelayDemand → Option SubscriptionPlanError
unfolding refuse_duplicate
refuse_duplicate_demand demand = refuse_duplicate [] demand

abbrev pub exceeding : RelayDemand → ℕ → Option ℕ
exceeding item maximum = elim item.filter.limit [
  | none ↦ none
  | some required ↦ if ltb maximum required then some required else none
]

abbrev pub Admission : Type 0
Admission = List RelayDemand × List SubscriptionShortfall

unfoldable pub admit_limits : ℕ → List RelayDemand → Admission
admit_limits maximum [] = ([], [])
admit_limits maximum (item ∷ demand) =
    let rest = admit_limits maximum demand in
    elim (exceeding item maximum) [
      | some required ↦ (
        rest.0,
        record { demand = demand_id item; reason = filter_limit_exceeded required maximum }
            ∷ rest.1,
      )
      | none ↦ (item ∷ rest.0, rest.1)
    ]

unfoldable pub admit_filter_limits : List RelayDemand → RelayReadConstraints → Admission
unfolding admit_limits
admit_filter_limits demand constraints = elim constraints.max_filter_limit [
  | none ↦ (demand, [])
  | some maximum ↦ admit_limits maximum demand
]

-- Adds the owners of a candidate to the first that has the same filters, or puts it behind them.
unfoldable pub fold_candidate :
    AttributedSubscription → List AttributedSubscription → List AttributedSubscription
fold_candidate candidate [] = candidate ∷ []
fold_candidate candidate (seen ∷ folded) =
    if filters_eq seen.filters candidate.filters
    then record seen { serves = extend seen.serves candidate.serves } ∷ folded
    else seen ∷ fold_candidate candidate folded

unfoldable pub fold_identical :
    List AttributedSubscription → List AttributedSubscription → List AttributedSubscription
unfolding fold_candidate
fold_identical folded [] = folded
fold_identical folded (candidate ∷ candidates) =
    fold_identical (fold_candidate candidate folded) candidates

unfoldable pub fold_identical_filters : List AttributedSubscription → List AttributedSubscription
unfolding fold_identical
fold_identical_filters candidates = fold_identical [] candidates

-- `installed.ids().find(..)`.
unfoldable pub running_as : List Filter → InstalledSubscriptions → Option SubscriptionId
running_as filters [] = none
running_as filters ((id, entry) ∷ running) =
    if filters_eq entry.filters filters then some id else running_as filters running

unfoldable pub fold_into_running :
    List AttributedSubscription
    → InstalledSubscriptions
    → Attached
    → List AttributedSubscription × Attached
fold_into_running [] installed attached = ([], attached)
fold_into_running (candidate ∷ candidates) installed attached =
    elim (running_as candidate.filters installed) [
      | some id ↦ fold_into_running candidates installed (attach id candidate.serves attached)
      | none ↦
          let rest = fold_into_running candidates installed attached in (candidate ∷ rest.0, rest.1)
    ]

-- The shortfalls of the candidates that are dropped.
abbrev pub exhausted : ℕ → ℕ → DemandId → SubscriptionShortfall
exhausted required maximum demand = record {
  demand = demand;
  reason = subscriptions_exhausted required maximum;
}

unfoldable pub drop_all : ℕ → ℕ → List AttributedSubscription → List SubscriptionShortfall
drop_all required maximum [] = []
drop_all required maximum (dropped ∷ rest) =
    map (exhausted required maximum) dropped.serves ++ drop_all required maximum rest

unfoldable pub fit_residual_count :
    List AttributedSubscription
    → RelayReadConstraints
    → ℕ
    → List SubscriptionShortfall
    → List AttributedSubscription × List SubscriptionShortfall
unfolding drop_all
fit_residual_count candidates constraints running shortfalls = elim constraints.max_subscriptions [
  | none ↦ (candidates, shortfalls)
  | some maximum ↦
      if leb (length candidates) (maximum - running) then (candidates, shortfalls) else (
        take (maximum - running) candidates,
        shortfalls
            ++ drop_all (running + length candidates) maximum (drop (maximum - running) candidates),
      )
]
