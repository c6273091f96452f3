-- ===== src/Planner/Diff.antt =====
-- crates/fava-subscriptions-standard/src/diff.rs: the answer against what is running. `less` is the
-- order that the `nostr` crate derives for lists of filters.
use fava.Base.{Bool, none, some, List, [], ◌∷◌, keep, is_none}
use fava.BTreeMap.{BTreeMap, string_key, get, insert, keys}
use fava.Sorting.{sort_by}
use fava.BTreeSet.{BTreeSet}
use fava.Nostr.{RelayUrl}
use fava.Subscriptions.Filter.{Filter}
use fava.Planner.Types.{
  SubscriptionId, DemandId, RelayReadConstraints, AttributedSubscription, SubscriptionShortfall,
  PlanRevision, SubscriptionPlan, InstalledSubscription, InstalledSubscriptions, completeness_of,
}
use fava.Planner.Attach.{Attached}

unfoldable pub attributed :
    RelayReadConstraints → BTreeSet DemandId → InstalledSubscription → AttributedSubscription
attributed constraints serves entry = record {
  filters = entry.filters;
  serves = serves;
  completeness = completeness_of entry.filters constraints;
}

-- The loop over the owners: the attribution and the retained identities.
abbrev pub Retained : Type 0
Retained = BTreeMap SubscriptionId AttributedSubscription × List SubscriptionId

unfoldable pub retain_all : RelayReadConstraints → InstalledSubscriptions → Attached → Retained
retain_all constraints installed [] = ([], [])
retain_all constraints installed ((id, serves) ∷ owners) =
    let rest = retain_all constraints installed owners in
    elim (get id installed) [
      | none ↦ rest
      | some entry ↦ (insert id (attributed constraints serves entry) rest.0, id ∷ rest.1)
    ]

unfoldable pub withdrawals : InstalledSubscriptions → Attached → List SubscriptionId
withdrawals installed owners = keep (λ id. is_none (get id owners)) (keys installed)

unfoldable pub assemble :
    (List Filter → List Filter → Bool)
    → RelayUrl
    → PlanRevision
    → List AttributedSubscription
    → RelayReadConstraints
    → InstalledSubscriptions
    → Attached
    → List SubscriptionShortfall
    → SubscriptionPlan
unfolding sort_by retain_all withdrawals
assemble less relay revision opened constraints installed owners shortfalls = record {
  relay = relay;
  revision = revision;
  open_subscriptions = sort_by (λ a b. less a.filters b.filters) opened;
  retain = sort_by string_key.blt (retain_all constraints installed owners).1;
  close = withdrawals installed owners;
  attribution = (retain_all constraints installed owners).0;
  shortfalls = shortfalls;
}
