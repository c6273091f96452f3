-- ===== src/Planner/Types.antt =====
-- crates/fava-subscriptions/src/installed.rs, constraints.rs, plan.rs and planner.rs: what is
-- running, what the relay declares, and the plan. A subscription identity is its text.
use fava.Base.{
  is_empty, ℕ, if◌then◌else◌, Bool, true, false, not, ◌&&◌, String, Option, List, [], ◌∷◌, any,
  is_none,
}
use fava.BTreeMap.{BTreeMap}
use fava.BTreeSet.{BTreeSet}
use fava.Nostr.{RelayUrl}
use fava.Subscriptions.Filter.{Filter, filter_eq}
use fava.Subscriptions.Grouping.{RelayDemand}

abbrev pub SubscriptionId : Type 0
SubscriptionId = String

-- The owner, then the branch.
abbrev pub DemandId : Type 0
DemandId = ℕ × ℕ

abbrev pub demand_id : RelayDemand → DemandId
demand_id d = (d.owner, d.branch)

pub record InstalledSubscription : Type 0 where
  pub filters : List Filter
  pub serves : BTreeSet DemandId

abbrev pub InstalledSubscriptions : Type 0
InstalledSubscriptions = BTreeMap SubscriptionId InstalledSubscription

-- `DeclaredLimit`: a limit that the relay does not declare is unknown.
pub record RelayReadConstraints : Type 0 where
  pub max_subscriptions : Option ℕ
  pub max_message_bytes : Option ℕ
  pub max_subscription_id_chars : Option ℕ
  pub max_filter_limit : Option ℕ
  pub default_filter_limit : Option ℕ

pub data EoseCompleteness : Type 0 where
  proven limited_request relay_default_limit : EoseCompleteness

-- `AttributedSubscription`, and `PlannedSubscription` of the same fields.
pub record AttributedSubscription : Type 0 where
  pub filters : List Filter
  pub serves : BTreeSet DemandId
  pub completeness : EoseCompleteness

pub data ShortfallReason : Type 0 where
  subscriptions_exhausted message_too_large filter_limit_exceeded : ℕ → ℕ → ShortfallReason
  not_expressible : String → ShortfallReason

pub record SubscriptionShortfall : Type 0 where
  pub demand : DemandId
  pub reason : ShortfallReason

-- `PlanRevision`: the authority, and the sequence that it issued.
pub record PlanRevision : Type 0 where
  pub authority : ℕ
  pub sequence : ℕ

pub record SubscriptionPlan : Type 0 where
  pub relay : RelayUrl
  pub revision : PlanRevision
  pub open_subscriptions : List AttributedSubscription
  pub retain : List SubscriptionId
  pub close : List SubscriptionId
  pub attribution : BTreeMap SubscriptionId AttributedSubscription
  pub shortfalls : List SubscriptionShortfall

pub data SubscriptionPlanError : Type 0 where
  duplicate_demand : DemandId → SubscriptionPlanError
  encoding : String → SubscriptionPlanError

unfoldable pub is_noop : SubscriptionPlan → Bool
is_noop plan = is_empty plan.open_subscriptions && is_empty plan.close

-- `PartialEq` of a vector of filters.
unfoldable pub filters_eq : List Filter → List Filter → Bool
filters_eq [] [] = true
filters_eq (a ∷ left) (b ∷ right) = filter_eq a b && filters_eq left right
filters_eq _ _ = false

unfoldable pub completeness_of : List Filter → RelayReadConstraints → EoseCompleteness
completeness_of filters constraints =
    if any (λ (f : Filter). not (is_none f.limit)) filters
    then limited_request
    else if not (is_none constraints.default_filter_limit)
    then relay_default_limit
    else proven
