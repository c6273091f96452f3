-- ===== src/Planner/Service.antt =====
-- crates/fava-subscriptions/src/plan.rs: what it is for a demand to be served, or to be reported.
use fava.Base.{◌≡◌, true, List, ◌++◌, In, append_left}
use fava.BTreeMap.{pair_key, nat_key}
use fava.BTreeSet.{contains}
use fava.Nostr.{Event}
use fava.Subscriptions.Filter.{Filter}
use fava.Subscriptions.Matching.{Matcher, matches}
use fava.Subscriptions.Grouping.{RelayDemand}
use fava.Planner.Types.{AttributedSubscription, SubscriptionShortfall, demand_id, DemandId}

module _ (matcher : Matcher) where
  -- The filter asks for every event that the demand asks for.
  abbrev pub Covers : Filter → RelayDemand → Type 0
  Covers f d = (e : Event) → matches matcher d.filter e ≡ true → matches matcher f e ≡ true

  pub record Serves (filters : List Filter) (serves : List DemandId) (d : RelayDemand)
      : Type 0 where
    pub named : contains (demand_id d) serves ≡ true
    pub filter : Filter
    pub asked : In filter filters
    pub covers : Covers filter d

  pub record ServedBy (subscriptions : List AttributedSubscription) (d : RelayDemand) : Type 0 where
    pub by : AttributedSubscription
    pub there : In by subscriptions
    pub serves : Serves by.filters by.serves d

pub record Reported (shortfalls : List SubscriptionShortfall) (d : RelayDemand) : Type 0 where
  pub shortfall : SubscriptionShortfall
  pub there : In shortfall shortfalls
  pub named : shortfall.demand ≡ demand_id d

pub Reported-append :
    (xs ys : List SubscriptionShortfall) (d : RelayDemand) → Reported xs d → Reported (xs ++ ys) d
Reported-append xs ys d r = record {
  shortfall = r.shortfall;
  there = append_left r.shortfall xs ys r.there;
  named = r.named;
}
