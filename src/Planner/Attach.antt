-- ===== src/Planner/Attach.antt =====
-- crates/fava-subscriptions-standard/src/attach.rs: which demand is served already.
use fava.Base.{
  Option, none, some, List, [], ◌∷◌, ◌++◌, map, any, keep, if◌then◌else◌, ◌&&◌, is_none,
}
use fava.BTreeMap.{BTreeMap, pair_key, string_key, get, insert}
use fava.BTreeSet.{BTreeSet, contains, extend}
use fava.Subscriptions.Coverage.{filter_covers}
use fava.Subscriptions.Grouping.{RelayDemand}
use fava.Planner.Types.{
  SubscriptionId, DemandId, demand_id, InstalledSubscription, InstalledSubscriptions,
}

abbrev pub Attached : Type 0
Attached = BTreeMap SubscriptionId (BTreeSet DemandId)

abbrev pub or_empty : Option (BTreeSet DemandId) → BTreeSet DemandId
or_empty none = []
or_empty (some s) = s

-- `attached.entry(id).or_default().extend(serves)`.
unfoldable pub attach : SubscriptionId → List DemandId → Attached → Attached
attach id serves attached = insert id (extend (or_empty (get id attached)) serves) attached

-- The loop of `host_for` over the running subscriptions, with the first that covers the demand.
unfoldable pub host_among :
    RelayDemand → Option SubscriptionId → InstalledSubscriptions → Option SubscriptionId
host_among demand covering [] = covering
host_among demand covering ((id, entry) ∷ running) =
    let covering' =
      if is_none covering && any (λ f. filter_covers f demand.filter) entry.filters
      then some id
      else covering in
    let later = host_among demand covering' running in
    if contains (demand_id demand) entry.serves then some id else later

unfoldable pub host_for : RelayDemand → InstalledSubscriptions → Option SubscriptionId
unfolding host_among
host_for demand installed = host_among demand none installed

unfoldable pub admit_one :
    InstalledSubscriptions → Attached × List RelayDemand → RelayDemand → Attached × List RelayDemand
admit_one installed (attached, pending) item = elim (host_for item installed) [
  | some id ↦ (attach id (demand_id item ∷ []) attached, pending)
  | none ↦ (attached, pending ++ item ∷ [])
]

unfoldable pub admit_all :
    InstalledSubscriptions
    → Attached × List RelayDemand
    → List RelayDemand
    → Attached × List RelayDemand
admit_all installed state [] = state
admit_all installed state (item ∷ demand) =
    admit_all installed (admit_one installed state item) demand

unfoldable pub admit : List RelayDemand → InstalledSubscriptions → Attached × List RelayDemand
admit demand installed = admit_all installed ([], []) demand

-- The owners that a running subscription keeps, with those that joined it.
unfoldable pub still_owners :
    BTreeSet DemandId → Attached → SubscriptionId → InstalledSubscription → BTreeSet DemandId
still_owners requested attached id entry =
    extend (keep (λ served. contains served requested) entry.serves) (or_empty (get id attached))

abbrev pub keep_owner : SubscriptionId → BTreeSet DemandId → Attached → Attached
keep_owner id [] owners = owners
keep_owner id (first ∷ rest) owners = insert id (first ∷ rest) owners

unfoldable pub owners_among :
    BTreeSet DemandId → Attached → InstalledSubscriptions → Attached → Attached
unfolding still_owners
owners_among requested attached [] owners = owners
owners_among requested attached ((id, entry) ∷ running) owners =
    owners_among requested attached running
      (keep_owner id (still_owners requested attached id entry) owners)

unfoldable pub surviving_owners : List RelayDemand → InstalledSubscriptions → Attached → Attached
unfolding owners_among
surviving_owners demand installed attached =
    owners_among (extend [] (map demand_id demand)) attached installed []
