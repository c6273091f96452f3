-- ===== src/Planner/Accounts.antt =====
-- crates/fava-subscriptions-standard/src/lib.rs: what a plan does with all of the demand, with the
-- running subscriptions and with the limits of the relay.
use fava.Base.{
  ◌*◌, ◌≡◌, Option, some, List, [], length, map, Result, ok, err, ok_injective, some_injective, In,
  inl, inr, ◌⊎◌, Option-cases, subst,
}
use fava.BTreeMap.{nat_key, pair_key, string_key, get}
use fava.BTreeMap.Distinct.{Distinct, get_of_In}
use fava.BTreeSet.{BTreeSet, extend}
use fava.Subscriptions.Matching.{Matcher}
use fava.Subscriptions.Buckets.{IsFaithful, AllDistinct}
use fava.Subscriptions.Grouping.{RelayDemand, group}
use fava.Planner.Types.{
  DemandId, demand_id, SubscriptionId, AttributedSubscription, SubscriptionShortfall,
  SubscriptionPlan, SubscriptionPlanError,
}
use fava.Planner.Attach.{Attached, admit, surviving_owners}
use fava.Planner.Message.{Fitting, fit_message_bound}
use fava.Planner.Candidates.{
  refuse_duplicate_demand, admit_filter_limits, fold_identical_filters, fold_into_running,
  fit_residual_count,
}
use fava.Planner.Diff.{assemble, attributed}
use fava.Planner.Plan.{Request, plan_carried, plan_admitted, plan}
use fava.Planner.Service.{Serves, ServedBy, Reported}
use fava.Planner.Served.{fit_message_bound-accounts}
use fava.Planner.Joins.{IsTruthful, Joined, admit-Admitted}
use fava.Planner.Pending.{admit-In}
use fava.Planner.Folds.{fold_identical_filters-ServedBy, fold_into_running-accounts}
use fava.Planner.Residual.{
  fit_residual_count-accounts, admit_filter_limits-accounts, admit_filter_limits-In,
}
use fava.Planner.Owners.{owners_among-kept, still_owners-joined, retain_all-found}
use fava.Sorting.{sort_by_of_In}

module _ (matcher : Matcher) (request : Request) where
  open request use {canonical, encoded_bytes, less, relay, demand, constraints, installed, revision}

  -- A running subscription that the plan retains serves the demand, by a filter that it runs with.
  pub record RetainedFor (plan : SubscriptionPlan) (d : RelayDemand) : Type 0 where
    pub id : SubscriptionId
    pub retained : In id plan.retain
    pub attribution : AttributedSubscription
    pub there : get id plan.attribution ≡ some attribution
    pub serves : Serves matcher attribution.filters attribution.serves d

  abbrev pub Accounted : SubscriptionPlan → RelayDemand → Type 0
  Accounted plan d =
      ServedBy matcher plan.open_subscriptions d ⊎ (RetainedFor plan d ⊎ Reported plan.shortfalls d)

  -- Who joined a running subscription is served by it, whatever else is assembled.
  assembled-RetainedFor :
      (admissible : List RelayDemand) (attached : Attached) (opened : List AttributedSubscription)
      (shortfalls : List SubscriptionShortfall) (d : RelayDemand)
      → Distinct installed
      → Joined matcher installed attached d
      → RetainedFor
          (assemble less relay revision opened constraints installed
            (surviving_owners admissible installed attached)
            shortfalls)
          d
  unfolding assemble surviving_owners attributed
  assembled-RetainedFor admissible attached opened shortfalls d distinct joined =
      let running = get_of_In (joined.id, joined.entry) installed distinct joined.running in
      let named =
        still_owners-joined requested attached joined.id joined.entry (demand_id d) joined.named in
      let owner =
        owners_among-kept requested attached installed [] joined.id joined.entry (demand_id d)
          distinct joined.running named in
      let (i, at) =
        retain_all-found constraints installed (surviving_owners admissible installed attached)
          joined.id _ joined.entry owner running in
      record {
        id = joined.id;
        retained = sort_by_of_In string_key.blt joined.id _ i;
        attribution = _;
        there = at;
        serves = record {
          named = named;
          filter = joined.carried.filter;
          asked = joined.carried.asked;
          covers = joined.carried.covers;
        };
      }
    where
      requested : BTreeSet DemandId
      requested = extend [] (map demand_id admissible)

  -- The candidates that are left after the folding are opened or reported.
  opened-accounts :
      (candidates : List AttributedSubscription) (attached : Attached) (owners : Attached)
      (shortfalls : List SubscriptionShortfall) (d : RelayDemand)
      → ServedBy matcher candidates d ⊎ Reported shortfalls d
      → Accounted
          (assemble less relay revision
            (fit_residual_count candidates constraints (length owners) shortfalls).0
            constraints
            installed
            owners
            (fit_residual_count candidates constraints (length owners) shortfalls).1)
          d
  unfolding assemble
  opened-accounts candidates attached owners shortfalls d h =
      elim (fit_residual_count-accounts matcher candidates constraints (length owners) shortfalls d
        h) [
          | inl s ↦
              inl (record { by = s.by; there = sort_by_of_In _ s.by _ s.there; serves = s.serves })
          | inr r ↦ inr (inr r)
        ]

  plan_carried-accounts :
      (admissible : List RelayDemand) (attached : Attached) (carried : List AttributedSubscription)
      (shortfalls : List SubscriptionShortfall) (d : RelayDemand)
      → Distinct installed
      → ServedBy matcher carried d ⊎ (Joined matcher installed attached d ⊎ Reported shortfalls d)
      → Accounted (plan_carried request admissible attached carried shortfalls) d
  unfolding plan_carried
  plan_carried-accounts admissible attached carried shortfalls d distinct h = elim h [
    | inr (inr r) ↦ opened-accounts candidates attached owners shortfalls d (inr r)
    | inr (inl joined) ↦
        finish (fold_into_running-accounts matcher folded installed attached d (inr joined))
    | inl s ↦ finish (
        fold_into_running-accounts matcher folded installed attached d
          (inl (fold_identical_filters-ServedBy matcher carried d s)))
  ]
    where
      folded : List AttributedSubscription
      folded = fold_identical_filters carried

      candidates : List AttributedSubscription
      candidates = (fold_into_running folded installed attached).0

      attached' : Attached
      attached' = (fold_into_running folded installed attached).1

      owners : Attached
      owners = surviving_owners admissible installed attached'

      finish :
          ServedBy matcher candidates d ⊎ Joined matcher installed attached' d
          → Accounted (plan_carried request admissible attached carried shortfalls) d
      finish (inl s) = opened-accounts candidates attached owners shortfalls d (inl s)
      finish (inr joined) = inr (
          inl (
            assembled-RetainedFor admissible attached'
              (fit_residual_count candidates constraints (length owners) shortfalls).0
              (fit_residual_count candidates constraints (length owners) shortfalls).1 d distinct
              joined))

  -- What the planner needs to know of the demand and of what is running.
  pub record IsWellFormed : Type 0 where
    pub faithful : IsFaithful canonical demand
    pub names : AllDistinct demand
    pub running : Distinct installed
    pub truthful : IsTruthful matcher installed demand

  plan_admitted-accounts :
      (admissible : List RelayDemand) (shortfalls : List SubscriptionShortfall)
      {out : SubscriptionPlan} (d : RelayDemand)
      → IsWellFormed
      → ((x : RelayDemand) → In x admissible → In x demand)
      → In d admissible ⊎ Reported shortfalls d
      → plan_admitted request admissible shortfalls ≡ some (ok out)
      → Accounted out d
  unfolding plan_admitted
  plan_admitted-accounts admissible shortfalls {out} d w of h planned = elim (Option-cases fitted) [
    | inl ran_out ↦ cc (rw (ran_out, plan_admitted) at planned)
    | inr (err error, failed) ↦ cc (rw (failed, plan_admitted) at planned)
    | inr (ok fitted, done) ↦
        subst (λ (p : SubscriptionPlan). Accounted p d)
          (ok_injective (some_injective (rw (done, plan_admitted) at planned)))
          (plan_carried-accounts admissible (admit admissible installed).0 fitted.carried
            fitted.shortfalls d w.running (fits fitted done h))
  ]
    where
      pending : List RelayDemand
      pending = (admit admissible installed).1

      fitted : Option (Result SubscriptionPlanError Fitting)
      fitted =
          fit_message_bound canonical encoded_bytes constraints (2 * length pending)
            (group canonical pending constraints.default_filter_limit) shortfalls

      sent :
          (out : Fitting)
          → fitted ≡ some (ok out)
          → In d pending ⊎ Reported shortfalls d
          → ServedBy matcher out.carried d ⊎ Reported out.shortfalls d
      sent out done i =
          fit_message_bound-accounts matcher canonical encoded_bytes constraints demand w.faithful
            w.names (2 * length pending) pending shortfalls d
            (λ x j. of x (admit-In installed admissible x j)) i done

      fits :
          (out : Fitting)
          → fitted ≡ some (ok out)
          → In d admissible ⊎ Reported shortfalls d
          → ServedBy matcher out.carried d
            ⊎ (Joined matcher installed (admit admissible installed).0 d
                ⊎ Reported out.shortfalls d)
      fits out done (inr r) = elim (sent out done (inr r)) [ inl s ↦ inl s | inr r' ↦ inr (inr r') ]
      fits out done (inl i) =
          elim (admit-Admitted matcher installed demand w.truthful admissible d of i) [
            | inl joined ↦ inr (inl joined)
            | inr j ↦ elim (sent out done (inl j)) [ inl s ↦ inl s | inr r ↦ inr (inr r) ]
          ]

  -- Where filters of the demand that have one encoding are the same, none of them holds a tag name
  -- twice, no subscription runs twice, and each that runs asks for all that the demand that it is
  -- said to serve asks for, a plan accounts for every demand: a subscription that it opens or retains
  -- serves it, by a filter that asks for every event that the demand asks for, or a shortfall
  -- reports it.
  pub plan-accounts :
      {out : SubscriptionPlan} (d : RelayDemand)
      → IsWellFormed
      → In d demand
      → plan request ≡ some (ok out)
      → Accounted out d
  unfolding plan
  plan-accounts {out} d w i planned = elim (Option-cases (refuse_duplicate_demand demand)) [
    | inr (error, refused) ↦ cc (rw (refused, plan) at planned)
    | inl single ↦
        plan_admitted-accounts (admit_filter_limits demand constraints).0
          (admit_filter_limits demand constraints).1 d w
          (λ x j. admit_filter_limits-In demand constraints x j)
          (admit_filter_limits-accounts demand constraints d i) (rw (single, plan) at planned)
  ]
