-- ===== src/Tests/Planned.antt =====
-- crates/fava-subscriptions-standard: a plan for two demands where two subscriptions run, and the
-- theorems at it.
use fava.Base.{
  ◌+◌, ◌≤◌, ◌≡◌, ◌≢◌, refl, true, false, String, none, some, [], ◌∷◌, inl, inr, ◌⊎◌, arith, ok, In,
  subst,
}
use fava.BTreeMap.{string_key, pair_key}
use fava.BTreeSet.{contains}
use fava.BTreeMap.Distinct.{Distinct}
use fava.Subscriptions.Filter.{Filter}
use fava.Subscriptions.Grouping.{RelayDemand}
use fava.Planner.Types.{
  RelayReadConstraints, SubscriptionPlan, InstalledSubscriptions, proven, demand_id, SubscriptionId,
  InstalledSubscription,
}
use fava.Planner.Candidates.{admit_filter_limits}
use fava.Planner.Plan.{Request, plan}
use fava.Planner.Joins.{IsTruthful, Carried}
use fava.Planner.Accounts.{IsWellFormed, Accounted, plan-accounts}
use fava.Planner.Limits.{plan-within, plan-Parted}
use fava.Planner.Answers.{plan-answers}
use fava.Tests.Plans.{matcher, by_author, needs, demand, encoding, faithful, distinct}

-- "old" still serves the demand for key 7, and the owner of "gone" is no longer there.
abbrev running : InstalledSubscriptions
running =
    ("gone", record { filters = by_author 5 ∷ []; serves = (5, 0) ∷ [] })
    ∷ ("old", record { filters = by_author 7 ∷ []; serves = (7, 0) ∷ [] })
    ∷ []

abbrev limits : RelayReadConstraints
limits = record {
  max_subscriptions = some 2;
  max_message_bytes = some 400;
  max_subscription_id_chars = none;
  max_filter_limit = none;
  default_filter_limit = none;
}

abbrev request : Request
request = record {
  canonical = encoding;
  encoded_bytes = λ f. ok 100;
  less = λ a b. false;
  relay = 1;
  demand = demand;
  constraints = limits;
  installed = running;
  revision = record { authority = 1; sequence = 1 };
}

abbrev planned_for_two : SubscriptionPlan
planned_for_two = record {
  relay = 1;
  revision = record { authority = 1; sequence = 1 };
  open_subscriptions =
      record { filters = by_author 8 ∷ []; serves = (8, 0) ∷ []; completeness = proven } ∷ [];
  retain = "old" ∷ [];
  close = "gone" ∷ [];
  attribution =
      ("old", record { filters = by_author 7 ∷ []; serves = (7, 0) ∷ []; completeness = proven })
      ∷ [];
  shortfalls = [];
}

plan_run : plan request ≡ some (ok planned_for_two)
unfolding plan fava.BTreeSet.contains fava.BTreeSet.insert fava.BTreeSet.set_eq fava.BTreeSet.extend
    fava.BTreeMap.get fava.BTreeMap.insert fava.BTreeMap.remove fava.Planner.Attach.admit_all
    fava.Planner.Attach.admit_one fava.Planner.Attach.host_for fava.Planner.Attach.admit
    fava.Planner.Attach.attach fava.Planner.Attach.host_among fava.Planner.Attach.owners_among
    fava.Planner.Attach.still_owners fava.Planner.Attach.surviving_owners
    fava.Subscriptions.Coverage.filter_covers fava.Subscriptions.Filter.filter_eq
    fava.Subscriptions.Coverage.covers_set fava.Subscriptions.Coverage.is_subset
    fava.Subscriptions.Grouping.fold_identical_unions
    fava.Subscriptions.Grouping.merge_to_fixed_point fava.Subscriptions.Grouping.bucket_by_filter
    fava.Subscriptions.Grouping.bucket_all fava.Subscriptions.Grouping.canonical_order
    fava.Subscriptions.Grouping.bucket fava.Planner.Candidates.admit_filter_limits
    fava.Planner.Candidates.fit_residual_count fava.Planner.Candidates.fold_identical_filters
    fava.Planner.Candidates.fold_into_running fava.Planner.Candidates.refuse_duplicate_demand
    fava.Planner.Candidates.running_as fava.Planner.Diff.assemble fava.Planner.Diff.attributed
    fava.Planner.Diff.retain_all fava.Sorting.sort_by fava.Planner.Diff.withdrawals
    fava.Planner.Message.carry fava.Planner.Message.fit_message_bound fava.Planner.Message.fit_one
    fava.Planner.Message.fit_rounds fava.Planner.Plan.plan_admitted fava.Planner.Plan.plan_carried
    fava.Planner.Types.completeness_of fava.Planner.Types.filters_eq
    fava.Subscriptions.Filter.tags_eq fava.Subscriptions.Grouping.group
    fava.Subscriptions.Grouping.merge_first_pair fava.Subscriptions.Grouping.place
    fava.Subscriptions.Grouping.sorted fava.Subscriptions.Grouping.take_all
    fava.Subscriptions.Grouping.uniform_bounds fava.Subscriptions.Grouping.absorb
plan_run = refl

running-Distinct : Distinct running
unfolding fava.BTreeMap.get
running-Distinct = (refl, (refl, tt))

abbrev gone : SubscriptionId × InstalledSubscription
gone = ("gone", record { filters = by_author 5 ∷ []; serves = (5, 0) ∷ [] })

abbrev old : SubscriptionId × InstalledSubscription
old = ("old", record { filters = by_author 7 ∷ []; serves = (7, 0) ∷ [] })

-- "old" runs with the filter of the demand that it serves, and "gone" serves none of the demand.
abbrev Truthful : SubscriptionId × InstalledSubscription → RelayDemand → Type 0
Truthful e d = contains (demand_id d) e.1.serves ≡ true → Carried matcher e.1 d

Truthful-gone : (d : RelayDemand) → In d demand → Truthful gone d
unfolding contains
Truthful-gone d (inl q) = subst (Truthful gone) q (λ served. absurd (ground (arith, served)))
Truthful-gone d (inr (inl q)) = subst (Truthful gone) q (λ served. absurd (ground (arith, served)))
Truthful-gone d (inr (inr q)) = elim q [ ]

Truthful-old : (d : RelayDemand) → In d demand → Truthful old d
unfolding contains
Truthful-old d (inl q) = subst (Truthful old) q (λ served. absurd (ground (arith, served)))
Truthful-old d (inr (inl q)) =
    subst (Truthful old) q
      (λ served. record { filter = by_author 7; asked = inl refl; covers = λ e wanted. wanted })
Truthful-old d (inr (inr q)) = elim q [ ]

running-IsTruthful : IsTruthful matcher running demand
running-IsTruthful id entry d (inl p) j = subst (λ e. Truthful e d) p (Truthful-gone d j)
running-IsTruthful id entry d (inr (inl p)) j = subst (λ e. Truthful e d) p (Truthful-old d j)
running-IsTruthful id entry d (inr (inr p)) j = elim p [ ]

well_formed : IsWellFormed matcher request
well_formed = record {
  faithful = faithful;
  names = distinct;
  running = running-Distinct;
  truthful = running-IsTruthful;
}

plan-accounts_example : Accounted matcher request planned_for_two (needs 7)
plan-accounts_example =
    plan-accounts matcher request (needs 7) well_formed (inr (inl refl)) plan_run

plan-within_example : 1 + 1 ≤ 2
plan-within_example = plan-within request 2 refl plan_run

plan-Parted_example :
    (In {A = String} "gone" ("old" ∷ []) × ¬ In {A = String} "gone" ("gone" ∷ []))
    ⊎ (In {A = String} "gone" ("gone" ∷ [])
        × ¬ In {A = String} "gone" ("old" ∷ [])
        × ((d : RelayDemand)
            → In d (admit_filter_limits demand limits).0
            → contains (demand_id d) ((5, 0) ∷ []) ≡ false))
plan-Parted_example = plan-Parted request "gone" _ running-Distinct (inl refl) plan_run

plan-answers_example : (out : SubscriptionPlan) × (plan request ≡ some (ok out))
plan-answers_example =
    plan-answers request ((λ x i e. differ x i e), ((λ x i. elim i [ ]), tt)) (λ f. (100, refl))
  where
    differ : (x : RelayDemand) → In x (needs 7 ∷ []) → demand_id (needs 8) ≢ demand_id x
    differ x (inl e) same = absurd (ground (arith, e, same))
    differ x (inr none_left) same = absurd none_left
