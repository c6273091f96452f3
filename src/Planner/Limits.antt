-- ===== src/Planner/Limits.antt =====
-- crates/fava-subscriptions-standard/src/lib.rs: the plan against the limit on subscriptions and
-- against what is running, and that there is a plan.
use fava.Base.{
  ℕ, ◌+◌, ◌*◌, ◌-◌, ◌≤◌, ◌≡◌, ◌≢◌, arith, max, true, false, Option, none, some, List, [], length,
  map, Result, ok, err, ok_injective, some_injective, In, inl, inr, ◌⊎◌, Option-cases, Bool-cases,
  ◌∙◌, length-take, map_of_In,
}
use fava.BTreeMap.{nat_key, pair_key, string_key, get}
use fava.BTreeMap.Distinct.{Distinct, get_of_In}
use fava.BTreeSet.{BTreeSet, contains, extend, contains-extend, In-contains}
use fava.Subscriptions.Grouping.{RelayDemand, group}
use fava.Planner.Types.{
  DemandId, demand_id, SubscriptionId, AttributedSubscription, SubscriptionShortfall,
  SubscriptionPlan, SubscriptionPlanError, InstalledSubscription,
}
use fava.Planner.Attach.{Attached, admit, surviving_owners}
use fava.Planner.Message.{Fitting, fit_message_bound}
use fava.Planner.Candidates.{
  refuse_duplicate_demand, admit_filter_limits, fit_residual_count, fold_into_running,
  fold_identical_filters,
}
use fava.Planner.Diff.{assemble, retain_all, withdrawals}
use fava.Planner.Plan.{Request, plan_carried, plan_admitted, plan}
use fava.Planner.Owners.{
  owners_among-kept, still_owners-requested, retain_all-found, retain_all-In, length-retain_all-le,
  In-withdrawals, withdrawals_of_In,
}
use fava.Sorting.{sort_by-In, sort_by_of_In, length-sort_by, sort_by}

module _ (request : Request) where
  open request use {canonical, encoded_bytes, less, relay, demand, constraints, installed, revision}

  -- The last step of a plan that came to be.
  plan-end :
      {out : SubscriptionPlan}
      → plan request ≡ some (ok out)
      → (attached : Attached) × (carried : List AttributedSubscription) × (shortfalls : List
          SubscriptionShortfall)
        × (plan_carried request
              (admit_filter_limits demand constraints).0
              attached
              carried
              shortfalls
            ≡ out)
  unfolding plan plan_admitted
  plan-end {out} planned = elim (Option-cases (refuse_duplicate_demand demand)) [
    | inr (error, refused) ↦ cc (rw (refused, plan) at planned)
    | inl single ↦ elim (Option-cases fitted) [
      | inl ran_out ↦ cc (rw (ran_out, plan_admitted) at (rw (single, plan) at planned))
      | inr (err error, failed) ↦ cc (rw (failed, plan_admitted) at (rw (single, plan) at planned))
      | inr (ok fitted, done) ↦ (
        (admit admissible installed).0,
        fitted.carried,
        fitted.shortfalls,
        ok_injective (some_injective (rw (done, plan_admitted) at (rw (single, plan) at planned))),
      )
    ]
  ]
    where
      admissible : List RelayDemand
      admissible = (admit_filter_limits demand constraints).0

      pending : List RelayDemand
      pending = (admit admissible installed).1

      fitted : Option (Result SubscriptionPlanError Fitting)
      fitted =
          fit_message_bound canonical encoded_bytes constraints (2 * length pending)
            (group canonical pending constraints.default_filter_limit)
            (admit_filter_limits demand constraints).1

  length-residual :
      (candidates : List AttributedSubscription) (running m : ℕ)
      (shortfalls : List SubscriptionShortfall)
      → constraints.max_subscriptions ≡ some m
      → length (fit_residual_count candidates constraints running shortfalls).0 ≤ m - running
  unfolding fit_residual_count
  length-residual candidates running m shortfalls declared =
      rw (declared, fit_residual_count) (ground (arith, length-take (m - running) candidates))

  -- What runs after the plan stays within the limit that the relay declares, unless what runs
  -- already is beyond it: then nothing is opened.
  pub plan-within :
      {out : SubscriptionPlan} (m : ℕ)
      → constraints.max_subscriptions ≡ some m
      → plan request ≡ some (ok out)
      → length out.open_subscriptions + length out.retain ≤ max m (length out.retain)
  unfolding plan_carried assemble
  plan-within m declared planned =
      let (attached, carried, shortfalls, e) = plan-end planned in
      let folded = fold_into_running (fold_identical_filters carried) installed attached in
      let owners = surviving_owners (admit_filter_limits demand constraints).0 installed folded.1 in
      rw (← e) (
        omega (
          arith,
          length-sort_by (λ (a b : AttributedSubscription). less a.filters b.filters)
              (fit_residual_count folded.0 constraints (length owners) shortfalls).0,
          length-sort_by string_key.blt (retain_all constraints installed owners).1,
          length-retain_all-le constraints installed owners,
          length-residual folded.0 (length owners) m shortfalls declared,
        ))

  abbrev Parted :
      List SubscriptionId
      → List SubscriptionId
      → List RelayDemand
      → SubscriptionId
      → InstalledSubscription
      → Type 0
  Parted retain close admissible id entry =
      (In id retain × ¬ In id close)
      ⊎ (In id close
          × ¬ In id retain
          × ((d : RelayDemand) → In d admissible → contains (demand_id d) entry.serves ≡ false))

  ownerless :
      (admissible : List RelayDemand) (attached : Attached) (id : SubscriptionId)
      (entry : InstalledSubscription) (d : RelayDemand)
      → Distinct installed
      → In (id, entry) installed
      → get id (surviving_owners admissible installed attached) ≡ none
      → In d admissible
      → contains (demand_id d) entry.serves ≢ true
  unfolding surviving_owners
  ownerless admissible attached id entry d distinct i missing j served = cc (
    missing,
    owners_among-kept requested attached installed [] id entry (demand_id d) distinct i (
        still_owners-requested requested attached id entry (demand_id d) served (
          contains-extend (demand_id d) [] (map demand_id admissible)
          ∙ rw
              (In-contains (demand_id d) (map demand_id admissible)
                (map_of_In d demand_id admissible j))
              (ground arith))),
  )
    where
      requested : BTreeSet DemandId
      requested = extend [] (map demand_id admissible)

  assembled-Parted :
      (admissible : List RelayDemand) (attached : Attached) (id : SubscriptionId)
      (entry : InstalledSubscription)
      → Distinct installed
      → In (id, entry) installed
      → Parted
          (sort_by string_key.blt
            (retain_all constraints installed (surviving_owners admissible installed attached)).1)
          (withdrawals installed (surviving_owners admissible installed attached))
          admissible
          id
          entry
  assembled-Parted admissible attached id entry distinct i =
      elim (Option-cases (get id (surviving_owners admissible installed attached))) [
        | inr (serves, owned) ↦ inl (
          sort_by_of_In string_key.blt id _
              (retain_all-found constraints installed _ id serves entry owned
                (get_of_In (id, entry) installed distinct i)).0,
          λ closed. cc (owned, (In-withdrawals installed _ id closed).1),
        )
        | inl missing ↦ inr (
          withdrawals_of_In installed _ id
              (map_of_In (id, entry) (λ (e : SubscriptionId × InstalledSubscription). e.0) installed
                i)
              missing,
          λ retained.
              (retain_all-In constraints installed _ id (sort_by-In string_key.blt id _ retained)).0
                missing,
          λ d j. elim (Bool-cases (contains (demand_id d) entry.serves)) [
            | inl served ↦
                absurd (ownerless admissible attached id entry d distinct i missing j served)
            | inr unserved ↦ unserved
          ],
        )
      ]

  -- Where no subscription runs twice, each that runs is retained or closed, and not both, and one
  -- that is closed serves none of the demand that the limits of the relay admit.
  pub plan-Parted :
      {out : SubscriptionPlan} (id : SubscriptionId) (entry : InstalledSubscription)
      → Distinct installed
      → In (id, entry) installed
      → plan request ≡ some (ok out)
      → (In id out.retain × ¬ In id out.close)
        ⊎ (In id out.close
            × ¬ In id out.retain
            × ((d : RelayDemand)
                → In d (admit_filter_limits demand constraints).0
                → contains (demand_id d) entry.serves ≡ false))
  unfolding plan_carried assemble
  plan-Parted id entry distinct i planned =
      let (attached, carried, shortfalls, e) = plan-end planned in
      rw (← e) (
        assembled-Parted (admit_filter_limits demand constraints).0
          (fold_into_running (fold_identical_filters carried) installed attached).1 id entry
          distinct i)
