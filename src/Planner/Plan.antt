-- ===== src/Planner/Plan.antt =====
-- crates/fava-subscriptions-standard/src/lib.rs: `StandardSubscriptionPlanner::plan`.
use fava.Base.{ℕ, ◌*◌, Bool, String, Option, none, some, List, length, Result, ok, err}
use fava.Nostr.{RelayUrl}
use fava.Subscriptions.Filter.{Filter}
use fava.Subscriptions.Grouping.{RelayDemand, group}
use fava.Planner.Types.{
  RelayReadConstraints, PlanRevision, SubscriptionPlan, SubscriptionPlanError,
  InstalledSubscriptions, SubscriptionShortfall, AttributedSubscription,
}
use fava.Planner.Attach.{Attached, admit, surviving_owners}
use fava.Planner.Message.{fit_message_bound}
use fava.Planner.Candidates.{
  refuse_duplicate_demand, admit_filter_limits, fold_identical_filters, fold_into_running,
  fit_residual_count,
}
use fava.Planner.Diff.{assemble}

-- What the planner is told, and what it calls of serde and of the `nostr` crate.
pub record Request : Type 0 where
  pub canonical : Filter → String
  pub encoded_bytes : Filter → Result String ℕ
  pub less : List Filter → List Filter → Bool
  pub relay : RelayUrl
  pub demand : List RelayDemand
  pub constraints : RelayReadConstraints
  pub installed : InstalledSubscriptions
  pub revision : PlanRevision

module _ (request : Request) where
  open request use {canonical, encoded_bytes, less, relay, demand, constraints, installed, revision}

  -- From the candidates that fit into a message to the plan.
  unfoldable pub plan_carried :
      List RelayDemand
      → Attached
      → List AttributedSubscription
      → List SubscriptionShortfall
      → SubscriptionPlan
  unfolding fold_identical_filters fold_into_running surviving_owners fit_residual_count assemble
  plan_carried admissible attached carried shortfalls =
      let (candidates, attached') =
        fold_into_running (fold_identical_filters carried) installed attached in
      let owners = surviving_owners admissible installed attached' in
      let (opened, shortfalls') =
        fit_residual_count candidates constraints (length owners) shortfalls in
      assemble less relay revision opened constraints installed owners shortfalls'

  -- Each pending demand allows two rounds.
  unfoldable pub plan_admitted :
      List RelayDemand
      → List SubscriptionShortfall
      → Option (Result SubscriptionPlanError SubscriptionPlan)
  unfolding admit group fit_message_bound plan_carried
  plan_admitted admissible shortfalls =
      let (attached, pending) = admit admissible installed in
      elim (fit_message_bound canonical encoded_bytes constraints (2 * length pending)
        (group canonical pending constraints.default_filter_limit) shortfalls) [
          | none ↦ none
          | some (err error) ↦ some (err error)
          | some (ok fitted) ↦
              some (ok (plan_carried admissible attached fitted.carried fitted.shortfalls))
        ]

  unfoldable pub plan : Option (Result SubscriptionPlanError SubscriptionPlan)
  unfolding refuse_duplicate_demand admit_filter_limits plan_admitted
  plan = elim (refuse_duplicate_demand demand) [
    | some error ↦ some (err error)
    | none ↦
        let (admissible, shortfalls) = admit_filter_limits demand constraints in
        plan_admitted admissible shortfalls
  ]
