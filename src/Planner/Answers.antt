-- ===== src/Planner/Answers.antt =====
-- crates/fava-subscriptions-standard/src/lib.rs: when the planner answers a plan.
use fava.Base.{
  ℕ, zero, suc, ◌*◌, ◌≡◌, ◌≢◌, refl, arith, false, Option, none, some, List, [], ◌∷◌, length,
  Result, ok, err, In, inl, inr, Option-cases, Result-cases, ◌∙◌,
}
use fava.BTreeMap.{nat_key, pair_key, string_key}
use fava.BTreeSet.{BTreeSet, contains, insert, contains-insert}
use fava.Subscriptions.Filter.{Filter}
use fava.Subscriptions.Grouping.{RelayDemand, Candidate, group}
use fava.Planner.Types.{
  DemandId, demand_id, AttributedSubscription, SubscriptionShortfall, SubscriptionPlan,
  SubscriptionPlanError,
}
use fava.Planner.Attach.{admit}
use fava.Planner.Message.{Fitting, fit_one, fit_rounds, fit_message_bound}
use fava.Planner.Candidates.{refuse_duplicate, refuse_duplicate_demand, admit_filter_limits}
use fava.Planner.Plan.{Request, plan_carried, plan_admitted, plan}
use fava.Planner.Rounds.{fit_message_bound-total}

-- No demand is there twice.
abbrev pub IsUnrepeated : List RelayDemand → Type 0
IsUnrepeated [] = Unit
IsUnrepeated (d ∷ ds) = ((x : RelayDemand) → In x ds → demand_id d ≢ demand_id x) × IsUnrepeated ds

not_refused :
    (seen : BTreeSet DemandId) (ds : List RelayDemand)
    → IsUnrepeated ds
    → ((x : RelayDemand) → In x ds → contains (demand_id x) seen ≡ false)
    → refuse_duplicate seen ds ≡ none
unfolding refuse_duplicate
not_refused seen [] u new = refl
not_refused seen (d ∷ ds) u new = rw (new d (inl refl)) (
    not_refused (insert (demand_id d) seen) ds u.1 (λ x i.
      contains-insert (demand_id d) (demand_id x) seen
      ∙ rw (new x (inr i)) (ground (arith, u.0 x i, pair_key.beq_iff (demand_id d) (demand_id x)))))

module _ (request : Request) where
  open request use {canonical, encoded_bytes, less, relay, demand, constraints, installed, revision}

  abbrev Encodes : Type 0
  Encodes = (f : Filter) → (bytes : ℕ) × (encoded_bytes f ≡ ok bytes)

  fit_one-ok :
      (c : Candidate) (state : Fitting) (error : SubscriptionPlanError)
      → Encodes
      → fit_one canonical encoded_bytes constraints c state ≢ err error
  unfolding fit_one
  fit_one-ok (f, []) state error encodes failed = cc
  fit_one-ok (f, d ∷ rest) state error encodes failed =
      let (bytes, encoded) = encodes f in cc (rw (encoded, fit_one) at failed)

  fit_rounds-ok :
      (fuel : ℕ) (queue : List Candidate) (carried : List AttributedSubscription)
      (shortfalls : List SubscriptionShortfall) (error : SubscriptionPlanError)
      → Encodes
      → fit_rounds canonical encoded_bytes constraints fuel
          (record { queue = queue; carried = carried; shortfalls = shortfalls })
        ≢ some (err error)
  unfolding fit_rounds
  fit_rounds-ok zero [] carried shortfalls error encodes failed = cc
  fit_rounds-ok (suc fuel) [] carried shortfalls error encodes failed = cc
  fit_rounds-ok zero (c ∷ queue) carried shortfalls error encodes failed = cc
  fit_rounds-ok (suc fuel) (c ∷ queue) carried shortfalls error encodes failed =
      elim (Result-cases (
        fit_one canonical encoded_bytes constraints c
          (record { queue = queue; carried = carried; shortfalls = shortfalls }))) [
            | inr (e, broken) ↦ fit_one-ok c _ e encodes broken
            | inl (next, done) ↦
                fit_rounds-ok fuel next.queue next.carried next.shortfalls error encodes
                  (rw (done, fit_rounds) at failed)
          ]

  -- The planner always answers: the splitting comes to an end, and where no demand is there twice
  -- and every filter can be encoded, the answer is a plan.
  pub plan-answers :
      IsUnrepeated demand → Encodes → (out : SubscriptionPlan) × (plan request ≡ some (ok out))
  unfolding plan plan_admitted refuse_duplicate_demand fit_message_bound contains
  plan-answers unrepeated encodes = elim (Option-cases fitted) [
    | inl ran_out ↦
        absurd
          (fit_message_bound-total canonical encoded_bytes constraints pending shortfalls ran_out)
    | inr (err error, failed) ↦
        absurd (fit_rounds-ok (2 * length pending) _ [] shortfalls error encodes failed)
    | inr (ok fitted, done) ↦ (
      plan_carried request admissible (admit admissible installed).0 fitted.carried
          fitted.shortfalls,
      rw (single, plan) (rw (done, plan_admitted) refl),
    )
  ]
    where
      admissible : List RelayDemand
      admissible = (admit_filter_limits demand constraints).0

      shortfalls : List SubscriptionShortfall
      shortfalls = (admit_filter_limits demand constraints).1

      pending : List RelayDemand
      pending = (admit admissible installed).1

      fitted : Option (Result SubscriptionPlanError Fitting)
      fitted =
          fit_message_bound canonical encoded_bytes constraints (2 * length pending)
            (group canonical pending constraints.default_filter_limit) shortfalls

      single : refuse_duplicate_demand demand ≡ none
      single = not_refused [] demand unrepeated (λ x i. refl)
