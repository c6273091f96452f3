-- ===== src/Planner/Message.antt =====
-- crates/fava-subscriptions-standard/src/lib.rs, `fit_message_bound`: candidates that are too long
-- for one message are split. `encoding` is the canonical text of a filter, and `encoded_bytes` the
-- length that serde gives the message of a filter (wire.rs).
use fava.Base.{
  drop, ℕ, zero, suc, ◌+◌, ◌/◌, Bool, true, String, Option, none, some, List, [], ◌∷◌, ◌++◌, map,
  take, length, leb, if◌then◌else◌, Result, ok, err,
}
use fava.BTreeMap.{pair_key}
use fava.BTreeSet.{extend}
use fava.Subscriptions.Filter.{Filter}
use fava.Subscriptions.Grouping.{RelayDemand, Candidate, group}
use fava.Planner.Types.{
  RelayReadConstraints, AttributedSubscription, SubscriptionShortfall, message_too_large, demand_id,
  SubscriptionPlanError, encoding, completeness_of,
}

-- What the loop changes.
pub record Fitting : Type 0 where
  pub queue : List Candidate
  pub carried : List AttributedSubscription
  pub shortfalls : List SubscriptionShortfall

abbrev pub within : Option ℕ → ℕ → Bool
within none bytes = true
within (some maximum) bytes = leb bytes maximum

abbrev pub declared_or : Option ℕ → ℕ → ℕ
declared_or none bytes = bytes
declared_or (some maximum) bytes = maximum

module _ (canonical : Filter → String) (encoded_bytes : Filter → Result String ℕ)
    (constraints : RelayReadConstraints) where
  unfoldable pub carry : Filter → List RelayDemand → AttributedSubscription
  carry filter members = record {
    filters = filter ∷ [];
    serves = extend [] (map demand_id members);
    completeness = completeness_of (filter ∷ []) constraints;
  }

  unfoldable pub halves : List RelayDemand → List Candidate
  halves members =
      group canonical (take ((length members + 1) / 2) members) constraints.default_filter_limit
      ++ group canonical (drop ((length members + 1) / 2) members) constraints.default_filter_limit

  abbrev pub too_large : ℕ → RelayDemand → SubscriptionShortfall
  too_large bytes only = record {
    demand = demand_id only;
    reason = message_too_large bytes (declared_or constraints.max_message_bytes bytes);
  }

  -- A candidate of one member is not split.
  unfoldable pub split : ℕ → List RelayDemand → Fitting → Fitting
  unfolding halves
  split bytes [] state = state
  split bytes (only ∷ []) state = record state {
    shortfalls = state.shortfalls ++ too_large bytes only ∷ [];
  }
  split bytes (first ∷ second ∷ rest) state = record state {
    queue = state.queue ++ halves (first ∷ second ∷ rest);
  }

  -- One round, with the candidate that it took from the queue.
  unfoldable pub fit_one : Candidate → Fitting → Result SubscriptionPlanError Fitting
  unfolding carry split
  fit_one (filter, []) state = ok state
  fit_one (filter, first ∷ rest) state = elim (encoded_bytes filter) [
    | err reason ↦ err (encoding reason)
    | ok bytes ↦ ok (
        if within constraints.max_message_bytes bytes
        then record state { carried = state.carried ++ carry filter (first ∷ rest) ∷ [] }
        else split bytes (first ∷ rest) state)
  ]

  -- `none` means that the fuel ran out.
  unfoldable pub fit_rounds : ℕ → Fitting → Option (Result SubscriptionPlanError Fitting)
  fit_rounds zero state = elim state.queue [ [] ↦ some (ok state) | _ ∷ _ ↦ none ]
  fit_rounds (suc fuel) state = elim state.queue [
    | [] ↦ some (ok state)
    | candidate ∷ queue ↦ elim (fit_one candidate (record state { queue = queue })) [
      | err error ↦ some (err error)
      | ok next ↦ fit_rounds fuel next
    ]
  ]

  -- A round takes a candidate of n members away, or leaves candidates of n members that have less
  -- than 2 n - 1 rounds together.
  unfoldable pub fit_message_bound :
      ℕ
      → List Candidate
      → List SubscriptionShortfall
      → Option (Result SubscriptionPlanError Fitting)
  unfolding fit_rounds
  fit_message_bound fuel grouped shortfalls =
      fit_rounds fuel (record { queue = grouped; carried = []; shortfalls = shortfalls })
