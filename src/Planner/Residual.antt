-- ===== src/Planner/Residual.antt =====
-- crates/fava-subscriptions-standard/src/lib.rs, `fit_residual_count` and `admit_filter_limits`:
-- demand that is dropped is reported.
use fava.Base.{
  take-append-drop, drop, ℕ, ◌+◌, ◌-◌, refl, arith, List, [], ◌∷◌, ◌++◌, map, take, length, leb, In,
  inl, inr, ◌⊎◌, Bool-cases, Option-cases, In-append, append_left, append_right, map_of_In, subst,
  sym, ap,
}
use fava.BTreeMap.{pair_key, nat_key}
use fava.BTreeSet.{contains-In}
use fava.Subscriptions.Matching.{Matcher}
use fava.Subscriptions.Grouping.{RelayDemand}
use fava.Planner.Types.{
  DemandId, demand_id, RelayReadConstraints, AttributedSubscription, SubscriptionShortfall,
}
use fava.Planner.Candidates.{
  admit_limits, admit_filter_limits, exceeding, drop_all, exhausted, fit_residual_count,
}
use fava.Planner.Service.{ServedBy, Reported, Reported-append}

In-dropped :
    (required maximum : ℕ) (a : AttributedSubscription) (k : DemandId)
    (dropped : List AttributedSubscription)
    → In a dropped
    → In k a.serves
    → In (exhausted required maximum k) (drop_all required maximum dropped)
unfolding drop_all
In-dropped required maximum a k [] i j = elim i [ ]
In-dropped required maximum a k (x ∷ dropped) (inl e) j =
    append_left _ (map (exhausted required maximum) x.serves) _ (
      map_of_In k (exhausted required maximum) x.serves
        (subst (λ (y : AttributedSubscription). In k y.serves) (sym e) j))
In-dropped required maximum a k (x ∷ dropped) (inr i) j =
    append_right _ (map (exhausted required maximum) x.serves) _
      (In-dropped required maximum a k dropped i j)

module _ (matcher : Matcher) where
  split_at-accounts :
      (n required maximum : ℕ) (candidates : List AttributedSubscription)
      (shortfalls : List SubscriptionShortfall) (d : RelayDemand)
      → ServedBy matcher candidates d
      → ServedBy matcher (take n candidates) d
        ⊎ Reported (shortfalls ++ drop_all required maximum (drop n candidates)) d
  split_at-accounts n required maximum candidates shortfalls d s =
      elim (In-append s.by (take n candidates) (drop n candidates)
        (subst (In s.by) (sym (take-append-drop n candidates)) s.there)) [
          | inl i ↦ inl (record { by = s.by; there = i; serves = s.serves })
          | inr i ↦ inr (record {
            shortfall = exhausted required maximum (demand_id d);
            there = append_right _ shortfalls _ (
                In-dropped required maximum s.by (demand_id d) (drop n candidates) i
                  (contains-In (demand_id d) s.by.serves s.serves.named));
            named = refl;
          })
        ]

  -- The candidates that are left, and those that are dropped.
  pub fit_residual_count-accounts :
      (candidates : List AttributedSubscription) (constraints : RelayReadConstraints) (running : ℕ)
      (shortfalls : List SubscriptionShortfall) (d : RelayDemand)
      → ServedBy matcher candidates d ⊎ Reported shortfalls d
      → ServedBy matcher (fit_residual_count candidates constraints running shortfalls).0 d
        ⊎ Reported (fit_residual_count candidates constraints running shortfalls).1 d
  unfolding fit_residual_count
  fit_residual_count-accounts candidates constraints running shortfalls d h =
      elim (Option-cases constraints.max_subscriptions) [
        | inl unknown ↦ rw (unknown, fit_residual_count) h
        | inr (maximum, declared) ↦
            elim (Bool-cases (leb (length candidates) (maximum - running))) [
              | inl fits ↦ rw (declared, fit_residual_count) (rw fits h)
              | inr more ↦
                  rw (declared, fit_residual_count)
                    (rw more (elim h [
                      | inl s ↦
                          split_at-accounts (maximum - running) (running + length candidates)
                            maximum candidates shortfalls d s
                      | inr r ↦ inr (Reported-append shortfalls _ d r)
                    ]))
            ]
      ]

admit_limits-accounts :
    (maximum : ℕ) (demand : List RelayDemand) (d : RelayDemand)
    → In d demand
    → In d (admit_limits maximum demand).0 ⊎ Reported (admit_limits maximum demand).1 d
unfolding admit_limits
admit_limits-accounts maximum [] d i = elim i [ ]
admit_limits-accounts maximum (item ∷ demand) d i = elim (Option-cases (exceeding item maximum)) [
  | inl allowed ↦
      rw (allowed, admit_limits)
        (elim i [
          | inl e ↦ inl (inl e)
          | inr j ↦ elim (admit_limits-accounts maximum demand d j) [
            | inl k ↦ inl (inr k)
            | inr r ↦ inr r
          ]
        ])
  | inr (required, over) ↦
      rw (over, admit_limits)
        (elim i [
          | inl e ↦ inr (record { shortfall = _; there = inl refl; named = ap demand_id e })
          | inr j ↦ elim (admit_limits-accounts maximum demand d j) [
            | inl k ↦ inl k
            | inr r ↦ inr (record { shortfall = r.shortfall; there = inr r.there; named = r.named })
          ]
        ])
]

admit_limits-In :
    (maximum : ℕ) (demand : List RelayDemand) (d : RelayDemand)
    → In d (admit_limits maximum demand).0
    → In d demand
unfolding admit_limits
admit_limits-In maximum [] d i = i
admit_limits-In maximum (item ∷ demand) d i = ground (arith, i, admit_limits-In maximum demand d)

-- Demand is admitted, or reported to ask for more than the relay allows.
pub admit_filter_limits-accounts :
    (demand : List RelayDemand) (constraints : RelayReadConstraints) (d : RelayDemand)
    → In d demand
    → In d (admit_filter_limits demand constraints).0
      ⊎ Reported (admit_filter_limits demand constraints).1 d
unfolding admit_filter_limits
admit_filter_limits-accounts demand constraints d i =
    elim (Option-cases constraints.max_filter_limit) [
      | inl unknown ↦ rw (unknown, admit_filter_limits) (inl i)
      | inr (maximum, declared) ↦
          rw (declared, admit_filter_limits) (admit_limits-accounts maximum demand d i)
    ]

pub admit_filter_limits-In :
    (demand : List RelayDemand) (constraints : RelayReadConstraints) (d : RelayDemand)
    → In d (admit_filter_limits demand constraints).0
    → In d demand
unfolding admit_filter_limits
admit_filter_limits-In demand constraints d i = elim (Option-cases constraints.max_filter_limit) [
  | inl unknown ↦ rw (unknown, admit_filter_limits) at i
  | inr (maximum, declared) ↦
      admit_limits-In maximum demand d (rw (declared, admit_filter_limits) at i)
]
