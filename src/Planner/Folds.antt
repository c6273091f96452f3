-- ===== src/Planner/Folds.antt =====
-- crates/fava-subscriptions-standard/src/lib.rs: folding, joining and dropping of candidates
-- account for the demand that these serve.
use fava.Base.{
  ◌≡◌, refl, arith, true, some, List, [], ◌∷◌, In, inl, inr, ◌⊎◌, Bool-cases, Option-cases,
  some_injective, subst, sym, ap, ◌∙◌,
}
use fava.BTreeMap.{pair_key, string_key, nat_key}
use fava.BTreeSet.{extend, contains-extend}
use fava.Subscriptions.Filter.{Filter, filter_eq, filter_eq-true, both_true}
use fava.Subscriptions.Matching.{Matcher}
use fava.Subscriptions.Grouping.{RelayDemand}
use fava.Planner.Types.{
  SubscriptionId, DemandId, demand_id, AttributedSubscription, InstalledSubscription,
  InstalledSubscriptions, filters_eq,
}
use fava.Planner.Attach.{Attached, attach}
use fava.Planner.Candidates.{
  fold_candidate, fold_identical, fold_identical_filters, running_as, fold_into_running,
}
use fava.Planner.Service.{Serves, ServedBy}
use fava.Planner.Joins.{Joined, attach-Joined, contains-attach}

pub filters_eq-true : (a b : List Filter) → filters_eq a b ≡ true → a ≡ b
unfolding filters_eq
filters_eq-true [] [] h = refl
filters_eq-true [] (y ∷ b) h = cc
filters_eq-true (x ∷ a) [] h = cc
filters_eq-true (x ∷ a) (y ∷ b) h =
    let (first, rest) = both_true (filter_eq x y) (filters_eq a b) h in
    cc (filter_eq-true x y first, filters_eq-true a b rest)

module _ (matcher : Matcher) where
  later_served :
      (x : AttributedSubscription) (xs : List AttributedSubscription) (d : RelayDemand)
      → ServedBy matcher xs d
      → ServedBy matcher (x ∷ xs) d
  later_served x xs d s = record { by = s.by; there = inr s.there; serves = s.serves }

  -- A candidate that joins one of the same filters brings its owners with it.
  grown-Serves :
      (filters other : List Filter) (serves more : List DemandId) (d : RelayDemand)
      → other ≡ filters
      → Serves matcher filters more d ⊎ Serves matcher other serves d
      → Serves matcher other (extend serves more) d
  grown-Serves filters other serves more d e (inl s) = record {
    named = contains-extend (demand_id d) serves more ∙ rw s.named (ground arith);
    filter = s.filter;
    asked = rw e s.asked;
    covers = s.covers;
  }
  grown-Serves filters other serves more d e (inr s) = record {
    named = contains-extend (demand_id d) serves more ∙ rw s.named refl;
    filter = s.filter;
    asked = s.asked;
    covers = s.covers;
  }

  first_or_later :
      (x : AttributedSubscription) (xs : List AttributedSubscription) (d : RelayDemand)
      → ServedBy matcher (x ∷ xs) d
      → Serves matcher x.filters x.serves d ⊎ ServedBy matcher xs d
  first_or_later x xs d s = elim s.there [
    | inl e ↦ inl (
        subst (λ (y : AttributedSubscription). Serves matcher y.filters y.serves d) (sym e)
          s.serves)
    | inr i ↦ inr (record { by = s.by; there = i; serves = s.serves })
  ]

  fold_candidate-ServedBy :
      (c : AttributedSubscription) (folded : List AttributedSubscription) (d : RelayDemand)
      → Serves matcher c.filters c.serves d ⊎ ServedBy matcher folded d
      → ServedBy matcher (fold_candidate c folded) d
  unfolding fold_candidate
  fold_candidate-ServedBy c [] d (inl s) = record { by = c; there = inl refl; serves = s }
  fold_candidate-ServedBy c [] d (inr s) = absurd s.there
  fold_candidate-ServedBy c (seen ∷ folded) d h =
      elim (Bool-cases (filters_eq seen.filters c.filters)) [
        | inr other ↦ rw other (elim h [
          | inl s ↦ later_served seen _ d (fold_candidate-ServedBy c folded d (inl s))
          | inr s ↦ elim (first_or_later seen folded d s) [
            | inl here ↦ record { by = seen; there = inl refl; serves = here }
            | inr later ↦ later_served seen _ d (fold_candidate-ServedBy c folded d (inr later))
          ]
        ])
        | inl same ↦ rw same (joined (filters_eq-true seen.filters c.filters same) h)
      ]
    where
      joined :
          seen.filters ≡ c.filters
          → Serves matcher c.filters c.serves d ⊎ ServedBy matcher (seen ∷ folded) d
          → ServedBy matcher (record seen { serves = extend seen.serves c.serves } ∷ folded) d
      joined e (inl s) = record {
        by = record seen { serves = extend seen.serves c.serves };
        there = inl refl;
        serves = grown-Serves c.filters seen.filters seen.serves c.serves d e (inl s);
      }
      joined e (inr s) = elim (first_or_later seen folded d s) [
        | inr later ↦ later_served _ folded d later
        | inl here ↦ record {
          by = record seen { serves = extend seen.serves c.serves };
          there = inl refl;
          serves = grown-Serves c.filters seen.filters seen.serves c.serves d e (inr here);
        }
      ]

  fold_identical-ServedBy :
      (folded candidates : List AttributedSubscription) (d : RelayDemand)
      → ServedBy matcher folded d ⊎ ServedBy matcher candidates d
      → ServedBy matcher (fold_identical folded candidates) d
  unfolding fold_identical
  fold_identical-ServedBy folded [] d (inl s) = s
  fold_identical-ServedBy folded [] d (inr s) = absurd s.there
  fold_identical-ServedBy folded (c ∷ candidates) d (inl s) =
      fold_identical-ServedBy (fold_candidate c folded) candidates d
        (inl (fold_candidate-ServedBy c folded d (inr s)))
  fold_identical-ServedBy folded (c ∷ candidates) d (inr s) =
      fold_identical-ServedBy (fold_candidate c folded) candidates d
        (elim (first_or_later c candidates d s) [
          | inl here ↦ inl (fold_candidate-ServedBy c folded d (inl here))
          | inr later ↦ inr later
        ])

  pub fold_identical_filters-ServedBy :
      (candidates : List AttributedSubscription) (d : RelayDemand)
      → ServedBy matcher candidates d
      → ServedBy matcher (fold_identical_filters candidates) d
  unfolding fold_identical_filters
  fold_identical_filters-ServedBy candidates d s = fold_identical-ServedBy [] candidates d (inr s)

  running_as-found :
      (filters : List Filter) (running : InstalledSubscriptions) (id : SubscriptionId)
      → running_as filters running ≡ some id
      → (entry : InstalledSubscription) × In (id, entry) running × (entry.filters ≡ filters)
  unfolding running_as
  running_as-found filters [] id h = cc
  running_as-found filters ((j, entry) ∷ running) id h =
      elim (Bool-cases (filters_eq entry.filters filters)) [
        | inl same ↦ (
          entry,
          inl (ap (λ (x : SubscriptionId). (x, entry)) (some_injective (rw same at h))),
          filters_eq-true entry.filters filters same,
        )
        | inr other ↦
            let (x, i, e) = running_as-found filters running id (rw other at h) in (x, inr i, e)
      ]

  -- A candidate that runs already hands its owners over.
  handed_over :
      (installed : InstalledSubscriptions) (attached : Attached) (c : AttributedSubscription)
      (id : SubscriptionId) (d : RelayDemand)
      → running_as c.filters installed ≡ some id
      → Serves matcher c.filters c.serves d
      → Joined matcher installed (attach id c.serves attached) d
  handed_over installed attached c id d found s =
      let (entry, i, e) = running_as-found c.filters installed id found in
      record {
        id = id;
        entry = entry;
        running = i;
        named =
            contains-attach id id c.serves attached (demand_id d)
            ∙ rw ((string_key.beq_iff id id).1 refl, s.named) (ground arith);
        carried = record { filter = s.filter; asked = rw e s.asked; covers = s.covers };
      }

  pub fold_into_running-accounts :
      (candidates : List AttributedSubscription) (installed : InstalledSubscriptions)
      (attached : Attached) (d : RelayDemand)
      → ServedBy matcher candidates d ⊎ Joined matcher installed attached d
      → ServedBy matcher (fold_into_running candidates installed attached).0 d
        ⊎ Joined matcher installed (fold_into_running candidates installed attached).1 d
  unfolding fold_into_running
  fold_into_running-accounts [] installed attached d h = h
  fold_into_running-accounts (c ∷ candidates) installed attached d h =
      elim (Option-cases (running_as c.filters installed)) [
        | inr (id, found) ↦
            rw (found, fold_into_running)
              (fold_into_running-accounts candidates installed (attach id c.serves attached) d
                (elim h [
                  | inr joined ↦ inr (attach-Joined matcher installed id c.serves attached d joined)
                  | inl s ↦ elim (first_or_later c candidates d s) [
                    | inl here ↦ inr (handed_over installed attached c id d found here)
                    | inr later ↦ inl later
                  ]
                ]))
        | inl new ↦
            rw (new, fold_into_running)
              (elim h [
                | inr joined ↦
                    kept (fold_into_running-accounts candidates installed attached d (inr joined))
                | inl s ↦ elim (first_or_later c candidates d s) [
                  | inl here ↦ inl (record { by = c; there = inl refl; serves = here })
                  | inr later ↦
                      kept (fold_into_running-accounts candidates installed attached d (inl later))
                ]
              ])
      ]
    where
      kept :
          ServedBy matcher (fold_into_running candidates installed attached).0 d
            ⊎ Joined matcher installed (fold_into_running candidates installed attached).1 d
          → ServedBy matcher (c ∷ (fold_into_running candidates installed attached).0) d
            ⊎ Joined matcher installed (fold_into_running candidates installed attached).1 d
      kept (inl s) = inl (later_served c _ d s)
      kept (inr joined) = inr joined
