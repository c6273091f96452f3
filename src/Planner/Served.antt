-- ===== src/Planner/Served.antt =====
-- crates/fava-subscriptions-standard/src/lib.rs, `fit_message_bound`: demand is carried by a filter
-- that asks for all that it asks for, or reported.
use fava.Base.{
  In-half, In-take, In-drop, ℕ, ◌+◌, ◌/◌, ◌≡◌, refl, arith, String, some, List, [], ◌∷◌, ◌++◌, map,
  length, Result, ok, In, inl, inr, ◌⊎◌, Result-cases, ok_injective, Bool-cases, any_of_In, In-All,
  All-of_In, In-append, append_left, append_right, map_of_In, subst, sym, ap, ◌∙◌,
}
use fava.BTreeMap.{pair_key, nat_key}
use fava.BTreeSet.{contains-extend, In-contains}
use fava.Subscriptions.Filter.{Filter}
use fava.Subscriptions.Matching.{Matcher, matches}
use fava.Subscriptions.Grouping.{RelayDemand, Candidate, group}
use fava.Subscriptions.Exact.{IsExact}
use fava.Subscriptions.Buckets.{IsFaithful, AllDistinct, group-IsExact}
use fava.Subscriptions.Complete.{group-Carries}
use fava.Planner.Types.{
  RelayReadConstraints, AttributedSubscription, SubscriptionShortfall, demand_id,
}
use fava.Planner.Message.{
  Fitting, within, too_large, carry, split, halves, fit_one, fit_message_bound,
}
use fava.Planner.Members.{group-In}
use fava.Planner.Rounds.{fit_rounds-keeps}
use fava.Planner.Service.{Serves, ServedBy, Reported, Reported-append}

module _ (matcher : Matcher) (canonical : Filter → String)
    (encoded_bytes : Filter → Result String ℕ) (constraints : RelayReadConstraints)
    (demand : List RelayDemand) (faithful : IsFaithful canonical demand)
    (distinct : AllDistinct demand) where
  record IsSound (queue : List Candidate) : Type 0 where
    exact : (c : Candidate) → In c queue → IsExact matcher c
    members : (c : Candidate) (d : RelayDemand) → In c queue → In d c.1 → In d demand

  abbrev Queued : List Candidate → RelayDemand → Type 0
  Queued queue d = (c : Candidate) × In c queue × In d c.1

  group-IsSound :
      (part : List RelayDemand)
      → ((d : RelayDemand) → In d part → In d demand)
      → IsSound (group canonical part constraints.default_filter_limit)
  group-IsSound part of = record {
    exact = λ c i.
        In-All (IsExact matcher) (group canonical part constraints.default_filter_limit) c
          (group-IsExact canonical matcher part constraints.default_filter_limit
            (λ a b i j. faithful a b (of a i) (of b j))
            (All-of_In _ part (λ x i. In-All _ demand x distinct (of x i))))
          i;
    members = λ c d i j. of d (group-In canonical part constraints.default_filter_limit c d i j);
  }

  append-IsSound : (xs ys : List Candidate) → IsSound xs → IsSound ys → IsSound (xs ++ ys)
  append-IsSound xs ys p q = record {
    exact = λ c i. elim (In-append c xs ys i) [ inl j ↦ p.exact c j | inr j ↦ q.exact c j ];
    members = λ c d i m. elim (In-append c xs ys i) [
      | inl j ↦ p.members c d j m
      | inr j ↦ q.members c d j m
    ];
  }

  -- The two halves of the members of a candidate, grouped.
  halves-IsSound :
      (ds : List RelayDemand)
      → ((d : RelayDemand) → In d ds → In d demand)
      → IsSound (halves canonical encoded_bytes constraints ds)
  unfolding halves
  halves-IsSound ds of =
      append-IsSound _ _ (group-IsSound _ (λ d i. of d (In-take _ d ds i)))
        (group-IsSound _ (λ d i. of d (In-drop _ d ds i)))

  halves-Queued :
      (d : RelayDemand) (ds : List RelayDemand)
      → In d ds
      → Queued (halves canonical encoded_bytes constraints ds) d
  unfolding halves
  halves-Queued d ds i = elim (In-half ((length ds + 1) / 2) d ds i) [
    | inl j ↦
        let (c, at, m) = group-Carries canonical _ constraints.default_filter_limit d j in
        (c, append_left c _ _ at, m)
    | inr j ↦
        let (c, at, m) = group-Carries canonical _ constraints.default_filter_limit d j in
        (c, append_right c _ _ at, m)
  ]

  -- What holds of one demand between the rounds.
  record Tracks (d : RelayDemand) (state : Fitting) : Type 0 where
    sound : IsSound state.queue
    found : Queued state.queue d ⊎ (ServedBy matcher state.carried d ⊎ Reported state.shortfalls d)

  carry-Serves :
      (c : Candidate) (d : RelayDemand)
      → IsExact matcher c
      → In d c.1
      → Serves matcher
          (carry canonical encoded_bytes constraints c.0 c.1).filters
          (carry canonical encoded_bytes constraints c.0 c.1).serves
          d
  unfolding carry
  carry-Serves c d x i = record {
    named =
        contains-extend (demand_id d) [] (map demand_id c.1)
        ∙ rw (In-contains (demand_id d) (map demand_id c.1) (map_of_In d demand_id c.1 i))
            (ground arith);
    filter = c.0;
    asked = inl refl;
    covers = λ e wants.
        x.exact e ∙ any_of_In d (λ (d : RelayDemand). matches matcher d.filter e) c.1 i wants;
  }

  -- The queue without its first candidate, with what the round makes of this one.
  rest-IsSound : (c : Candidate) (queue : List Candidate) → IsSound (c ∷ queue) → IsSound queue
  rest-IsSound c queue s = record {
    exact = λ x i. s.exact x (inr i);
    members = λ x d i. s.members x d (inr i);
  }

  ServedBy-append :
      (xs ys : List AttributedSubscription) (d : RelayDemand)
      → ServedBy matcher xs d
      → ServedBy matcher (xs ++ ys) d
  ServedBy-append xs ys d s = record {
    by = s.by;
    there = append_left s.by xs ys s.there;
    serves = s.serves;
  }

  split-Tracks :
      (bytes : ℕ) (c : Candidate) (queue : List Candidate) (state : Fitting) (d : RelayDemand)
      → state.queue ≡ queue
      → Tracks d (record state { queue = c ∷ queue })
      → Tracks d (split canonical encoded_bytes constraints bytes c.1 state)
  unfolding split
  split-Tracks bytes (f, []) queue state d e t = record {
    sound = rw e (rest-IsSound _ queue t.sound);
    found = elim t.found [
      | inl (x, inl same, m) ↦ absurd (subst (λ (x : Candidate). In d x.1) (sym same) m)
      | inl (x, inr i, m) ↦ inl (x, rw e i, m)
      | inr other ↦ inr other
    ];
  }
  split-Tracks bytes (f, only ∷ []) queue state d e t = record {
    sound = rw e (rest-IsSound _ queue t.sound);
    found = elim t.found [
      | inl (x, inl same, m) ↦ elim (subst (λ (x : Candidate). In d x.1) (sym same) m) [
        | inl is_only ↦ inr (
            inr (record {
              shortfall = too_large canonical encoded_bytes constraints bytes only;
              there = append_right _ state.shortfalls _ (inl refl);
              named = ap demand_id is_only;
            }))
        | inr absent ↦ absurd absent
      ]
      | inl (x, inr i, m) ↦ inl (x, rw e i, m)
      | inr (inl served) ↦ inr (inl served)
      | inr (inr reported) ↦ inr (inr (Reported-append _ _ d reported))
    ];
  }
  split-Tracks bytes (f, first ∷ second ∷ rest) queue state d e t = record {
    sound =
        append-IsSound state.queue _ (rw e (rest-IsSound _ queue t.sound))
          (halves-IsSound (first ∷ second ∷ rest) (λ x i. t.sound.members _ x (inl refl) i));
    found = elim t.found [
      | inl (x, inl same, m) ↦
          let (y, i, m') =
            halves-Queued d (first ∷ second ∷ rest)
              (subst (λ (x : Candidate). In d x.1) (sym same) m) in
          inl (y, append_right y state.queue _ i, m')
      | inl (x, inr i, m) ↦ inl (x, append_left x state.queue _ (rw e i), m)
      | inr other ↦ inr other
    ];
  }

  carry-Tracks :
      (c : Candidate) (queue : List Candidate) (state : Fitting) (d : RelayDemand)
      → Tracks d (record state { queue = c ∷ queue })
      → Tracks d (record state {
        queue = queue;
        carried = state.carried ++ carry canonical encoded_bytes constraints c.0 c.1 ∷ [];
      })
  carry-Tracks c queue state d t = record {
    sound = rest-IsSound c queue t.sound;
    found = elim t.found [
      | inl (x, inl same, m) ↦ inr (
          inl (record {
            by = carry canonical encoded_bytes constraints c.0 c.1;
            there = append_right _ state.carried _ (inl refl);
            serves =
                carry-Serves c d (t.sound.exact c (inl refl))
                  (subst (λ (x : Candidate). In d x.1) (sym same) m);
          }))
      | inl (x, inr i, m) ↦ inl (x, i, m)
      | inr (inl served) ↦ inr (inl (ServedBy-append state.carried _ d served))
      | inr (inr reported) ↦ inr (inr reported)
    ];
  }

  fit_one-Tracks :
      (c : Candidate) (queue : List Candidate) (state next : Fitting) (d : RelayDemand)
      → state.queue ≡ c ∷ queue
      → Tracks d state
      → fit_one canonical encoded_bytes constraints c (record state { queue = queue }) ≡ ok next
      → Tracks d next
  unfolding fit_one
  fit_one-Tracks (f, []) queue state next d e t h =
      subst (Tracks d) (ok_injective h)
        (split-Tracks 0 (f, []) queue (record state { queue = queue }) d refl (rw e at t))
  fit_one-Tracks (f, first ∷ rest) queue state next d e t h =
      elim (Result-cases (encoded_bytes f)) [
        | inr (reason, failed) ↦ absurd (ground (arith, failed, h))
        | inl (bytes, encoded) ↦ elim (Bool-cases (within constraints.max_message_bytes bytes)) [
          | inl fits ↦
              subst (Tracks d) (ok_injective (rw fits at (rw (encoded, fit_one) at h)))
                (carry-Tracks (f, first ∷ rest) queue state d (rw e at t))
          | inr long ↦ subst (Tracks d) (ok_injective (rw long at (rw (encoded, fit_one) at h))) (
              split-Tracks bytes (f, first ∷ rest) queue (record state { queue = queue }) d refl
                (rw e at t))
        ]
      ]

  -- What the loop answers accounts for the demand that it is given.
  pub fit_message_bound-accounts :
      (fuel : ℕ) (pending : List RelayDemand) (shortfalls : List SubscriptionShortfall)
      {out : Fitting} (d : RelayDemand)
      → ((d : RelayDemand) → In d pending → In d demand)
      → In d pending ⊎ Reported shortfalls d
      → fit_message_bound canonical encoded_bytes constraints fuel
          (group canonical pending constraints.default_filter_limit)
          shortfalls
        ≡ some (ok out)
      → ServedBy matcher out.carried d ⊎ Reported out.shortfalls d
  unfolding fit_message_bound
  fit_message_bound-accounts fuel pending shortfalls d of i h =
      let (t, empty) =
        fit_rounds-keeps canonical encoded_bytes constraints (Tracks d)
          (λ c queue state next e t done. fit_one-Tracks c queue state next d e t done) fuel
          (group canonical pending constraints.default_filter_limit) [] shortfalls
          (record {
            sound = group-IsSound pending of;
            found = elim i [
              | inl j ↦ inl (group-Carries canonical pending constraints.default_filter_limit d j)
              | inr r ↦ inr (inr r)
            ];
          })
          h in
      elim t.found [ inl (c, i, m) ↦ absurd (subst (In c) empty i) | inr accounted ↦ accounted ]
