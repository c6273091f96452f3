-- ===== src/Planner/Rounds.antt =====
-- crates/fava-subscriptions-standard/src/lib.rs, `fit_message_bound`: how many rounds the splitting
-- of long candidates takes at most.
use fava.Base.{
  drop, ℕ, zero, suc, ◌+◌, ◌*◌, ◌/◌, ◌≤◌, ◌<◌, ◌≡◌, ◌≢◌, refl, arith, String, Option, none, some,
  List, [], ◌∷◌, ◌++◌, take, length, Result, ok, In, inl, inr, Result-cases, length-append, subst,
  ap, sym,
}
use fava.Subscriptions.Filter.{Filter}
use fava.Subscriptions.Grouping.{RelayDemand, Candidate, group}
use fava.Subscriptions.Complete.{group-Carries}
use fava.Subscriptions.Tally.{Measure, IsSubadditive, tally, singles, tally-group}
use fava.Planner.Types.{RelayReadConstraints, AttributedSubscription, SubscriptionShortfall}
use fava.Planner.Message.{Fitting, split, halves, fit_one, fit_rounds, fit_message_bound}

-- A candidate of n members is split at most n - 1 times.
abbrev cost : Measure
cost [] = 1
cost (d ∷ ds) = 1 + 2 * length ds

abbrev bound : Measure
bound ds = suc (cost ds)

abbrev pub rounds : List Candidate → ℕ
rounds [] = 0
rounds (c ∷ cs) = cost c.1 + rounds cs

bound-IsSubadditive : IsSubadditive bound
bound-IsSubadditive [] ys = omega arith
bound-IsSubadditive (x ∷ xs) [] = omega (arith, length-append xs [])
bound-IsSubadditive (x ∷ xs) (y ∷ ys) = omega (arith, length-append xs (y ∷ ys))

tally-rounds : (cs : List Candidate) → tally bound cs ≡ rounds cs + length cs
unfolding tally
tally-rounds [] = refl
tally-rounds (c ∷ cs) = omega (arith, tally-rounds cs)

singles-length : (ds : List RelayDemand) → singles bound ds ≡ 2 * length ds
unfolding singles
singles-length [] = refl
singles-length (d ∷ ds) = omega (arith, singles-length ds)

length_pos : {A : Type 0} (a : A) (xs : List A) → In a xs → 0 < length xs
length_pos a [] i = elim i [ ]
length_pos a (x ∷ xs) i = omega arith

module _ {A : Type 0} where
  length-take_within : (n : ℕ) (xs : List A) → n ≤ length xs → length (take n xs) ≡ n
  length-take_within zero xs h = refl
  length-take_within (suc n) [] h = omega arith
  length-take_within (suc n) (x ∷ xs) h = omega (arith, length-take_within n xs)

  length-drop : (n : ℕ) (xs : List A) → length (take n xs) + length (drop n xs) ≡ length xs
  length-drop zero xs = omega arith
  length-drop (suc n) [] = omega arith
  length-drop (suc n) (x ∷ xs) = omega (arith, length-drop n xs)

rounds-append : (xs ys : List Candidate) → rounds (xs ++ ys) ≡ rounds xs + rounds ys
rounds-append [] ys = omega arith
rounds-append (x ∷ xs) ys = omega (arith, rounds-append xs ys)

module _ (canonical : Filter → String) where
  group-rounds :
      (demand : List RelayDemand) (limit : Option ℕ)
      → 0 < length demand
      → rounds (group canonical demand limit) + 1 ≤ 2 * length demand
  group-rounds [] limit h = omega arith
  group-rounds (d ∷ demand) limit h =
      let (c, i, _) = group-Carries canonical (d ∷ demand) limit d (inl refl) in
      omega (
        arith,
        length_pos c (group canonical (d ∷ demand) limit) i,
        tally-rounds (group canonical (d ∷ demand) limit),
        singles-length (d ∷ demand),
        tally-group bound bound-IsSubadditive canonical (d ∷ demand) limit,
      )

  -- Twice the number of the demand is enough for all candidates that it is grouped into.
  pub group-rounds-le :
      (demand : List RelayDemand) (limit : Option ℕ)
      → rounds (group canonical demand limit) ≤ 2 * length demand
  group-rounds-le demand limit = omega (
    arith,
    tally-rounds (group canonical demand limit),
    singles-length demand,
    tally-group bound bound-IsSubadditive canonical demand limit,
  )

module _ (canonical : Filter → String) (encoded_bytes : Filter → Result String ℕ)
    (constraints : RelayReadConstraints) where
  halves-rounds :
      (d e : RelayDemand) (rest : List RelayDemand)
      → rounds (halves canonical encoded_bytes constraints (d ∷ e ∷ rest)) + 1 ≤ cost (d ∷ e ∷ rest)
  unfolding halves
  halves-rounds d e rest = omega (
    arith,
    length-take_within n (d ∷ e ∷ rest),
    length-drop n (d ∷ e ∷ rest),
    group-rounds canonical (take n (d ∷ e ∷ rest)) constraints.default_filter_limit,
    group-rounds canonical (drop n (d ∷ e ∷ rest)) constraints.default_filter_limit,
    rounds-append (group canonical (take n (d ∷ e ∷ rest)) constraints.default_filter_limit)
        (group canonical (drop n (d ∷ e ∷ rest)) constraints.default_filter_limit),
  )
    where
      n : ℕ
      n = (length (d ∷ e ∷ rest) + 1) / 2

  split-rounds :
      (bytes : ℕ) (d : RelayDemand) (rest : List RelayDemand) (state : Fitting)
      → rounds (split canonical encoded_bytes constraints bytes (d ∷ rest) state).queue + 1
        ≤ cost (d ∷ rest) + rounds state.queue
  unfolding split
  split-rounds bytes d [] state = omega arith
  split-rounds bytes d (e ∷ rest) state = omega (
    arith,
    rounds-append state.queue (halves canonical encoded_bytes constraints (d ∷ e ∷ rest)),
    halves-rounds d e rest,
  )

  fit_one-rounds :
      (c : Candidate) (state : Fitting) {next : Fitting}
      → fit_one canonical encoded_bytes constraints c state ≡ ok next
      → rounds next.queue + 1 ≤ cost c.1 + rounds state.queue
  unfolding fit_one
  fit_one-rounds (f, []) state h = ground arith
  fit_one-rounds (f, d ∷ rest) state h = elim (Result-cases (encoded_bytes f)) [
    | inr (reason, failed) ↦ absurd (ground (arith, failed))
    | inl (bytes, encoded) ↦ ground (arith, encoded, split-rounds bytes d rest state)
  ]

  abbrev fitting :
      List Candidate → List AttributedSubscription → List SubscriptionShortfall → Fitting
  fitting queue carried shortfalls = record {
    queue = queue;
    carried = carried;
    shortfalls = shortfalls;
  }

  fit_rounds-total :
      (fuel : ℕ) (queue : List Candidate) (carried : List AttributedSubscription)
      (shortfalls : List SubscriptionShortfall)
      → rounds queue ≤ fuel
      → fit_rounds canonical encoded_bytes constraints fuel (fitting queue carried shortfalls)
        ≢ none
  unfolding fit_rounds
  fit_rounds-total zero [] carried shortfalls h = λ ran_out. cc
  fit_rounds-total (suc fuel) [] carried shortfalls h = λ ran_out. cc
  fit_rounds-total zero ((f, []) ∷ queue) carried shortfalls h = absurd (omega arith)
  fit_rounds-total zero ((f, d ∷ ds) ∷ queue) carried shortfalls h = absurd (omega arith)
  fit_rounds-total (suc fuel) (c ∷ queue) carried shortfalls h =
      elim (Result-cases
        (fit_one canonical encoded_bytes constraints c (fitting queue carried shortfalls))) [
          | inr (error, failed) ↦ rw (failed, fit_rounds) (λ ran_out. cc)
          | inl (next, done) ↦
              rw (done, fit_rounds)
                (fit_rounds-total fuel next.queue next.carried next.shortfalls
                  (omega (arith, fit_one-rounds c (fitting queue carried shortfalls) done)))
        ]

  -- The loop comes to an end.
  pub fit_message_bound-total :
      (demand : List RelayDemand) (shortfalls : List SubscriptionShortfall)
      → fit_message_bound canonical encoded_bytes constraints
          (2 * length demand)
          (group canonical demand constraints.default_filter_limit)
          shortfalls
        ≢ none
  unfolding fit_message_bound
  fit_message_bound-total demand shortfalls =
      fit_rounds-total (2 * length demand) _ [] shortfalls
        (group-rounds-le canonical demand constraints.default_filter_limit)

  -- What every round keeps holds when the queue is empty.
  pub fit_rounds-keeps :
      (P : Fitting → Type 0)
      → ((c : Candidate) (queue : List Candidate) (state next : Fitting)
          → state.queue ≡ c ∷ queue
          → P state
          → fit_one canonical encoded_bytes constraints c (record state { queue = queue }) ≡ ok next
          → P next)
      → (fuel : ℕ) (queue : List Candidate) (carried : List AttributedSubscription)
        (shortfalls : List SubscriptionShortfall) {out : Fitting}
      → P (fitting queue carried shortfalls)
      → fit_rounds canonical encoded_bytes constraints fuel (fitting queue carried shortfalls)
        ≡ some (ok out)
      → P out × (out.queue ≡ [])
  unfolding fit_rounds
  fit_rounds-keeps P keep zero [] carried shortfalls {out} p h =
      let e : fitting [] carried shortfalls ≡ out = cc in
      (subst P e p, ap (λ (s : Fitting). s.queue) (sym e))
  fit_rounds-keeps P keep (suc fuel) [] carried shortfalls {out} p h =
      let e : fitting [] carried shortfalls ≡ out = cc in
      (subst P e p, ap (λ (s : Fitting). s.queue) (sym e))
  fit_rounds-keeps P keep zero (c ∷ queue) carried shortfalls p h = cc
  fit_rounds-keeps P keep (suc fuel) (c ∷ queue) carried shortfalls p h =
      elim (Result-cases
        (fit_one canonical encoded_bytes constraints c (fitting queue carried shortfalls))) [
          | inr (error, failed) ↦ absurd (ground (arith, failed))
          | inl (next, done) ↦
              fit_rounds-keeps P keep fuel next.queue next.carried next.shortfalls
                (keep c queue (fitting (c ∷ queue) carried shortfalls) next refl p done)
                (rw (done, fit_rounds) at h)
        ]
