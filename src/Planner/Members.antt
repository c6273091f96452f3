-- ===== src/Planner/Members.antt =====
-- crates/fava-subscriptions-standard/src/grouping.rs, `group`: the members of its candidates are of
-- the demand that it is given.
use fava.Base.{
  ℕ, ◌≤◌, ◌≡◌, arith, Bool, true, ◌&&◌, String, Option, List, [], ◌∷◌, ◌==◌, any, if◌then◌else◌, In,
  inl, inr, any_of_In, Bool-cases, sym, subst,
}
use fava.Subscriptions.Filter.{
  Filter, filter_eq, filter_eq_refl, filter_eq-true, number_eq, number_eq_iff, both_true,
}
use fava.Subscriptions.Grouping.{RelayDemand, Candidate, QueryBounds, bounds_eq, group}
use fava.Subscriptions.Rounds.{bounds_eq_refl}
use fava.Subscriptions.Tally.{Measure, IsSubadditive, tally, singles, tally-group}

bounds_eq-true : (a b : QueryBounds) → bounds_eq a b ≡ true → a ≡ b
bounds_eq-true a b h =
    let (h, limit) = both_true _ (number_eq a.limit b.limit) h in
    let (since, until) = both_true _ (number_eq a.until b.until) h in
    cc (
      (number_eq_iff a.since b.since).0 since,
      (number_eq_iff a.until b.until).0 until,
      (number_eq_iff a.limit b.limit).0 limit,
    )

demand_eq : RelayDemand → RelayDemand → Bool
demand_eq a b =
    a.owner == b.owner
    && a.branch == b.branch
    && filter_eq a.filter b.filter
    && bounds_eq a.bounds b.bounds

demand_eq_refl : (a : RelayDemand) → demand_eq a a ≡ true
unfolding demand_eq
demand_eq_refl a = rw (filter_eq_refl a.filter, bounds_eq_refl a.bounds) (ground arith)

demand_eq-true : (a b : RelayDemand) → demand_eq a b ≡ true → a ≡ b
unfolding demand_eq
demand_eq-true a b h =
    let (h, bounds) = both_true _ (bounds_eq a.bounds b.bounds) h in
    let (h, filter) = both_true _ (filter_eq a.filter b.filter) h in
    let same : (a.owner ≡ b.owner) × (a.branch ≡ b.branch) = ground arith in
    cc (
      same.0,
      same.1,
      bounds_eq-true a.bounds b.bounds bounds,
      filter_eq-true a.filter b.filter filter,
    )

abbrev present : RelayDemand → Measure
present d ds = if any (demand_eq d) ds then 1 else 0

present-IsSubadditive : (d : RelayDemand) → IsSubadditive (present d)
present-IsSubadditive d [] ys = omega arith
present-IsSubadditive d (x ∷ xs) ys = ground (arith, present-IsSubadditive d xs ys)

present-tally :
    (d : RelayDemand) (c : Candidate) (cs : List Candidate)
    → In c cs
    → In d c.1
    → 1 ≤ tally (present d) cs
unfolding tally
present-tally d c [] i j = elim i [ ]
present-tally d c (x ∷ cs) (inl e) j =
    let there : In d x.1 = subst (λ (c : Candidate). In d c.1) (sym e) j in
    rw (any_of_In d (demand_eq d) x.1 there (demand_eq_refl d)) (omega arith)
present-tally d c (x ∷ cs) (inr i) j = omega (arith, present-tally d c cs i j)

singles-present : (d : RelayDemand) (ds : List RelayDemand) → 1 ≤ singles (present d) ds → In d ds
unfolding singles
singles-present d [] h = absurd (omega arith)
singles-present d (x ∷ ds) h = elim (Bool-cases (demand_eq d x)) [
  | inl same ↦ inl (sym (demand_eq-true d x same))
  | inr other ↦ inr (singles-present d ds (ground (arith, other)))
]

pub group-In :
    (canonical : Filter → String) (demand : List RelayDemand) (limit : Option ℕ) (c : Candidate)
    (d : RelayDemand)
    → In c (group canonical demand limit)
    → In d c.1
    → In d demand
group-In canonical demand limit c d i j = singles-present d demand (
    omega (
      arith,
      present-tally d c (group canonical demand limit) i j,
      tally-group (present d) (present-IsSubadditive d) canonical demand limit,
    ))
