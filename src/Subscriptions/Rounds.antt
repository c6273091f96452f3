-- ===== src/Subscriptions/Rounds.antt =====
-- crates/fava-subscriptions-standard/src/grouping.rs, `merge_to_fixed_point`: what one merge does,
-- and that the merges come to an end.
use fava.Base.{
  ◌≢◌, In, all_of_In, ap, ℕ, ◌+◌, ◌≤◌, ◌≡◌, refl, arith, true, not, none, some, List, [], ◌∷◌, ◌++◌,
  length, Bool-cases, Option-cases, ◌⊎◌, inl, inr, suc, zero, subst,
}
use fava.Subscriptions.Filter.{Filter, number_eq_iff}
use fava.Subscriptions.Union.{merge_on_sole_differing_axis}
use fava.Subscriptions.Grouping.{
  RelayDemand, Candidate, QueryBounds, bounds_eq, uniform_bounds, bounds_are, absorb,
  absorb_uniform, merge_first_pair, merge_rounds, merge_to_fixed_point,
}

abbrev pub Parts : Type 0
Parts = Filter × List RelayDemand × List Candidate

-- The candidate that is absorbed is the first, or a later one.
pub absorb-cases :
    (bounds : QueryBounds) (left : Filter) (right : Candidate) (rest : List Candidate)
    {parts : Parts}
    → absorb bounds left (right ∷ rest) ≡ some parts
    → ((later : Parts) × (absorb bounds left rest ≡ some later)
        × ◌≡◌ {A = Parts} (later.0, later.1, right ∷ later.2) parts)
      ⊎ ((merged : Filter) × (merge_on_sole_differing_axis left right.0 ≡ some merged)
          × ◌≡◌ {A = Parts} (merged, right.1, rest) parts)
unfolding absorb
absorb-cases bounds left right rest h =
    elim (Bool-cases (not (bounds_are (uniform_bounds right.1) bounds))) [
      | inl other ↦ elim (Option-cases (absorb bounds left rest)) [
        | inl missing ↦ absurd (ground (arith, other, missing))
        | inr (later, found) ↦ inl (later, found, ground (arith, other, found))
      ]
      | inr same ↦ elim (Option-cases (merge_on_sole_differing_axis left right.0)) [
        | inr (merged, made) ↦ inr (merged, made, ground (arith, same, made))
        | inl refused ↦ elim (Option-cases (absorb bounds left rest)) [
          | inl missing ↦ absurd (ground (arith, same, refused, missing))
          | inr (later, found) ↦ inl (later, found, ground (arith, same, refused, found))
        ]
      ]
    ]

-- The first pair has the first candidate in it, or lies among the others.
pub merge_first_pair-cases :
    (left : Candidate) (rest : List Candidate) {out : List Candidate}
    → merge_first_pair (left ∷ rest) ≡ some out
    → ((later : List Candidate) × (merge_first_pair rest ≡ some later) × (left ∷ later ≡ out))
      ⊎ ((bounds : QueryBounds) × (parts : Parts) × (absorb bounds left.0 rest ≡ some parts)
          × ((parts.0, left.1 ++ parts.1) ∷ parts.2 ≡ out))
unfolding merge_first_pair
merge_first_pair-cases left rest h =
    elim (Option-cases (absorb_uniform (uniform_bounds left.1) left.0 rest)) [
      | inl refused ↦ elim (Option-cases (merge_first_pair rest)) [
        | inl missing ↦ absurd (ground (arith, refused, missing))
        | inr (later, found) ↦ inl (later, found, ground (arith, refused, found))
      ]
      | inr (parts, made) ↦ elim (Option-cases (uniform_bounds left.1)) [
        | inl none_shared ↦ absurd (ground (arith, none_shared, made))
        | inr (bounds, shared) ↦ inr (bounds, parts, rw shared at made, ground (arith, made))
      ]
    ]

absorb-length :
    (bounds : QueryBounds) (left : Filter) (rest : List Candidate) {parts : Parts}
    → absorb bounds left rest ≡ some parts
    → length rest ≡ length parts.2 + 1
unfolding absorb
absorb-length bounds left [] h = cc
absorb-length bounds left (right ∷ rest) h = elim (absorb-cases bounds left right rest h) [
  | inl (later, found, e) ↦ rw (← e) (omega (arith, absorb-length bounds left rest found))
  | inr (merged, made, e) ↦ rw (← e) (omega arith)
]

merge_first_pair-length :
    (candidates : List Candidate) {out : List Candidate}
    → merge_first_pair candidates ≡ some out
    → length candidates ≡ length out + 1
unfolding merge_first_pair
merge_first_pair-length [] h = cc
merge_first_pair-length (left ∷ rest) h = elim (merge_first_pair-cases left rest h) [
  | inl (later, found, e) ↦ rw (← e) (omega (arith, merge_first_pair-length rest found))
  | inr (bounds, parts, found, e) ↦ rw (← e) (omega (arith, absorb-length bounds left.0 rest found))
]

pub no_pair : merge_first_pair [] ≡ none
unfolding merge_first_pair
no_pair = refl

merge_rounds-end :
    (fuel : ℕ) (candidates : List Candidate)
    → length candidates ≤ fuel
    → merge_first_pair (merge_rounds fuel candidates) ≡ none
unfolding merge_rounds
merge_rounds-end zero [] h = no_pair
merge_rounds-end zero (left ∷ rest) h = absurd (omega (arith, h))
merge_rounds-end (suc fuel) candidates h = elim (Option-cases (merge_first_pair candidates)) [
  | inl stuck ↦ rw (stuck, merge_rounds) stuck
  | inr (out, merged) ↦
      rw (merged, merge_rounds)
        (merge_rounds-end fuel out (omega (arith, h, merge_first_pair-length candidates merged)))
]

absorb-rest :
    (bounds : QueryBounds) (left : Filter) (y : Candidate) (rest : List Candidate)
    → absorb bounds left (y ∷ rest) ≡ none
    → absorb bounds left rest ≡ none
unfolding absorb
absorb-rest bounds left y rest stuck = elim (Option-cases (absorb bounds left rest)) [
  | inl refused ↦ refused
  | inr (later, found) ↦ absurd (ground (arith, stuck, found))
]

absorb-refuses :
    (bounds : QueryBounds) (left : Filter) (ys : List Candidate) (right : Candidate)
    (zs : List Candidate)
    → absorb bounds left (ys ++ right ∷ zs) ≡ none
    → bounds_are (uniform_bounds right.1) bounds ≡ true
    → merge_on_sole_differing_axis left right.0 ≡ none
unfolding absorb
absorb-refuses bounds left [] right zs stuck same =
    elim (Option-cases (merge_on_sole_differing_axis left right.0)) [
      | inl refused ↦ refused
      | inr (merged, made) ↦ absurd (ground (arith, stuck, same, made))
    ]
absorb-refuses bounds left (y ∷ ys) right zs stuck same =
    absorb-refuses bounds left ys right zs (absorb-rest bounds left y (ys ++ right ∷ zs) stuck) same

merge_first_pair-stuck :
    (x : Candidate) (rest : List Candidate)
    → merge_first_pair (x ∷ rest) ≡ none
    → (absorb_uniform (uniform_bounds x.1) x.0 rest ≡ none) × (merge_first_pair rest ≡ none)
unfolding merge_first_pair
merge_first_pair-stuck x rest stuck =
    elim (Option-cases (absorb_uniform (uniform_bounds x.1) x.0 rest)) [
      | inr (parts, made) ↦ absurd (ground (arith, stuck, made))
      | inl refused ↦ elim (Option-cases (merge_first_pair rest)) [
        | inl missing ↦ (refused, missing)
        | inr (later, found) ↦ absurd (ground (arith, stuck, refused, found))
      ]
    ]

-- A candidate with members, each with these bounds.
pub record Shares (bounds : QueryBounds) (candidate : Candidate) : Type 0 where
  pub nonempty : candidate.1 ≢ []
  pub each : (member : RelayDemand) → In member candidate.1 → member.bounds ≡ bounds

pub bounds_eq_refl : (a : QueryBounds) → bounds_eq a a ≡ true
bounds_eq_refl a =
    rw
      (
        (number_eq_iff a.since a.since).1 refl,
        (number_eq_iff a.until a.until).1 refl,
        (number_eq_iff a.limit a.limit).1 refl,
      )
      refl

members-uniform :
    (bounds : QueryBounds) (members : List RelayDemand)
    → members ≢ []
    → ((member : RelayDemand) → In member members → member.bounds ≡ bounds)
    → uniform_bounds members ≡ some bounds
unfolding uniform_bounds
members-uniform bounds [] nonempty each = absurd (nonempty refl)
members-uniform bounds (first ∷ rest) nonempty each =
    let all_same =
      all_of_In (λ item. bounds_eq item.bounds first.bounds) (first ∷ rest)
        (λ a i. rw (each a i, each first (inl refl)) (bounds_eq_refl bounds)) in
    rw all_same (ap some (each first (inl refl)))

Shares-uniform :
    (bounds : QueryBounds) (candidate : Candidate)
    → Shares bounds candidate
    → uniform_bounds candidate.1 ≡ some bounds
Shares-uniform bounds candidate shared =
    members-uniform bounds candidate.1 shared.nonempty shared.each

module _ (left : Candidate) (ys : List Candidate) (right : Candidate) (zs : List Candidate)
    (bounds : QueryBounds) where
  stuck-pair :
      (xs : List Candidate)
      → merge_first_pair (xs ++ left ∷ (ys ++ right ∷ zs)) ≡ none
      → uniform_bounds left.1 ≡ some bounds
      → bounds_are (uniform_bounds right.1) bounds ≡ true
      → merge_on_sole_differing_axis left.0 right.0 ≡ none
  stuck-pair [] stuck shared same =
      absorb-refuses bounds left.0 ys right zs
        (rw shared at (merge_first_pair-stuck left (ys ++ right ∷ zs) stuck).0) same
  stuck-pair (x ∷ xs) stuck shared same =
      stuck-pair xs (merge_first_pair-stuck x (xs ++ left ∷ (ys ++ right ∷ zs)) stuck).1 shared same

  -- The merges end where no two candidates can be merged any more: of any two that are left, one
  -- before the other, each with members and all the members with the same bounds, the filters have
  -- no union on a sole differing axis.
  pub merge_to_fixed_point-end :
      (candidates xs : List Candidate)
      → merge_to_fixed_point candidates ≡ xs ++ left ∷ (ys ++ right ∷ zs)
      → Shares bounds left
      → Shares bounds right
      → merge_on_sole_differing_axis left.0 right.0 ≡ none
  unfolding merge_to_fixed_point
  merge_to_fixed_point-end candidates xs ends at_left at_right =
      stuck-pair xs
        (subst (λ left_over. merge_first_pair left_over ≡ none) ends
          (merge_rounds-end (length candidates) candidates (omega arith)))
        (Shares-uniform bounds left at_left)
        (rw (Shares-uniform bounds right at_right) (bounds_eq_refl bounds))
