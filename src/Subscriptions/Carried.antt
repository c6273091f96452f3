-- ===== src/Subscriptions/Carried.antt =====
-- crates/fava-subscriptions-standard/src/grouping.rs, `merge_to_fixed_point` and
-- `fold_identical_unions`: no demand is lost.
use fava.Base.{
  ℕ, ◌≡◌, refl, sym, String, some, List, [], ◌∷◌, Bool-cases, Option-cases, ◌⊎◌, inl, inr, In,
  append_left, append_right, subst, suc, zero,
}
use fava.BTreeMap.{nat_key}
use fava.Subscriptions.Filter.{Filter, string_key, filter_eq}
use fava.Subscriptions.Grouping.{
  RelayDemand, Candidate, QueryBounds, place, sorted, encoded_less, absorb, merge_first_pair,
  merge_rounds, fold_in, fold_identical_unions,
}
use fava.Subscriptions.Rounds.{Parts, absorb-cases, merge_first_pair-cases}

-- One of the candidates carries the demand.
abbrev pub Carries : List Candidate → RelayDemand → Type 0
Carries candidates d = (c : Candidate) × In c candidates × In d c.1

In-place :
    (x item : String × RelayDemand) (items : List (String × RelayDemand))
    → (item ≡ x) ⊎ In x items
    → In x (place item items)
unfolding place
In-place x item [] i = i
In-place x item (first ∷ rest) i = elim (Bool-cases (encoded_less first item)) [
  | inr behind ↦ rw behind i
  | inl before ↦ rw before (elim i [
    | inl e ↦ inr (In-place x item rest (inl e))
    | inr (inl e) ↦ inl e
    | inr (inr j) ↦ inr (In-place x item rest (inr j))
  ])
]

pub In-sorted :
    (x : String × RelayDemand) (items : List (String × RelayDemand))
    → In x items
    → In x (sorted items)
unfolding sorted
In-sorted x [] i = i
In-sorted x (item ∷ items) (inl e) = In-place x item (sorted items) (inl e)
In-sorted x (item ∷ items) (inr i) = In-place x item (sorted items) (inr (In-sorted x items i))

module _ (d : RelayDemand) where
  absorb-Carries :
      (bounds : QueryBounds) (left : Filter) (rest : List Candidate) {parts : Parts}
      → absorb bounds left rest ≡ some parts
      → Carries rest d
      → In d parts.1 ⊎ Carries parts.2 d
  unfolding absorb
  absorb-Carries bounds left [] h (c, i, j) = elim i [ ]
  absorb-Carries bounds left (right ∷ rest) h (c, i, j) =
      elim (absorb-cases bounds left right rest h) [
        | inr (merged, made, e) ↦ rw (← e) (elim i [
          | inl is_right ↦ inl (subst (λ (c : Candidate). In d c.1) (sym is_right) j)
          | inr k ↦ inr (c, k, j)
        ])
        | inl (later, found, e) ↦ rw (← e) (elim i [
          | inl is_right ↦ inr (c, inl is_right, j)
          | inr k ↦ elim (absorb-Carries bounds left rest found (c, k, j)) [
            | inl m ↦ inl m
            | inr (b, m, n) ↦ inr (b, inr m, n)
          ]
        ])
      ]

  merge_first_pair-Carries :
      (candidates : List Candidate) {out : List Candidate}
      → merge_first_pair candidates ≡ some out
      → Carries candidates d
      → Carries out d
  merge_first_pair-Carries [] h (c, i, j) = elim i [ ]
  merge_first_pair-Carries (left ∷ rest) h (c, i, j) = elim (merge_first_pair-cases left rest h) [
    | inl (later, found, e) ↦ rw (← e) (elim i [
      | inl is_left ↦ (c, inl is_left, j)
      | inr k ↦ let (b, m, n) = merge_first_pair-Carries rest found (c, k, j) in (b, inr m, n)
    ])
    | inr (bounds, parts, found, e) ↦ rw (← e) (elim i [
      | inl is_left ↦ (
        _,
        inl refl,
        append_left d left.1 parts.1 (subst (λ (c : Candidate). In d c.1) (sym is_left) j),
      )
      | inr k ↦ elim (absorb-Carries bounds left.0 rest found (c, k, j)) [
        | inl m ↦ (_, inl refl, append_right d left.1 parts.1 m)
        | inr (b, m, n) ↦ (b, inr m, n)
      ]
    ])
  ]

  pub merge_rounds-Carries :
      (fuel : ℕ) (candidates : List Candidate)
      → Carries candidates d
      → Carries (merge_rounds fuel candidates) d
  unfolding merge_rounds
  merge_rounds-Carries zero candidates i = i
  merge_rounds-Carries (suc fuel) candidates i = elim (Option-cases (merge_first_pair candidates)) [
    | inl stuck ↦ rw (stuck, merge_rounds) i
    | inr (out, merged) ↦
        rw (merged, merge_rounds)
          (merge_rounds-Carries fuel out (merge_first_pair-Carries candidates merged i))
  ]

  fold_in-Carries :
      (c : Candidate) (folded : List Candidate)
      → In d c.1 ⊎ Carries folded d
      → Carries (fold_in c folded) d
  unfolding fold_in
  fold_in-Carries c [] (inl i) = (c, inl refl, i)
  fold_in-Carries c [] (inr (b, i, j)) = elim i [ ]
  fold_in-Carries c (seen ∷ folded) i = elim (Bool-cases (filter_eq seen.0 c.0)) [
    | inl same ↦ rw same (elim i [
      | inl j ↦ (_, inl refl, append_right d seen.1 c.1 j)
      | inr (b, inl e, k) ↦
          (_, inl refl, append_left d seen.1 c.1 (subst (λ (c : Candidate). In d c.1) (sym e) k))
      | inr (b, inr j, k) ↦ (b, inr j, k)
    ])
    | inr other ↦ rw other (elim i [
      | inl j ↦ let (b, m, n) = fold_in-Carries c folded (inl j) in (b, inr m, n)
      | inr (b, inl e, k) ↦ (b, inl e, k)
      | inr (b, inr j, k) ↦
          let (a, m, n) = fold_in-Carries c folded (inr (b, j, k)) in (a, inr m, n)
    ])
  ]

  pub fold_identical_unions-Carries :
      (folded candidates : List Candidate)
      → Carries folded d ⊎ Carries candidates d
      → Carries (fold_identical_unions folded candidates) d
  unfolding fold_identical_unions
  fold_identical_unions-Carries folded [] (inl i) = i
  fold_identical_unions-Carries folded [] (inr (b, i, j)) = elim i [ ]
  fold_identical_unions-Carries folded (c ∷ candidates) i =
      fold_identical_unions-Carries (fold_in c folded) candidates (elim i [
        | inl j ↦ inl (fold_in-Carries c folded (inr j))
        | inr (b, inl e, k) ↦
            inl (fold_in-Carries c folded (inl (subst (λ (c : Candidate). In d c.1) (sym e) k)))
        | inr (b, inr j, k) ↦ inr (b, j, k)
      ])
