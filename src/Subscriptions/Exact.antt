-- ===== src/Subscriptions/Exact.antt =====
-- crates/fava-subscriptions-standard/src/grouping.rs, `group`: the filter of a candidate against the
-- demand that it carries.
use fava.Base.{
  ℕ, ◌≡◌, refl, sym, ◌∙◌, arith, Bool, ◌||◌, some, List, [], ◌∷◌, ◌++◌, any, Bool-cases,
  Option-cases, inl, inr, suc, zero, All,
}
use fava.BTreeMap.{nat_key}
use fava.BTreeMap.Distinct.{Distinct}
use fava.Nostr.{Event}
use fava.Subscriptions.Filter.{Filter, string_key, filter_eq, filter_eq-true}
use fava.Subscriptions.Matching.{Matcher, matches}
use fava.Subscriptions.Union.{merge_on_sole_differing_axis}
use fava.Subscriptions.Axes.{merge-exact, merge-Union, Union-Distinct}
use fava.Subscriptions.Rounds.{absorb-cases, merge_first_pair-cases, no_pair}
use fava.Subscriptions.Grouping.{
  RelayDemand, Candidate, QueryBounds, absorb, merge_first_pair, merge_rounds, fold_in,
  fold_identical_unions,
}

-- A candidate asks for an event exactly if one of its members does.
pub record IsExact (matcher : Matcher) (candidate : Candidate) : Type 0 where
  pub distinct : Distinct candidate.0.generic_tags
  pub exact :
      (e : Event)
      → matches matcher candidate.0 e
        ≡ any (λ (d : RelayDemand). matches matcher d.filter e) candidate.1

any-append :
    {A : Type 0} (p : A → Bool) (xs ys : List A) → any p (xs ++ ys) ≡ (any p xs || any p ys)
any-append p [] ys = refl
any-append p (x ∷ xs) ys = ground (arith, any-append p xs ys)

module _ (matcher : Matcher) where
  abbrev AllExact : List Candidate → Type 0
  AllExact = All (IsExact matcher)

  abbrev wants : Event → List RelayDemand → Bool
  wants e = any (λ (d : RelayDemand). matches matcher d.filter e)

  -- What `absorb` answers.
  abbrev ExactParts : List RelayDemand → Filter × List RelayDemand × List Candidate → Type 0
  ExactParts members parts = IsExact matcher (parts.0, members ++ parts.1) × AllExact parts.2

  joined :
      (left : Filter) (members : List RelayDemand) (right : Candidate) {merged : Filter}
      → IsExact matcher (left, members)
      → IsExact matcher right
      → merge_on_sole_differing_axis left right.0 ≡ some merged
      → IsExact matcher (merged, members ++ right.1)
  joined left members right x y h = record {
    distinct =
        Union-Distinct matcher left right.0 x.distinct (merge-Union left right.0 y.distinct h);
    exact = λ e.
        (merge-exact matcher left right.0 e x.distinct y.distinct h).0
        ∙ rw (x.exact e, y.exact e) (sym (any-append _ members right.1));
  }

  absorb-exact :
      (bounds : QueryBounds) (left : Filter) (members : List RelayDemand) (rest : List Candidate)
      {parts : Filter × List RelayDemand × List Candidate}
      → IsExact matcher (left, members)
      → AllExact rest
      → absorb bounds left rest ≡ some parts
      → ExactParts members parts
  unfolding absorb
  absorb-exact bounds left members [] x xs h = cc
  absorb-exact bounds left members (right ∷ rest) x xs h =
      elim (absorb-cases bounds left right rest h) [
        | inl (later, found, e) ↦
            let (y, ys) = absorb-exact bounds left members rest x xs.1 found in
            rw (← e) (y, (xs.0, ys))
        | inr (merged, made, e) ↦ rw (← e) (joined left members right x xs.0 made, xs.1)
      ]

  merge_first_pair-exact :
      (candidates : List Candidate) {out : List Candidate}
      → AllExact candidates
      → merge_first_pair candidates ≡ some out
      → AllExact out
  merge_first_pair-exact [] xs h = absurd (ground (arith, no_pair))
  merge_first_pair-exact (left ∷ rest) xs h = elim (merge_first_pair-cases left rest h) [
    | inl (later, found, e) ↦ rw (← e) (xs.0, merge_first_pair-exact rest xs.1 found)
    | inr (bounds, parts, found, e) ↦
        rw (← e) (absorb-exact bounds left.0 left.1 rest xs.0 xs.1 found)
  ]

  pub merge_rounds-exact :
      (fuel : ℕ) (candidates : List Candidate)
      → AllExact candidates
      → AllExact (merge_rounds fuel candidates)
  unfolding merge_rounds
  merge_rounds-exact zero candidates xs = xs
  merge_rounds-exact (suc fuel) candidates xs = elim (Option-cases (merge_first_pair candidates)) [
    | inl stuck ↦ rw (stuck, merge_rounds) xs
    | inr (out, merged) ↦
        rw (merged, merge_rounds)
          (merge_rounds-exact fuel out (merge_first_pair-exact candidates xs merged))
  ]

  fold_in-exact :
      (c : Candidate) (folded : List Candidate)
      → IsExact matcher c
      → AllExact folded
      → AllExact (fold_in c folded)
  unfolding fold_in
  fold_in-exact c [] x xs = (x, tt)
  fold_in-exact c (seen ∷ folded) x xs = elim (Bool-cases (filter_eq seen.0 c.0)) [
    | inr other ↦ rw other (xs.0, fold_in-exact c folded x xs.1)
    | inl same ↦ rw same (
      record {
        distinct = xs.0.distinct;
        exact = λ e. ground (
          arith,
          xs.0.exact e,
          x.exact e,
          filter_eq-true seen.0 c.0 same,
          any-append (λ (d : RelayDemand). matches matcher d.filter e) seen.1 c.1,
        );
      },
      xs.1,
    )
  ]

  pub fold_identical_unions-exact :
      (folded candidates : List Candidate)
      → AllExact folded
      → AllExact candidates
      → AllExact (fold_identical_unions folded candidates)
  unfolding fold_identical_unions
  fold_identical_unions-exact folded [] fs xs = fs
  fold_identical_unions-exact folded (c ∷ candidates) fs xs =
      fold_identical_unions-exact (fold_in c folded) candidates (fold_in-exact c folded xs.0 fs)
        xs.1
