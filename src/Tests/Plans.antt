-- ===== src/Tests/Plans.antt =====
-- crates/fava-subscriptions and crates/fava-subscriptions-standard: demand that is grouped, and the
-- theorems at it.
use fava.Base.{
  In, ℕ, ◌≡◌, refl, true, false, ◌||◌, String, Option, none, some, List, [], ◌∷◌, inl, inr, All,
  arith, if◌then◌else◌, ◌==◌, ◌≢◌, eq_iff, ap, sym, ◌∙◌,
}
use fava.BTreeMap.{nat_key}
use fava.BTreeMap.Distinct.{Distinct}
use fava.Subscriptions.Filter.{Filter, numbers_eq}
use fava.Subscriptions.Matching.{Matcher, matches}
use fava.Subscriptions.Union.{merge_on_sole_differing_axis}
use fava.Subscriptions.Axes.{merge-exact}
use fava.Subscriptions.Coverage.{filter_covers, filter_covers-matches}
use fava.Subscriptions.Grouping.{
  RelayDemand, Candidate, merge_first_pair, merge_to_fixed_point, group,
}
use fava.Subscriptions.Rounds.{Shares, merge_to_fixed_point-end}
use fava.Subscriptions.Exact.{IsExact}
use fava.Subscriptions.Buckets.{IsFaithful, AllDistinct, group-IsExact}
use fava.Subscriptions.Carried.{Carries}
use fava.Subscriptions.Complete.{group-Carries}
use fava.Tests.Crate.{event_of}

-- Every event carries the tag values "a" and "b" under the letter 1.
abbrev pub matcher : Matcher
matcher = record {
  tag_values = λ e letter. if letter == 1 then "a" ∷ "b" ∷ [] else [];
  found = λ text e. true;
}

abbrev pub asks : Option (List ℕ) → Option (List ℕ) → List (ℕ × List String) → Filter
asks authors kinds tags = record {
  ids = none;
  authors = authors;
  kinds = kinds;
  search = none;
  since = none;
  until = none;
  limit = none;
  generic_tags = tags;
}

abbrev pub by_author : ℕ → Filter
by_author key = asks (some (key ∷ [])) (some (1 ∷ [])) []

abbrev by_both : Filter
by_both = asks (some (7 ∷ 8 ∷ [])) (some (1 ∷ [])) []

abbrev by_tag : String → Filter
by_tag value = asks none none ((1, value ∷ []) ∷ [])

merged : merge_on_sole_differing_axis (by_author 7) (by_author 8) ≡ some by_both
unfolding merge_on_sole_differing_axis fava.BTreeSet.set_eq fava.Subscriptions.Union.differing_tags
    fava.Subscriptions.Union.union_authors fava.Subscriptions.Union.union_constrained
    fava.BTreeSet.extend fava.BTreeSet.insert
merged = refl

-- Filters that differ in two axes are not merged.
not_merged : merge_on_sole_differing_axis (by_author 7) (by_tag "a") ≡ none
unfolding merge_on_sole_differing_axis fava.BTreeSet.set_eq
not_merged = refl

tags_merged :
    merge_on_sole_differing_axis (by_tag "a") (by_tag "c")
    ≡ some (asks none none ((1, "a" ∷ "c" ∷ []) ∷ []))
unfolding merge_on_sole_differing_axis fava.BTreeSet.set_eq fava.Subscriptions.Union.differing_tags
    fava.BTreeMap.get fava.Subscriptions.Union.union_tag fava.BTreeMap.insert fava.BTreeSet.extend
    fava.BTreeSet.insert
tags_merged = refl

one_name : (value : String) → Distinct (by_tag value).generic_tags
unfolding fava.BTreeMap.get
one_name value = (refl, tt)

merge-exact_example :
    (matches matcher (asks none none ((1, "a" ∷ "c" ∷ []) ∷ [])) (event_of 4 1 []) ≡ (
      matches matcher (by_tag "a") (event_of 4 1 [])
      || matches matcher (by_tag "c") (event_of 4 1 [])))
    × Distinct (asks none none ((1, "a" ∷ "c" ∷ []) ∷ [])).generic_tags
merge-exact_example =
    merge-exact matcher (by_tag "a") (by_tag "c") (event_of 4 1 []) (one_name "a") (one_name "c")
      tags_merged

covered : filter_covers by_both (by_author 7) ≡ true
unfolding filter_covers fava.Subscriptions.Filter.filter_eq fava.BTreeSet.set_eq
    fava.Subscriptions.Coverage.covers_set fava.BTreeSet.contains
    fava.Subscriptions.Coverage.covers_tags
covered = refl

asked : matches matcher (by_author 7) (event_of 4 1 []) ≡ true
unfolding matches fava.BTreeSet.contains
asked = refl

filter_covers-matches_example : matches matcher by_both (event_of 4 1 []) ≡ true
filter_covers-matches_example =
    filter_covers-matches matcher (event_of 4 1 []) by_both (by_author 7) covered asked

abbrev pub needs : ℕ → RelayDemand
needs key = record {
  owner = key;
  branch = 0;
  filter = by_author key;
  bounds = record { since = none; until = none; limit = none };
}

abbrev pub demand : List RelayDemand
demand = needs 8 ∷ needs 7 ∷ []

-- The text of the first author.
abbrev pub encoding : Filter → String
encoding f = if numbers_eq f.authors (some (7 ∷ [])) then "7" else "8"

grouped : group encoding demand none ≡ (by_both, needs 7 ∷ needs 8 ∷ []) ∷ []
unfolding group fava.Subscriptions.Grouping.fold_identical_unions merge_to_fixed_point
    fava.Subscriptions.Grouping.bucket_by_filter fava.Subscriptions.Grouping.bucket_all
    fava.Subscriptions.Grouping.canonical_order fava.BTreeSet.set_eq
    fava.Subscriptions.Grouping.bucket fava.BTreeMap.get fava.BTreeMap.insert merge_first_pair
    fava.Subscriptions.Grouping.uniform_bounds fava.Subscriptions.Grouping.absorb
    fava.BTreeMap.remove merge_on_sole_differing_axis fava.Subscriptions.Union.differing_tags
    fava.Subscriptions.Union.union_authors fava.Subscriptions.Union.union_constrained
    fava.BTreeSet.extend fava.BTreeSet.insert
grouped = refl

-- Two candidates are merged, and the third is not merged with what they make.
abbrev three : List Candidate
three = (by_author 7, needs 7 ∷ []) ∷ (by_tag "a", needs 9 ∷ []) ∷ (by_author 8, needs 8 ∷ []) ∷ []

ends :
    merge_to_fixed_point three ≡ (by_both, needs 7 ∷ needs 8 ∷ []) ∷ (by_tag "a", needs 9 ∷ []) ∷ []
unfolding merge_to_fixed_point merge_first_pair fava.Subscriptions.Grouping.uniform_bounds
    fava.Subscriptions.Grouping.absorb merge_on_sole_differing_axis
    fava.Subscriptions.Union.differing_tags fava.Subscriptions.Union.union_authors
    fava.Subscriptions.Union.union_constrained fava.BTreeSet.extend fava.BTreeSet.insert
    fava.BTreeSet.set_eq
ends = refl

first_two : Shares (needs 7).bounds (by_both, needs 7 ∷ needs 8 ∷ [])
first_two = record { nonempty = λ h. cc; each = each_of_two }
  where
    each_of_two :
        (member : RelayDemand)
        → In member (needs 7 ∷ needs 8 ∷ [])
        → member.bounds ≡ (needs 7).bounds
    each_of_two member (inl e) = ap (λ (d : RelayDemand). d.bounds) (sym e)
    each_of_two member (inr (inl e)) = ap (λ (d : RelayDemand). d.bounds) (sym e)
    each_of_two member (inr (inr i)) = elim i [ ]

third : Shares (needs 7).bounds (by_tag "a", needs 9 ∷ [])
third = record { nonempty = λ h. cc; each = each_of_one }
  where
    each_of_one :
        (member : RelayDemand) → In member (needs 9 ∷ []) → member.bounds ≡ (needs 7).bounds
    each_of_one member (inl e) = ap (λ (d : RelayDemand). d.bounds) (sym e)
    each_of_one member (inr i) = elim i [ ]

merge_to_fixed_point-end_example : merge_on_sole_differing_axis by_both (by_tag "a") ≡ none
merge_to_fixed_point-end_example =
    merge_to_fixed_point-end (by_both, needs 7 ∷ needs 8 ∷ []) [] (by_tag "a", needs 9 ∷ []) []
      (needs 7).bounds three [] ends first_two third

abbrev filter_of : RelayDemand → Filter
filter_of d = d.filter

abbrev encoded : RelayDemand → String
encoded d = encoding d.filter

seven_is_not_eight : ◌≢◌ {A = String} "7" "8"
seven_is_not_eight = λ h. let p : false ≡ true = (eq_iff "7" "8").1 h in ground arith

pub faithful : IsFaithful encoding demand
unfolding fava.BTreeSet.set_eq
faithful a b (inl p) (inl q) e = ap filter_of (sym p ∙ q)
faithful a b (inl p) (inr (inl q)) e =
    absurd (seven_is_not_eight (sym (ap encoded p ∙ e ∙ sym (ap encoded q))))
faithful a b (inr (inl p)) (inl q) e =
    absurd (seven_is_not_eight (ap encoded p ∙ e ∙ sym (ap encoded q)))
faithful a b (inr (inl p)) (inr (inl q)) e = ap filter_of (sym p ∙ q)
faithful a b (inr (inr p)) j e = elim p [ ]
faithful a b (inl p) (inr (inr q)) e = elim q [ ]
faithful a b (inr (inl p)) (inr (inr q)) e = elim q [ ]

pub distinct : AllDistinct demand
distinct = (tt, (tt, tt))

group-IsExact_example : All (IsExact matcher) (group encoding demand none)
group-IsExact_example = group-IsExact encoding matcher demand none faithful distinct

group-Carries_example : Carries (group encoding demand none) (needs 7)
group-Carries_example = group-Carries encoding demand none (needs 7) (inr (inl refl))
