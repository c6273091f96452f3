-- ===== src/Subscriptions/Union.antt =====
-- crates/fava-subscriptions-standard/src/grouping.rs: the union of two filters that differ on one
-- axis.
use fava.Base.{
  ℕ, ◌+◌, Bool, true, false, not, ◌&&◌, ◌||◌, String, Option, none, some, List, [], ◌∷◌, ◌==◌,
  if◌then◌else◌, is_none, keep, map, length,
}
use fava.BTreeMap.{nat_key, get, insert, keys}
use fava.BTreeSet.{BTreeSet, extend, set_eq}
use fava.Subscriptions.Filter.{
  Filter, Letter, TagValues, string_key, numbers_eq, number_eq, text_eq,
}

abbrev pub remainder_matches : Filter → Filter → Bool
remainder_matches left right =
    text_eq left.search right.search
    && number_eq left.since right.since
    && number_eq left.until right.until

abbrev pub same_names : TagValues → TagValues → Bool
same_names left right = set_eq (keys left) (keys right)

-- `right.generic_tags.get(name) != Some(values)`.
abbrev pub has_values : Option (BTreeSet String) → BTreeSet String → Bool
has_values none values = false
has_values (some other) values = set_eq other values

unfoldable pub differing_tags : TagValues → TagValues → List Letter
differing_tags left right =
    map (λ named. named.0) (keep (λ named. not (has_values (get named.0 right) named.1)) left)

abbrev pub constrained : Option (BTreeSet ℕ) → Option (BTreeSet ℕ)
constrained none = none
constrained (some []) = none
constrained (some (k ∷ s)) = some (k ∷ s)

abbrev pub union_both : Option (BTreeSet ℕ) → Option (BTreeSet ℕ) → Option (BTreeSet ℕ)
union_both (some s) (some t) = some (extend s t)
union_both _ _ = none

unfoldable pub union_constrained : Option (BTreeSet ℕ) → Option (BTreeSet ℕ) → Option (BTreeSet ℕ)
union_constrained left right = union_both (constrained left) (constrained right)

abbrev pub with_value {ℓ} : {A : Type ℓ} → Option A → (A → Filter) → Option Filter
with_value none f = none
with_value (some a) f = some (f a)

unfoldable pub union_ids : Filter → Filter → Option Filter
union_ids left right =
    with_value (union_constrained left.ids right.ids) (λ s. record left { ids = some s })

unfoldable pub union_authors : Filter → Filter → Option Filter
union_authors left right =
    with_value (union_constrained left.authors right.authors)
      (λ s. record left { authors = some s })

unfoldable pub union_kinds : Filter → Filter → Option Filter
union_kinds left right =
    with_value (union_constrained left.kinds right.kinds) (λ s. record left { kinds = some s })

abbrev pub union_values :
    Filter → Letter → Option (BTreeSet String) → Option (BTreeSet String) → Option Filter
union_values left name (some s) (some t) =
    some (record left { generic_tags = insert name (extend s t) left.generic_tags })
union_values left name _ _ = none

unfoldable pub union_tag : Filter → Filter → Letter → Option Filter
union_tag left right name =
    union_values left name (get name left.generic_tags) (get name right.generic_tags)

abbrev pub union_first_tag : Filter → Filter → List Letter → Option Filter
union_first_tag left right [] = none
union_first_tag left right (name ∷ _) = union_tag left right name

abbrev pub one_if : Bool → ℕ
one_if true = 1
one_if false = 0

unfoldable pub differing : Filter → Filter → ℕ
differing left right =
    one_if (not (numbers_eq left.ids right.ids))
    + one_if (not (numbers_eq left.authors right.authors))
    + one_if (not (numbers_eq left.kinds right.kinds))
    + length (differing_tags left.generic_tags right.generic_tags)

unfoldable pub merge_on_sole_differing_axis : Filter → Filter → Option Filter
unfolding differing
merge_on_sole_differing_axis left right =
    if not (is_none left.limit) || not (is_none right.limit)
    then none
    else if not (remainder_matches left right)
    then none
    else if not (same_names left.generic_tags right.generic_tags)
    then none
    else if not (differing left right == 1)
    then none
    else if not (numbers_eq left.ids right.ids)
    then union_ids left right
    else if not (numbers_eq left.authors right.authors)
    then union_authors left right
    else if not (numbers_eq left.kinds right.kinds)
    then union_kinds left right
    else union_first_tag left right (differing_tags left.generic_tags right.generic_tags)
