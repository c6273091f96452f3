-- ===== src/Subscriptions/Grouping.antt =====
-- crates/fava-subscriptions-standard/src/grouping.rs: the candidates that unsent demand is grouped
-- into. `encoding` is the canonical text of a filter.
use Prim.Native.Nat.{Ordering}
use Prim.Native.String.{compare}
use fava.Base.{
  ℕ, Bool, true, false, not, ◌&&◌, ◌||◌, String, Option, none, some, List, [], ◌∷◌, ◌++◌, map, ltb,
  ◌==◌, if◌then◌else◌, is_none, all, length, suc, zero,
}
use fava.BTreeMap.{BTreeMap, get, insert, remove}
use fava.Nostr.{Timestamp}
use fava.Subscriptions.Filter.{Filter, string_key, number_eq, filter_eq}
use fava.Subscriptions.Union.{merge_on_sole_differing_axis}

-- crates/fava-query/src/identity.rs
pub record QueryBounds : Type 0 where
  pub since : Option Timestamp
  pub until : Option Timestamp
  pub limit : Option ℕ

abbrev pub bounds_eq : QueryBounds → QueryBounds → Bool
bounds_eq a b = number_eq a.since b.since && number_eq a.until b.until && number_eq a.limit b.limit

-- crates/fava-subscriptions/src/demand.rs
pub record RelayDemand : Type 0 where
  pub owner : ℕ
  pub branch : ℕ
  pub filter : Filter
  pub bounds : QueryBounds

abbrev pub Candidate : Type 0
Candidate = Filter × List RelayDemand

-- The order by encoding, then by identity; `sort_by` is stable.
abbrev pub id_less : RelayDemand → RelayDemand → Bool
id_less a b = ltb a.owner b.owner || (a.owner == b.owner && ltb a.branch b.branch)

abbrev pub encoded_less : String × RelayDemand → String × RelayDemand → Bool
encoded_less a b = elim (compare a.0 b.0) [
  | Ordering.lt ↦ true
  | Ordering.eq ↦ id_less a.1 b.1
  | Ordering.gt ↦ false
]

unfoldable pub place :
    String × RelayDemand → List (String × RelayDemand) → List (String × RelayDemand)
place item [] = item ∷ []
place item (first ∷ rest) =
    if encoded_less first item then first ∷ place item rest else item ∷ first ∷ rest

unfoldable pub sorted : List (String × RelayDemand) → List (String × RelayDemand)
unfolding place
sorted [] = []
sorted (item ∷ items) = place item (sorted items)

-- The bounds that every member shares, if they share one.
unfoldable pub uniform_bounds : List RelayDemand → Option QueryBounds
uniform_bounds [] = none
uniform_bounds (first ∷ rest) =
    if all (λ item. bounds_eq item.bounds first.bounds) (first ∷ rest)
    then some first.bounds
    else none

abbrev pub bounds_are : Option QueryBounds → QueryBounds → Bool
bounds_are none bounds = false
bounds_are (some other) bounds = bounds_eq other bounds

module _ (encoding : Filter → String) where
  unfoldable pub canonical_order : List RelayDemand → List RelayDemand
  unfolding sorted
  canonical_order demand =
      map (λ item. item.1) (sorted (map (λ item. (encoding item.filter, item)) demand))

  -- The loop over the demand: the keys in the order of their first use, and a bucket for each.
  abbrev pub Buckets : Type 0
  Buckets = List String × BTreeMap String Candidate

  unfoldable pub bucket : Buckets → RelayDemand → Buckets
  bucket (order, buckets) item = elim (get (encoding item.filter) buckets) [
    | some found ↦ (order, insert (encoding item.filter) (found.0, found.1 ++ item ∷ []) buckets)
    | none ↦ (
      order ++ encoding item.filter ∷ [],
      insert (encoding item.filter) (item.filter, item ∷ []) buckets,
    )
  ]

  unfoldable pub bucket_all : Buckets → List RelayDemand → Buckets
  bucket_all buckets [] = buckets
  bucket_all buckets (item ∷ demand) = bucket_all (bucket buckets item) demand

-- `filter_map(|key| buckets.remove(&key))`.
unfoldable pub take_all : List String → BTreeMap String Candidate → List Candidate
take_all [] buckets = []
take_all (key ∷ order) buckets = elim (get key buckets) [
  | none ↦ take_all order (remove key buckets)
  | some candidate ↦ candidate ∷ take_all order (remove key buckets)
]

-- Joins the first of the later candidates that a merge would join with this one, and takes it out.
unfoldable pub absorb :
    QueryBounds → Filter → List Candidate → Option (Filter × List RelayDemand × List Candidate)
absorb bounds left [] = none
absorb bounds left (right ∷ rest) =
    let later =
      elim (absorb bounds left rest) as (λ _. Option (Filter × List RelayDemand × List Candidate)) [
        | none ↦ none
        | some (merged, absorbed, others) ↦ some (merged, absorbed, right ∷ others)
      ] in
    if not (bounds_are (uniform_bounds right.1) bounds)
    then later
    else elim (merge_on_sole_differing_axis left right.0) [
      | none ↦ later
      | some merged ↦ some (merged, right.1, rest)
    ]

-- One round of the loop of `merge_to_fixed_point`: the first mergeable pair, merged where the left
-- one stands.
abbrev pub absorb_uniform :
    Option QueryBounds
    → Filter
    → List Candidate
    → Option (Filter × List RelayDemand × List Candidate)
absorb_uniform none left rest = none
absorb_uniform (some bounds) left rest = absorb bounds left rest

unfoldable pub merge_first_pair : List Candidate → Option (List Candidate)
merge_first_pair [] = none
merge_first_pair (left ∷ rest) =
    let later = elim (merge_first_pair rest) as (λ _. Option (List Candidate)) [
      | none ↦ none
      | some merged ↦ some (left ∷ merged)
    ] in
    elim (absorb_uniform (uniform_bounds left.1) left.0 rest) [
      | none ↦ later
      | some (merged, absorbed, others) ↦ some ((merged, left.1 ++ absorbed) ∷ others)
    ]

-- Each round takes one candidate away, so that their number is fuel enough.
unfoldable pub merge_rounds : ℕ → List Candidate → List Candidate
merge_rounds zero candidates = candidates
merge_rounds (suc fuel) candidates = elim (merge_first_pair candidates) [
  | none ↦ candidates
  | some merged ↦ merge_rounds fuel merged
]

unfoldable pub merge_to_fixed_point : List Candidate → List Candidate
unfolding merge_rounds
merge_to_fixed_point candidates = merge_rounds (length candidates) candidates

-- Adds a candidate to the first that has the same filter, or behind them all.
unfoldable pub fold_in : Candidate → List Candidate → List Candidate
fold_in candidate [] = candidate ∷ []
fold_in candidate (seen ∷ folded) =
    if filter_eq seen.0 candidate.0
    then (seen.0, seen.1 ++ candidate.1) ∷ folded
    else seen ∷ fold_in candidate folded

unfoldable pub fold_identical_unions : List Candidate → List Candidate → List Candidate
unfolding fold_in
fold_identical_unions folded [] = folded
fold_identical_unions folded (candidate ∷ candidates) =
    fold_identical_unions (fold_in candidate folded) candidates

module _ (encoding : Filter → String) where
  unfoldable pub bucket_by_filter : List RelayDemand → List Candidate
  unfolding take_all
  bucket_by_filter demand =
      let (order, buckets) = bucket_all encoding ([], []) demand in take_all order buckets

  -- `default_filter_limit` is the limit that the relay declares to apply by itself.
  unfoldable pub group : List RelayDemand → Option ℕ → List Candidate
  group demand default_filter_limit =
      let candidates = bucket_by_filter (canonical_order encoding demand) in
      fold_identical_unions []
        (if is_none default_filter_limit then merge_to_fixed_point candidates else candidates)
