-- ===== src/Query/Chosen.antt =====
-- crates/fava-query-standard/src/lib.rs, `evaluate`: which records a query answers, and in which
-- order.
use fava.Base.{
  In-take, ℕ, ◌≡◌, ◌≤◌, refl, arith, Bool, true, false, Option, none, some, List, [], ◌∷◌, keep,
  take, length, zero, suc, In, inl, inr, ◌⊎◌, In-keep, keep_of_In, length-take, ok, >>=-eq-ok,
  ok_injective, subst, ◌∙◌,
}
use fava.Sorting.{sort_by-In, sort_by_of_In, Sorted, Sorted-take, sort_by-Sorted, IsOrder}
use fava.Nostr.{Nostr}
use fava.State.Coordinate.{event_is_newer}
use fava.Query.Types.{
  Query, QueryOrdering, newest_first, oldest_first, SourceSnapshot, EventRecord, QuerySnapshot,
  evaluated, matches_nothing,
}
use fava.Query.Evaluate.{
  TagReader, goes_before, truncated, selected, coordinate_winners, matches_selection, merge_sources,
  into_records, evaluate,
}
use fava.Query.Winners.{at, NotNewer, IsWinners, coordinate_winners-IsWinners}

goes_before-IsOrder : (ordering : QueryOrdering) → IsOrder (goes_before ordering)
unfolding event_is_newer
goes_before-IsOrder newest_first = record {
  asymmetric = λ x y h. ground arith;
  transitive = λ x y z h k. ground arith;
}
goes_before-IsOrder oldest_first = record {
  asymmetric = λ x y h. ground arith;
  transitive = λ x y z h k. ground arith;
}

-- An element is taken, or so many are.
taken_or_full :
    {A : Type 0} (n : ℕ) (x : A) (xs : List A)
    → In x xs
    → In x (take n xs) ⊎ (length (take n xs) ≡ n)
taken_or_full zero x xs i = inr refl
taken_or_full (suc n) x [] i = elim i [ ]
taken_or_full (suc n) x (y ∷ xs) (inl e) = inl (inl e)
taken_or_full (suc n) x (y ∷ xs) (inr i) = elim (taken_or_full n x xs i) [
  | inl j ↦ inl (inr j)
  | inr full ↦ inr (omega arith)
]

module _ (nostr : Nostr) (reader : TagReader) (query : Query) where
  abbrev pub matching : EventRecord → Bool
  matching = matches_selection nostr reader query.selection

  -- The answer to a query over the records that its sources contribute: matching records, the
  -- newest at each coordinate and no other, in the order of the query and within its limit.
  pub record IsAnswer (records answer : List EventRecord) : Type 0 where
    pub chosen : (w : EventRecord) → In w answer → In w records × (matching w ≡ true)
    pub one_each :
        (v w : EventRecord)
        → In v answer
        → In w answer
        → at nostr reader v ≡ at nostr reader w
        → v ≡ w
    pub newest :
        (r w : EventRecord)
        → In r records
        → matching r ≡ true
        → In w answer
        → at nostr reader r ≡ at nostr reader w
        → NotNewer r w
    pub complete :
        (r : EventRecord)
        → In r records
        → matching r ≡ true
        → ((w : EventRecord) × In w answer × (at nostr reader w ≡ at nostr reader r))
          ⊎ ((n : ℕ) × (query.limit ≡ some n) × (length answer ≡ n))
    pub ordered : Sorted (goes_before query.ordering) answer
    pub within : (n : ℕ) → query.limit ≡ some n → length answer ≤ n

  In-truncated :
      (limit : Option ℕ) (w : EventRecord) (records : List EventRecord)
      → In w (truncated limit records)
      → In w records
  In-truncated none w records i = i
  In-truncated (some n) w records i = In-take n w records i

  Sorted-truncated :
      (limit : Option ℕ) (records : List EventRecord)
      → Sorted (goes_before query.ordering) records
      → Sorted (goes_before query.ordering) (truncated limit records)
  Sorted-truncated none records s = s
  Sorted-truncated (some n) records s = Sorted-take (goes_before query.ordering) n records s

  truncated_complete :
      (limit : Option ℕ) (w : EventRecord) (records : List EventRecord)
      → In w records
      → In w (truncated limit records)
        ⊎ ((n : ℕ) × (limit ≡ some n) × (length (truncated limit records) ≡ n))
  truncated_complete none w records i = inl i
  truncated_complete (some n) w records i = elim (taken_or_full n w records i) [
    | inl j ↦ inl j
    | inr full ↦ inr (n, refl, full)
  ]

  truncated-within :
      (limit : Option ℕ) (records : List EventRecord) (n : ℕ)
      → limit ≡ some n
      → length (truncated limit records) ≤ n
  truncated-within none records n e = cc
  truncated-within (some m) records n e = ground (arith, length-take m records)

  pub selected-IsAnswer :
      (records : List EventRecord) → IsAnswer records (selected nostr reader query records)
  unfolding selected
  selected-IsAnswer records = record {
    chosen = λ w i. In-keep w matching records (good.from w (won w i));
    one_each = λ v w i j. good.one_each v w (won v i) (won w j);
    newest = λ r w i m j same.
        let (x, k, at_x, beaten) = good.newest r (keep_of_In r matching records i m) in
        let is_w : x ≡ w = good.one_each x w k (won w j) (at_x ∙ same) in
        subst (NotNewer r) is_w beaten;
    complete = λ r i m.
        let (x, k, at_x, beaten) = good.newest r (keep_of_In r matching records i m) in
        elim (truncated_complete query.limit x _
          (sort_by_of_In (goes_before query.ordering) x winners k)) [
            | inl j ↦ inl (x, j, at_x)
            | inr full ↦ inr full
          ];
    ordered =
        Sorted-truncated query.limit _ (
          sort_by-Sorted (goes_before query.ordering) (goes_before-IsOrder query.ordering) winners);
    within = λ n limited. truncated-within query.limit _ n limited;
  }
    where
      winners : List EventRecord
      winners = coordinate_winners nostr reader (keep matching records)

      good : IsWinners nostr reader (keep matching records) winners
      good = coordinate_winners-IsWinners nostr reader (keep matching records)

      won : (w : EventRecord) → In w (selected nostr reader query records) → In w winners
      won w i = sort_by-In (goes_before query.ordering) w winners (In-truncated query.limit w _ i)

  -- A query that can match is answered by the matching records of its sources: the newest at each
  -- coordinate and no other, in the query's order and within its limit, which alone leaves any out.
  pub evaluate-IsAnswer :
      (sources : List SourceSnapshot) {out : QuerySnapshot}
      → matches_nothing query ≡ false
      → evaluate nostr reader query sources ≡ ok out
      → (records : List EventRecord) × (into_records (merge_sources query [] sources) ≡ ok records)
        × IsAnswer records out.events
  unfolding evaluate evaluated
  evaluate-IsAnswer sources can_match h =
      let (records, merged, e) =
        >>=-eq-ok (into_records (merge_sources query [] sources)) _
          (rw (can_match, evaluate) at h) in
      (records, merged, rw (← ok_injective e) (selected-IsAnswer records))
