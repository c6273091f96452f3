-- ===== src/Subscriptions/Buckets.antt =====
-- crates/fava-subscriptions-standard/src/grouping.rs, `bucket_by_filter` and `group`: what the
-- candidates ask for.
use fava.Base.{
  ℕ, ◌≡◌, refl, sym, ◌∙◌, ap, arith, Bool, true, String, Option, some, List, [], ◌∷◌, ◌++◌, map,
  is_none, any, Bool-cases, Option-cases, ◌⊎◌, inl, inr, In, In-map, any_of_In, In-any, In-append,
  append_left, subst, All, All-of_In, In-All, str_eq, eq_iff,
}
use fava.BTreeMap.{BTreeMap, nat_key, get, insert, remove, get-insert, get-remove}
use fava.BTreeMap.Distinct.{Distinct}
use fava.Nostr.{Event}
use fava.Subscriptions.Filter.{Filter, string_key}
use fava.Subscriptions.Matching.{Matcher, matches}
use fava.Subscriptions.Grouping.{
  RelayDemand, Candidate, canonical_order, place, sorted, encoded_less, Buckets, bucket, bucket_all,
  take_all, merge_to_fixed_point, bucket_by_filter, group,
}
use fava.Subscriptions.Exact.{IsExact, merge_rounds-exact, fold_identical_unions-exact}

-- Two filters of the demand that have the same encoding are the same filter.
abbrev pub IsFaithful : (Filter → String) → List RelayDemand → Type 0
IsFaithful encoding demand =
    (a b : RelayDemand)
    → In a demand
    → In b demand
    → encoding a.filter ≡ encoding b.filter
    → a.filter ≡ b.filter

-- A filter does not hold a tag name twice.
abbrev pub AllDistinct : List RelayDemand → Type 0
AllDistinct = All (λ (d : RelayDemand). Distinct d.filter.generic_tags)

-- A bucket stands under the encoding of its filter, which every member has, and has a member.
record IsBucket (encoding : Filter → String) (demand : List RelayDemand) (at : String)
    (c : Candidate) : Type 0 where
  key : encoding c.0 ≡ at
  distinct : Distinct c.0.generic_tags
  uniform : (d : RelayDemand) → In d c.1 → d.filter ≡ c.0
  member : (d : RelayDemand) × In d c.1
  wanted : (d : RelayDemand) → In d c.1 → In d demand

any-same :
    (matcher : Matcher) (f : Filter) (e : Event) (ds : List RelayDemand)
    → ((d : RelayDemand) → In d ds → d.filter ≡ f)
    → ((d : RelayDemand) × In d ds)
    → matches matcher f e ≡ any (λ (d : RelayDemand). matches matcher d.filter e) ds
any-same matcher f e ds same (d, i) = elim (Bool-cases (any wanted ds)) [
  | inl some_one ↦
      let (x, j, p) = In-any wanted ds some_one in
      subst (λ g. matches matcher g e ≡ true) (same x j) p ∙ sym some_one
  | inr no_one ↦ elim (Bool-cases (matches matcher f e)) [
    | inr unwanted ↦ unwanted ∙ sym no_one
    | inl asked ↦
        let p : wanted d ≡ true = subst (λ g. matches matcher g e ≡ true) (sym (same d i)) asked in
        asked ∙ sym (any_of_In d wanted ds i p)
  ]
]
  where
    wanted : RelayDemand → Bool
    wanted d = matches matcher d.filter e

module _ (encoding : Filter → String) (wanted : List RelayDemand) where
  abbrev Good : BTreeMap String Candidate → Type 0
  Good buckets =
      (k : String) (c : Candidate) → get k buckets ≡ some c → IsBucket encoding wanted k c

  insert-Good :
      (k : String) (c : Candidate) (buckets : BTreeMap String Candidate)
      → Good buckets
      → IsBucket encoding wanted k c
      → Good (insert k c buckets)
  insert-Good k c buckets good new j x h = elim (Bool-cases (str_eq k j)) [
    | inl same ↦
        let at : k ≡ j = (eq_iff k j).0 same in
        let is_c : c ≡ x = ground (arith, get-insert k j c buckets) in
        subst (λ j. IsBucket encoding wanted j x) at (subst (IsBucket encoding wanted k) is_c new)
    | inr other ↦ good j x (ground (arith, get-insert k j c buckets))
  ]

  module _ (faithful : IsFaithful encoding wanted) where
    bucket-Good :
        (order : List String) (buckets : BTreeMap String Candidate) (item : RelayDemand)
        → Good buckets
        → In item wanted
        → Distinct item.filter.generic_tags
        → Good (bucket encoding (order, buckets) item).1
    unfolding bucket
    bucket-Good order buckets item good is_wanted d =
        elim (Option-cases (get (encoding item.filter) buckets)) [
          | inl missing ↦
              rw (missing, bucket)
                (insert-Good (encoding item.filter) (item.filter, item ∷ []) buckets good
                  (record {
                    key = refl;
                    distinct = d;
                    uniform = λ x i. elim i [
                      | inl e ↦ ap (λ (d : RelayDemand). d.filter) (sym e)
                      | inr j ↦ elim j [ ]
                    ];
                    member = (item, inl refl);
                    wanted = λ x i. elim i [
                      | inl e ↦ subst (λ y. In y wanted) e is_wanted
                      | inr j ↦ elim j [ ]
                    ];
                  }))
          | inr (found, there) ↦
              let b = good (encoding item.filter) found there in
              let (m, held) = b.member in
              let same : m.filter ≡ item.filter =
                faithful m item (b.wanted m held) is_wanted
                  (ap encoding (b.uniform m held) ∙ b.key) in
              rw (there, bucket)
                (insert-Good (encoding item.filter) (found.0, found.1 ++ item ∷ []) buckets good
                  (record {
                    key = b.key;
                    distinct = b.distinct;
                    uniform = λ x i. elim (In-append x found.1 (item ∷ []) i) [
                      | inl j ↦ b.uniform x j
                      | inr (inl e) ↦
                          ap (λ (d : RelayDemand). d.filter) (sym e) ∙ sym same ∙ b.uniform m held
                      | inr (inr j) ↦ elim j [ ]
                    ];
                    wanted = λ x i. elim (In-append x found.1 (item ∷ []) i) [
                      | inl j ↦ b.wanted x j
                      | inr (inl e) ↦ subst (λ y. In y wanted) e is_wanted
                      | inr (inr j) ↦ elim j [ ]
                    ];
                    member = (b.member.0, append_left b.member.0 found.1 (item ∷ []) b.member.1);
                  }))
        ]

    bucket_all-Good :
        (buckets : Buckets encoding) (demand : List RelayDemand)
        → Good buckets.1
        → All (λ d. In d wanted) demand
        → AllDistinct demand
        → Good (bucket_all encoding buckets demand).1
    unfolding bucket_all
    bucket_all-Good buckets [] good w d = good
    bucket_all-Good (order, buckets) (item ∷ demand) good w d =
        bucket_all-Good (bucket encoding (order, buckets) item) demand
          (bucket-Good order buckets item good w.0 d.0) w.1 d.1

was_there :
    (j k : String) (buckets : BTreeMap String Candidate) {c : Candidate}
    → get j (remove k buckets) ≡ some c
    → get j buckets ≡ some c
was_there j k buckets h = ground (arith, get-remove k j buckets)

take_all-get :
    (order : List String) (buckets : BTreeMap String Candidate) (c : Candidate)
    → In c (take_all order buckets)
    → (k : String) × (get k buckets ≡ some c)
unfolding take_all
take_all-get [] buckets c i = elim i [ ]
take_all-get (k ∷ order) buckets c i = elim (Option-cases (get k buckets)) [
  | inl missing ↦
      let (j, e) = take_all-get order (remove k buckets) c (rw (missing, take_all) at i) in
      (j, was_there j k buckets e)
  | inr (found, there) ↦ elim (rw (there, take_all) at i) [
    | inl e ↦ (k, there ∙ ap some e)
    | inr later ↦
        let (j, e) = take_all-get order (remove k buckets) c later in (j, was_there j k buckets e)
  ]
]

-- The order only moves the demand about.
place-In :
    (x item : String × RelayDemand) (items : List (String × RelayDemand))
    → In x (place item items)
    → (item ≡ x) ⊎ In x items
unfolding place
place-In x item [] i = i
place-In x item (first ∷ rest) i = elim (Bool-cases (encoded_less first item)) [
  | inr behind ↦ rw behind at i
  | inl before ↦ elim (rw before at i) [
    | inl e ↦ inr (inl e)
    | inr j ↦ elim (place-In x item rest j) [ inl e ↦ inl e | inr k ↦ inr (inr k) ]
  ]
]

sorted-In :
    (x : String × RelayDemand) (items : List (String × RelayDemand))
    → In x (sorted items)
    → In x items
unfolding sorted
sorted-In x [] i = i
sorted-In x (item ∷ items) i = elim (place-In x item (sorted items) i) [
  | inl e ↦ inl e
  | inr j ↦ inr (sorted-In x items j)
]

module _ (encoding : Filter → String) where
  pub canonical_order-In :
      (d : RelayDemand) (demand : List RelayDemand)
      → In d (canonical_order encoding demand)
      → In d demand
  unfolding canonical_order
  canonical_order-In d demand i =
      let (x, j, e) = In-map d (λ (item : String × RelayDemand). item.1) _ i in
      let (y, k, f) =
        In-map x (λ (item : RelayDemand). (encoding item.filter, item)) demand
          (sorted-In x (map (λ (item : RelayDemand). (encoding item.filter, item)) demand) j) in
      subst (λ z. In z demand) (ap (λ (z : String × RelayDemand). z.1) f ∙ e) k

  bucket_by_filter-IsExact :
      (matcher : Matcher) (demand : List RelayDemand)
      → IsFaithful encoding demand
      → AllDistinct demand
      → All (IsExact matcher) (bucket_by_filter encoding demand)
  unfolding bucket_by_filter get
  bucket_by_filter-IsExact matcher demand faithful d = All-of_In (IsExact matcher) _ (λ c i.
      let filled = bucket_all encoding ([], []) demand in
      let (k, there) = take_all-get filled.0 filled.1 c i in
      let b =
        bucket_all-Good encoding demand faithful ([], []) demand
          (λ k c e. absurd (ground (arith, e))) (All-of_In _ demand (λ a j. j)) d k c there in
      record { distinct = b.distinct; exact = λ e. any-same matcher c.0 e c.1 b.uniform b.member })

  -- Every candidate that demand is grouped into asks for exactly the events that the demand it
  -- carries asks for, where no filter holds a tag name twice, and filters of the demand that have
  -- the same encoding are the same.
  pub group-IsExact :
      (matcher : Matcher) (demand : List RelayDemand) (default_filter_limit : Option ℕ)
      → IsFaithful encoding demand
      → AllDistinct demand
      → All (IsExact matcher) (group encoding demand default_filter_limit)
  unfolding group merge_to_fixed_point
  group-IsExact matcher demand limit faithful d =
      fold_identical_unions-exact matcher [] _ tt (elim (Bool-cases (is_none limit)) [
        | inl unlimited ↦ rw unlimited (merge_rounds-exact matcher _ _ buckets)
        | inr limited ↦ rw limited buckets
      ])
    where
      buckets : All (IsExact matcher) (bucket_by_filter encoding (canonical_order encoding demand))
      buckets =
          bucket_by_filter-IsExact matcher (canonical_order encoding demand)
            (λ a b i j.
              faithful a b (canonical_order-In a demand i) (canonical_order-In b demand j))
            (All-of_In _ (canonical_order encoding demand)
              (λ x i. In-All _ demand x d (canonical_order-In x demand i)))
