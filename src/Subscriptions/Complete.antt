-- ===== src/Subscriptions/Complete.antt =====
-- crates/fava-subscriptions-standard/src/grouping.rs, `group`: no demand is lost.
use fava.Base.{
  ℕ, ◌≡◌, ◌≢◌, refl, ◌∙◌, arith, true, String, Option, none, some, List, [], ◌∷◌, ◌++◌, map,
  is_none, Bool-cases, Option-cases, ◌⊎◌, inl, inr, In, map_of_In, append_left, append_right, subst,
  str_eq, eq_iff,
}
use fava.BTreeMap.{BTreeMap, nat_key, get, remove, get-insert, get-remove}
use fava.Subscriptions.Filter.{Filter, string_key}
use fava.Subscriptions.Grouping.{
  RelayDemand, Candidate, canonical_order, Buckets, bucket, bucket_all, take_all,
  merge_to_fixed_point, bucket_by_filter, group,
}
use fava.Subscriptions.Carried.{
  Carries, In-sorted, merge_rounds-Carries, fold_identical_unions-Carries,
}

module _ (encoding : Filter → String) where
  -- The demand is in a bucket whose key is in the order.
  abbrev Held : Buckets encoding → RelayDemand → Type 0
  Held buckets d =
      (k : String) × (c : Candidate) × (get k buckets.1 ≡ some c) × In d c.1 × In k buckets.0

  abbrev Ordered : Buckets encoding → Type 0
  Ordered buckets = (k : String) → get k buckets.1 ≢ none → In k buckets.0

  bucket-Ordered :
      (buckets : Buckets encoding) (item : RelayDemand)
      → Ordered buckets
      → Ordered (bucket encoding buckets item)
  unfolding bucket
  bucket-Ordered (order, buckets) item ordered k there =
      elim (Option-cases (get (encoding item.filter) buckets)) [
        | inl missing ↦
            rw (missing, bucket)
              (elim (Bool-cases (str_eq (encoding item.filter) k)) [
                | inl same ↦ append_right k order _ (inl ((eq_iff (encoding item.filter) k).0 same))
                | inr other ↦ append_left k order _ (
                    ordered k (
                      ground (
                        arith,
                        there,
                        missing,
                        get-insert (encoding item.filter) k (item.filter, item ∷ []) buckets,
                      )))
              ])
        | inr (found, hit) ↦
            rw (hit, bucket)
              (elim (Bool-cases (str_eq (encoding item.filter) k)) [
                | inl same ↦ ordered k (ground (arith, hit, eq_iff (encoding item.filter) k))
                | inr other ↦ ordered k (
                    ground (
                      arith,
                      there,
                      hit,
                      get-insert (encoding item.filter) k (found.0, found.1 ++ item ∷ []) buckets,
                    ))
              ])
      ]

  bucket-holds_item :
      (buckets : Buckets encoding) (item : RelayDemand)
      → Ordered buckets
      → Held (bucket encoding buckets item) item
  unfolding bucket
  bucket-holds_item (order, buckets) item ordered =
      elim (Option-cases (get (encoding item.filter) buckets)) [
        | inl missing ↦
            rw (missing, bucket)
              (
                encoding item.filter,
                (item.filter, item ∷ []),
                get-insert (encoding item.filter) (encoding item.filter) (item.filter, item ∷ [])
                      buckets
                    ∙ rw self refl,
                inl refl,
                append_right _ order _ (inl refl),
              )
        | inr (found, hit) ↦
            rw (hit, bucket)
              (
                encoding item.filter,
                (found.0, found.1 ++ item ∷ []),
                get-insert (encoding item.filter) (encoding item.filter)
                      (found.0, found.1 ++ item ∷ []) buckets
                    ∙ rw self refl,
                append_right item found.1 _ (inl refl),
                ordered (encoding item.filter) (ground (arith, hit)),
              )
      ]
    where
      self : str_eq (encoding item.filter) (encoding item.filter) ≡ true
      self = (eq_iff (encoding item.filter) (encoding item.filter)).1 refl

  bucket-holds :
      (buckets : Buckets encoding) (item d : RelayDemand)
      → Held buckets d
      → Held (bucket encoding buckets item) d
  unfolding bucket
  bucket-holds (order, buckets) item d (k, c, there, i, at) =
      elim (Option-cases (get (encoding item.filter) buckets)) [
        | inl missing ↦
            rw (missing, bucket)
              (
                k,
                c,
                ground (
                  arith,
                  there,
                  missing,
                  eq_iff (encoding item.filter) k,
                  get-insert (encoding item.filter) k (item.filter, item ∷ []) buckets,
                ),
                i,
                append_left k order _ at,
              )
        | inr (found, hit) ↦
            rw (hit, bucket)
              (elim (Bool-cases (str_eq (encoding item.filter) k)) [
                | inr other ↦ (
                  k,
                  c,
                  ground (
                    arith,
                    there,
                    other,
                    get-insert (encoding item.filter) k (found.0, found.1 ++ item ∷ []) buckets,
                  ),
                  i,
                  at,
                )
                | inl same ↦
                    let is_found : c ≡ found =
                      ground (arith, there, hit, eq_iff (encoding item.filter) k) in
                    (
                      k,
                      (found.0, found.1 ++ item ∷ []),
                      get-insert (encoding item.filter) k (found.0, found.1 ++ item ∷ []) buckets
                          ∙ rw same refl,
                      append_left d found.1 _ (subst (λ (c : Candidate). In d c.1) is_found i),
                      at,
                    )
              ])
      ]

  bucket_all-holds :
      (buckets : Buckets encoding) (demand : List RelayDemand) (d : RelayDemand)
      → Ordered buckets
      → Held buckets d ⊎ In d demand
      → Held (bucket_all encoding buckets demand) d
  unfolding bucket_all
  bucket_all-holds buckets [] d ordered (inl held) = held
  bucket_all-holds buckets [] d ordered (inr i) = elim i [ ]
  bucket_all-holds buckets (item ∷ demand) d ordered i =
      bucket_all-holds (bucket encoding buckets item) demand d (bucket-Ordered buckets item ordered)
        (elim i [
          | inl held ↦ inl (bucket-holds buckets item d held)
          | inr (inl e) ↦ inl (
              subst (Held (bucket encoding buckets item)) e
                (bucket-holds_item buckets item ordered))
          | inr (inr j) ↦ inr j
        ])

take_all-takes :
    (order : List String) (buckets : BTreeMap String Candidate) (k : String) (c : Candidate)
    → get k buckets ≡ some c
    → In k order
    → In c (take_all order buckets)
unfolding take_all
take_all-takes [] buckets k c there i = elim i [ ]
take_all-takes (j ∷ order) buckets k c there i = elim (Bool-cases (str_eq j k)) [
  | inl same ↦ rw ((eq_iff j k).0 same, there, take_all) (inl refl)
  | inr other ↦
      let later : In k order = elim i [
        | inl e ↦ absurd (ground (arith, other, eq_iff j k))
        | inr l ↦ l
      ] in
      let there' : get k (remove j buckets) ≡ some c =
        ground (arith, other, there, get-remove j k buckets) in
      let found = take_all-takes order (remove j buckets) k c there' later in
      elim (Option-cases (get j buckets)) [
        | inl missing ↦ rw (missing, take_all) found
        | inr (b, hit) ↦ rw (hit, take_all) (inr found)
      ]
]

module _ (encoding : Filter → String) where
  canonical_order_of_In :
      (d : RelayDemand) (demand : List RelayDemand)
      → In d demand
      → In d (canonical_order encoding demand)
  unfolding canonical_order
  canonical_order_of_In d demand i =
      map_of_In (encoding d.filter, d) (λ (item : String × RelayDemand). item.1) _
        (In-sorted _ (map (λ (item : RelayDemand). (encoding item.filter, item)) demand)
          (map_of_In d (λ (item : RelayDemand). (encoding item.filter, item)) demand i))

  bucket_by_filter-Carries :
      (demand : List RelayDemand) (d : RelayDemand)
      → In d demand
      → Carries (bucket_by_filter encoding demand) d
  unfolding bucket_by_filter get
  bucket_by_filter-Carries demand d i =
      let filled = bucket_all encoding ([], []) demand in
      let (k, c, there, j, at) =
        bucket_all-holds encoding ([], []) demand d (λ k there. absurd (there refl)) (inr i) in
      (c, take_all-takes filled.0 filled.1 k c there at, j)

  -- Every demand is carried by one of the candidates that the demand is grouped into.
  pub group-Carries :
      (demand : List RelayDemand) (default_filter_limit : Option ℕ) (d : RelayDemand)
      → In d demand
      → Carries (group encoding demand default_filter_limit) d
  unfolding group merge_to_fixed_point
  group-Carries demand limit d i = fold_identical_unions-Carries d [] _ (
      inr (elim (Bool-cases (is_none limit)) [
        | inl unlimited ↦ rw unlimited (merge_rounds-Carries d _ _ buckets)
        | inr limited ↦ rw limited buckets
      ]))
    where
      buckets : Carries (bucket_by_filter encoding (canonical_order encoding demand)) d
      buckets =
          bucket_by_filter-Carries (canonical_order encoding demand) d
            (canonical_order_of_In d demand i)
