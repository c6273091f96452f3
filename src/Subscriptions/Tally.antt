-- ===== src/Subscriptions/Tally.antt =====
-- crates/fava-subscriptions-standard/src/grouping.rs, `group`: what a measure of members that a
-- union does not raise adds up to.
use fava.Base.{
  ℕ, ◌+◌, ◌≤◌, ◌≡◌, refl, arith, String, Option, some, List, [], ◌∷◌, ◌++◌, map, is_none,
  Bool-cases, Option-cases, inl, inr, zero, suc,
}
use fava.BTreeMap.{BTreeMap, nat_key, get, remove}
use fava.BTreeMap.Weight.{
  weight, weight-insert_new, weight-insert_old, weight-remove, weight-remove-le,
}
use fava.Subscriptions.Filter.{Filter, string_key}
use fava.Subscriptions.Rounds.{absorb-cases, merge_first_pair-cases, no_pair}
use fava.Subscriptions.Grouping.{
  RelayDemand, Candidate, QueryBounds, absorb, merge_first_pair, merge_rounds, merge_to_fixed_point,
  fold_in, fold_identical_unions, place, sorted, canonical_order, Buckets, bucket, bucket_all,
  take_all, bucket_by_filter, group,
}

abbrev pub Measure : Type 0
Measure = List RelayDemand → ℕ

abbrev pub IsSubadditive : Measure → Type 0
IsSubadditive m = (xs ys : List RelayDemand) → m (xs ++ ys) ≤ m xs + m ys

module _ (m : Measure) where
  unfoldable pub tally : List Candidate → ℕ
  tally [] = 0
  tally (c ∷ cs) = m c.1 + tally cs

  unfoldable pub singles : List RelayDemand → ℕ
  singles [] = 0
  singles (d ∷ ds) = m (d ∷ []) + singles ds

  abbrev tally_map : BTreeMap String Candidate → ℕ
  tally_map = weight (λ (c : Candidate). m c.1)

  singles-place :
      (item : String × RelayDemand) (items : List (String × RelayDemand))
      → singles (map (λ (x : String × RelayDemand). x.1) (place item items))
        ≡ m (item.1 ∷ []) + singles (map (λ (x : String × RelayDemand). x.1) items)
  unfolding place singles
  singles-place item [] = refl
  singles-place item (first ∷ rest) = ground (arith, singles-place item rest)

  singles-sorted :
      (encoding : Filter → String) (demand : List RelayDemand)
      → singles (canonical_order encoding demand) ≡ singles demand
  unfolding canonical_order sorted singles
  singles-sorted encoding [] = refl
  singles-sorted encoding (d ∷ demand) = omega (
    arith,
    singles-place (encoding d.filter, d)
        (sorted (map (λ (item : RelayDemand). (encoding item.filter, item)) demand)),
    singles-sorted encoding demand,
  )

  tally-take_all :
      (order : List String) (b : BTreeMap String Candidate) → tally (take_all order b) ≤ tally_map b
  unfolding take_all tally
  tally-take_all [] b = omega arith
  tally-take_all (k ∷ order) b = elim (Option-cases (get k b)) [
    | inl missing ↦
        rw (missing, take_all)
          (omega (
            arith,
            tally-take_all order (remove k b),
            weight-remove-le (λ (c : Candidate). m c.1) k b,
          ))
    | inr (c, hit) ↦
        rw (hit, take_all)
          (omega (
            arith,
            tally-take_all order (remove k b),
            weight-remove (λ (c : Candidate). m c.1) k c b hit,
          ))
  ]

  tally-fold_in :
      (sub : IsSubadditive m) (c : Candidate) (folded : List Candidate)
      → tally (fold_in c folded) ≤ m c.1 + tally folded
  unfolding fold_in tally
  tally-fold_in sub c [] = omega arith
  tally-fold_in sub c (seen ∷ folded) = ground (arith, tally-fold_in sub c folded, sub seen.1 c.1)

  tally-fold :
      (sub : IsSubadditive m) (folded cs : List Candidate)
      → tally (fold_identical_unions folded cs) ≤ tally folded + tally cs
  unfolding fold_identical_unions tally
  tally-fold sub folded [] = omega arith
  tally-fold sub folded (c ∷ cs) =
      omega (arith, tally-fold sub (fold_in c folded) cs, tally-fold_in sub c folded)

  tally-bucket :
      (sub : IsSubadditive m) (encoding : Filter → String) (buckets : Buckets encoding)
      (item : RelayDemand)
      → tally_map (bucket encoding buckets item).1 ≤ m (item ∷ []) + tally_map buckets.1
  unfolding bucket
  tally-bucket sub encoding (order, b) item = elim (Option-cases (get (encoding item.filter) b)) [
    | inl missing ↦
        rw (missing, bucket)
          (omega (
            arith,
            weight-insert_new (λ (c : Candidate). m c.1) (encoding item.filter)
                (item.filter, item ∷ []) b missing,
          ))
    | inr (found, hit) ↦
        rw (hit, bucket)
          (omega (
            arith,
            sub found.1 (item ∷ []),
            weight-insert_old (λ (c : Candidate). m c.1) (encoding item.filter)
                (found.0, found.1 ++ item ∷ []) found b hit,
          ))
  ]

  tally-bucket_all :
      (sub : IsSubadditive m) (encoding : Filter → String) (buckets : Buckets encoding)
      (demand : List RelayDemand)
      → tally_map (bucket_all encoding buckets demand).1 ≤ singles demand + tally_map buckets.1
  unfolding bucket_all singles
  tally-bucket_all sub encoding buckets [] = omega arith
  tally-bucket_all sub encoding buckets (item ∷ demand) = omega (
    arith,
    tally-bucket_all sub encoding (bucket encoding buckets item) demand,
    tally-bucket sub encoding buckets item,
  )

  tally-absorb :
      (bounds : QueryBounds) (left : Filter) (rest : List Candidate)
      {parts : Filter × List RelayDemand × List Candidate}
      → absorb bounds left rest ≡ some parts
      → m parts.1 + tally parts.2 ≡ tally rest
  unfolding absorb tally
  tally-absorb bounds left [] h = cc
  tally-absorb bounds left (right ∷ rest) h = elim (absorb-cases bounds left right rest h) [
    | inl (later, found, e) ↦ rw (← e) (omega (arith, tally-absorb bounds left rest found))
    | inr (merged, made, e) ↦ rw (← e) refl
  ]

  tally-merge_first_pair :
      (sub : IsSubadditive m) (cs : List Candidate) {out : List Candidate}
      → merge_first_pair cs ≡ some out
      → tally out ≤ tally cs
  unfolding tally
  tally-merge_first_pair sub [] h = absurd (ground (arith, no_pair))
  tally-merge_first_pair sub (left ∷ rest) h = elim (merge_first_pair-cases left rest h) [
    | inl (later, found, e) ↦ rw (← e) (omega (arith, tally-merge_first_pair sub rest found))
    | inr (bounds, parts, found, e) ↦
        rw (← e) (omega (arith, tally-absorb bounds left.0 rest found, sub left.1 parts.1))
  ]

  tally-merge_rounds :
      (sub : IsSubadditive m) (fuel : ℕ) (cs : List Candidate)
      → tally (merge_rounds fuel cs) ≤ tally cs
  unfolding merge_rounds
  tally-merge_rounds sub zero cs = omega arith
  tally-merge_rounds sub (suc fuel) cs = elim (Option-cases (merge_first_pair cs)) [
    | inl stuck ↦ rw (stuck, merge_rounds) (omega arith)
    | inr (out, merged) ↦
        rw (merged, merge_rounds)
          (omega (arith, tally-merge_rounds sub fuel out, tally-merge_first_pair sub cs merged))
  ]

  pub tally-group :
      (sub : IsSubadditive m) (encoding : Filter → String) (demand : List RelayDemand)
      (default_filter_limit : Option ℕ)
      → tally (group encoding demand default_filter_limit) ≤ singles demand
  unfolding group bucket_by_filter merge_to_fixed_point tally weight
  tally-group sub encoding demand limit = elim (Bool-cases (is_none limit)) [
    | inl unlimited ↦ rw unlimited (
        omega (
          arith,
          tally-fold sub [] _,
          tally-merge_rounds sub _ (bucket_by_filter encoding (canonical_order encoding demand)),
          taken,
        ))
    | inr limited ↦ rw limited (omega (arith, tally-fold sub [] _, taken))
  ]
    where
      filled : Buckets encoding
      filled = bucket_all encoding ([], []) (canonical_order encoding demand)

      taken : tally (bucket_by_filter encoding (canonical_order encoding demand)) ≤ singles demand
      taken = omega (
        arith,
        tally-take_all filled.0 filled.1,
        tally-bucket_all sub encoding ([], []) (canonical_order encoding demand),
        singles-sorted encoding demand,
      )
