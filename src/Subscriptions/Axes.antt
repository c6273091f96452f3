-- ===== src/Subscriptions/Axes.antt =====
-- crates/fava-subscriptions-standard/src/grouping.rs, `merge_on_sole_differing_axis`: what the union
-- of two filters asks for.
use fava.Base.{
  ℕ, ◌≡◌, refl, sym, ◌∙◌, ap, arith, true, false, ◌||◌, String, Option, none, some, List, [], ◌∷◌,
  length, Bool-cases, Option-cases, inl, inr,
}
use fava.BTreeMap.{nat_key, get, insert}
use fava.BTreeMap.Distinct.{Distinct, Distinct-insert}
use fava.BTreeSet.{BTreeSet, extend, contains, contains-extend}
use fava.Nostr.{Event}
use fava.Subscriptions.Filter.{
  Filter, Letter, string_key, numbers_eq, numbers_eq_iff, text_eq_iff, number_eq_iff,
}
use fava.Subscriptions.Matching.{Matcher, set_allows, matches}
use fava.Subscriptions.Union.{
  same_names, differing_tags, union_constrained, union_ids, union_authors, union_kinds, union_tag,
  merge_on_sole_differing_axis, differing,
}
use fava.Subscriptions.Tags.{differing_at, differing-at, differing_at-none, all-union_at}

set_allows-extend :
    (i k : ℕ) (s t : List ℕ)
    → set_allows (some (extend (i ∷ s) t)) k ≡ contains k (extend (i ∷ s) t)
unfolding set_allows contains
set_allows-extend i k s t = ground (arith, contains-extend i (i ∷ s) t)

union_constrained-allows :
    (a b : Option (BTreeSet ℕ)) (k : ℕ) {s : BTreeSet ℕ}
    → union_constrained a b ≡ some s
    → set_allows (some s) k ≡ (set_allows a k || set_allows b k)
unfolding union_constrained set_allows
union_constrained-allows none b k h = cc
union_constrained-allows (some []) b k h = cc
union_constrained-allows (some (i ∷ s)) none k h = cc
union_constrained-allows (some (i ∷ s)) (some []) k h = cc
union_constrained-allows (some (i ∷ s)) (some (j ∷ t)) k {s = u} h =
    let e : extend (i ∷ s) (j ∷ t) ≡ u = cc in
    rw (← e) (set_allows-extend i k s (j ∷ t) ∙ contains-extend k (i ∷ s) (j ∷ t))

no_length : (names : List Letter) → length names ≡ 0 → names ≡ []
no_length [] e = refl
no_length (n ∷ ns) e = absurd (ground arith)

one_length : (names : List Letter) → length names ≡ 1 → (n : Letter) × (names ≡ n ∷ [])
one_length [] e = absurd (ground arith)
one_length (n ∷ ns) e = (n, ap (λ xs. n ∷ xs) (no_length ns (ground arith)))

union_tag-parts :
    (l r : Filter) (name : Letter) {m : Filter}
    → union_tag l r name ≡ some m
    → (s t : BTreeSet String) × (get name l.generic_tags ≡ some s)
      × (get name r.generic_tags ≡ some t)
      × (record l { generic_tags = insert name (extend s t) l.generic_tags } ≡ m)
unfolding union_tag
union_tag-parts l r name h = elim (Option-cases (get name l.generic_tags)) [
  | inl missing ↦ absurd (ground (arith, missing))
  | inr (s, p) ↦ elim (Option-cases (get name r.generic_tags)) [
    | inl missing ↦ absurd (ground (arith, p, missing))
    | inr (t, q) ↦ (s, t, p, q, ground (arith, p, q))
  ]
]

-- The two filters agree on everything but one axis, on which their union is.
pub data Union (l r m : Filter) : Type 0 where
  of_ids :
      {s : BTreeSet ℕ}
      → union_constrained l.ids r.ids ≡ some s
      → record l { ids = some s } ≡ m
      → r ≡ record l { ids = r.ids; limit = r.limit }
      → Union l r m
  of_authors :
      {s : BTreeSet ℕ}
      → union_constrained l.authors r.authors ≡ some s
      → record l { authors = some s } ≡ m
      → r ≡ record l { authors = r.authors; limit = r.limit }
      → Union l r m
  of_kinds :
      {s : BTreeSet ℕ}
      → union_constrained l.kinds r.kinds ≡ some s
      → record l { kinds = some s } ≡ m
      → r ≡ record l { kinds = r.kinds; limit = r.limit }
      → Union l r m
  of_tag :
      (name : Letter) {s t : BTreeSet String}
      → get name l.generic_tags ≡ some s
      → get name r.generic_tags ≡ some t
      → record l { generic_tags = insert name (extend s t) l.generic_tags } ≡ m
      → differing_at l.generic_tags r.generic_tags ≡ name ∷ []
      → same_names l.generic_tags r.generic_tags ≡ true
      → r ≡ record l { generic_tags = r.generic_tags; limit = r.limit }
      → Union l r m

module _ (l r : Filter) {m : Filter} (d : Distinct r.generic_tags)
    (h : merge_on_sole_differing_axis l r ≡ some m) where
  remainder : (l.search ≡ r.search) × (l.since ≡ r.since) × (l.until ≡ r.until)
  unfolding merge_on_sole_differing_axis
  remainder = ground (
    arith,
    text_eq_iff l.search r.search,
    number_eq_iff l.since r.since,
    number_eq_iff l.until r.until,
  )

  names : same_names l.generic_tags r.generic_tags ≡ true
  unfolding merge_on_sole_differing_axis
  names = ground arith

  one : differing l r ≡ 1
  unfolding merge_on_sole_differing_axis
  one = ground arith

  same_tags :
      length (differing_tags l.generic_tags r.generic_tags) ≡ 0 → l.generic_tags ≡ r.generic_tags
  same_tags e =
      differing_at-none l.generic_tags r.generic_tags names
        (sym (differing-at l.generic_tags r.generic_tags names d) ∙ no_length _ e)

  merge-ids : numbers_eq l.ids r.ids ≡ false → Union l r m
  unfolding merge_on_sole_differing_axis union_ids
  merge-ids ids = elim (Option-cases (union_constrained l.ids r.ids)) [
    | inl missing ↦ absurd (ground (arith, missing))
    | inr (s, found) ↦
        let (search, since, until) = remainder in
        let authors : l.authors ≡ r.authors =
          ground (arith, one, numbers_eq_iff l.authors r.authors) in
        let kinds : l.kinds ≡ r.kinds = ground (arith, one, numbers_eq_iff l.kinds r.kinds) in
        let tags = same_tags (ground (arith, one)) in
        of_ids found (ground (arith, found)) (cc (search, since, until, authors, kinds, tags))
  ]

  merge-authors : l.ids ≡ r.ids → numbers_eq l.authors r.authors ≡ false → Union l r m
  unfolding merge_on_sole_differing_axis union_authors
  merge-authors ids authors = elim (Option-cases (union_constrained l.authors r.authors)) [
    | inl missing ↦ absurd (ground (arith, missing, (numbers_eq_iff l.ids r.ids).1 ids))
    | inr (s, found) ↦
        let (search, since, until) = remainder in
        let kinds : l.kinds ≡ r.kinds = ground (arith, one, numbers_eq_iff l.kinds r.kinds) in
        let tags = same_tags (ground (arith, one)) in
        of_authors found (ground (arith, found, (numbers_eq_iff l.ids r.ids).1 ids))
          (cc (search, since, until, ids, kinds, tags))
  ]

  merge-kinds :
      l.ids ≡ r.ids → l.authors ≡ r.authors → numbers_eq l.kinds r.kinds ≡ false → Union l r m
  unfolding merge_on_sole_differing_axis union_kinds
  merge-kinds ids authors kinds = elim (Option-cases (union_constrained l.kinds r.kinds)) [
    | inl missing ↦ absurd (
        ground (
          arith,
          missing,
          (numbers_eq_iff l.ids r.ids).1 ids,
          (numbers_eq_iff l.authors r.authors).1 authors,
        ))
    | inr (s, found) ↦
        let (search, since, until) = remainder in
        let tags = same_tags (ground (arith, one)) in
        of_kinds found
          (ground (
            arith,
            found,
            (numbers_eq_iff l.ids r.ids).1 ids,
            (numbers_eq_iff l.authors r.authors).1 authors,
          ))
          (cc (search, since, until, ids, authors, tags))
  ]

  merge-tag : l.ids ≡ r.ids → l.authors ≡ r.authors → l.kinds ≡ r.kinds → Union l r m
  unfolding merge_on_sole_differing_axis
  merge-tag ids authors kinds =
      let e = (numbers_eq_iff l.ids r.ids).1 ids in
      let f = (numbers_eq_iff l.authors r.authors).1 authors in
      let g = (numbers_eq_iff l.kinds r.kinds).1 kinds in
      let (name, only) =
        one_length (differing_tags l.generic_tags r.generic_tags) (ground (arith, one, e, f, g)) in
      let (search, since, until) = remainder in
      let merged : union_tag l r name ≡ some m = ground (arith, one, e, f, g, only) in
      let (s, t, p, q, result) = union_tag-parts l r name merged in
      of_tag name p q result (sym (differing-at l.generic_tags r.generic_tags names d) ∙ only) names
        (cc (search, since, until, ids, authors, kinds))

  pub merge-Union : Union l r m
  merge-Union = elim (Bool-cases (numbers_eq l.ids r.ids)) [
    | inr other ↦ merge-ids other
    | inl i ↦ elim (Bool-cases (numbers_eq l.authors r.authors)) [
      | inr other ↦ merge-authors ((numbers_eq_iff l.ids r.ids).0 i) other
      | inl a ↦ elim (Bool-cases (numbers_eq l.kinds r.kinds)) [
        | inr other ↦
            merge-kinds ((numbers_eq_iff l.ids r.ids).0 i)
              ((numbers_eq_iff l.authors r.authors).0 a) other
        | inl k ↦
            merge-tag ((numbers_eq_iff l.ids r.ids).0 i) ((numbers_eq_iff l.authors r.authors).0 a)
              ((numbers_eq_iff l.kinds r.kinds).0 k)
      ]
    ]
  ]

module _ (matcher : Matcher) (l r : Filter) {m : Filter} where
  Union-matches :
      (e : Event)
      → Distinct l.generic_tags
      → Union l r m
      → matches matcher m e ≡ (matches matcher l e || matches matcher r e)
  unfolding matches
  Union-matches e d (of_ids found result same) =
      rw (← result, same) (ground (arith, union_constrained-allows l.ids r.ids e.id found))
  Union-matches e d (of_authors found result same) =
      rw (← result, same)
        (ground (arith, union_constrained-allows l.authors r.authors e.pubkey found))
  Union-matches e d (of_kinds found result same) =
      rw (← result, same) (ground (arith, union_constrained-allows l.kinds r.kinds e.kind found))
  Union-matches e d (of_tag name {s = s} {t = t} p q result at h same) =
      rw (← result, same)
        (ground (arith, all-union_at matcher e name l.generic_tags r.generic_tags s t h d at p q))

  pub Union-Distinct : Distinct l.generic_tags → Union l r m → Distinct m.generic_tags
  Union-Distinct d (of_ids found result same) = rw (← result) d
  Union-Distinct d (of_authors found result same) = rw (← result) d
  Union-Distinct d (of_kinds found result same) = rw (← result) d
  Union-Distinct d (of_tag name p q result at h same) =
      rw (← result) (Distinct-insert name _ l.generic_tags d)

  -- The union of two filters, where the merge makes one, asks for exactly the events that one of the
  -- two asks for: for no event more, and for no event less. It holds no tag name twice.
  pub merge-exact :
      (e : Event)
      → Distinct l.generic_tags
      → Distinct r.generic_tags
      → merge_on_sole_differing_axis l r ≡ some m
      → (matches matcher m e ≡ (matches matcher l e || matches matcher r e))
        × Distinct m.generic_tags
  merge-exact e dl dr h =
      (Union-matches e dl (merge-Union l r dr h), Union-Distinct dl (merge-Union l r dr h))
