-- ===== src/Subscriptions/Coverage.antt =====
-- crates/fava-subscriptions/src/coverage.rs: whether a filter already sent serves a later one.
use fava.Base.{
  ℕ, ◌≡◌, refl, arith, Bool, true, false, not, ◌&&◌, ◌||◌, String, Option, none, some, List, [],
  ◌∷◌, leb, if◌then◌else◌, is_none, is_some_and, all, any, Bool-cases, Option-cases, inl, inr,
}
use fava.BTreeMap.{Key, nat_key, get}
use fava.BTreeSet.{BTreeSet, contains}
use fava.Nostr.{Event, Timestamp}
use fava.Subscriptions.Filter.{
  Filter, Letter, TagValues, string_key, text_eq, text_eq_iff, filter_eq, filter_eq-true, both_true,
}
use fava.Subscriptions.Matching.{
  Matcher, tag_allows, set_allows, matches, search_allows, since_allows, until_allows,
}
use fava.Subscriptions.Union.{constrained}

module _ {K : Type 0} ⦃key : Key K⦄ where
  unfoldable pub is_subset : BTreeSet K → BTreeSet K → Bool
  is_subset narrow wide = all (λ k. contains k wide) narrow

abbrev pub covers_both : Option (BTreeSet ℕ) → Option (BTreeSet ℕ) → Bool
covers_both none _ = true
covers_both (some _) none = false
covers_both (some wide) (some narrow) = is_subset narrow wide

unfoldable pub covers_set : Option (BTreeSet ℕ) → Option (BTreeSet ℕ) → Bool
unfolding is_subset
covers_set wide narrow = covers_both (constrained wide) (constrained narrow)

abbrev pub covers_since : Option Timestamp → Option Timestamp → Bool
covers_since none _ = true
covers_since (some _) none = false
covers_since (some wide) (some narrow) = leb wide narrow

abbrev pub covers_until : Option Timestamp → Option Timestamp → Bool
covers_until none _ = true
covers_until (some _) none = false
covers_until (some wide) (some narrow) = leb narrow wide

unfoldable pub covers_tags : TagValues → TagValues → Bool
unfolding is_subset
covers_tags wide narrow =
    all (λ named. is_some_and (get named.0 narrow) (λ values. is_subset values named.1)) wide

unfoldable pub filter_covers : Filter → Filter → Bool
filter_covers wide narrow =
    if filter_eq wide narrow
    then true
    else if not (is_none wide.limit) || not (is_none narrow.limit)
    then false
    else if not (text_eq wide.search narrow.search)
    then false
    else covers_set wide.ids narrow.ids
      && covers_set wide.authors narrow.authors
      && covers_set wide.kinds narrow.kinds
      && (covers_since wide.since narrow.since && covers_until wide.until narrow.until)
      && covers_tags wide.generic_tags narrow.generic_tags

module _ {K : Type 0} ⦃key : Key K⦄ where
  contains-subset :
      (k : K) (s t : BTreeSet K) → is_subset s t ≡ true → contains k s ≡ true → contains k t ≡ true
  unfolding is_subset contains
  contains-subset k [] t h c = cc
  contains-subset k (j ∷ s) t h c = ground (arith, key.beq_iff j k, contains-subset k s t)

covers_set-allows :
    (wide narrow : Option (BTreeSet ℕ)) (k : ℕ)
    → covers_set wide narrow ≡ true
    → set_allows narrow k ≡ true
    → set_allows wide k ≡ true
unfolding covers_set set_allows
covers_set-allows none narrow k h a = refl
covers_set-allows (some []) narrow k h a = refl
covers_set-allows (some (i ∷ s)) none k h a = cc
covers_set-allows (some (i ∷ s)) (some []) k h a = cc
covers_set-allows (some (i ∷ s)) (some (j ∷ t)) k h a = contains-subset k (j ∷ t) (i ∷ s) h a

any-subset :
    (s t values : List String)
    → is_subset s t ≡ true
    → any (λ v. contains v s) values ≡ true
    → any (λ v. contains v t) values ≡ true
any-subset s t [] h a = cc
any-subset s t (v ∷ values) h a = ground (arith, contains-subset v s t h, any-subset s t values h)

covers_window-allows :
    (wide narrow : Filter) (at : Timestamp)
    → covers_since wide.since narrow.since ≡ true
    → covers_until wide.until narrow.until ≡ true
    → since_allows narrow.since at ≡ true
    → until_allows narrow.until at ≡ true
    → (since_allows wide.since at ≡ true) × (until_allows wide.until at ≡ true)
covers_window-allows wide narrow at h k a b = ground arith

-- What a filter covers where the two are not the same.
record Covers (wide narrow : Filter) : Type 0 where
  search : wide.search ≡ narrow.search
  ids : covers_set wide.ids narrow.ids ≡ true
  authors : covers_set wide.authors narrow.authors ≡ true
  kinds : covers_set wide.kinds narrow.kinds ≡ true
  since : covers_since wide.since narrow.since ≡ true
  until : covers_until wide.until narrow.until ≡ true
  tags : covers_tags wide.generic_tags narrow.generic_tags ≡ true

filter_covers-Covers :
    (wide narrow : Filter)
    → filter_covers wide narrow ≡ true
    → filter_eq wide narrow ≡ false
    → Covers wide narrow
unfolding filter_covers
filter_covers-Covers wide narrow h other = record {
  search = ground (arith, text_eq_iff wide.search narrow.search);
  ids = ground arith;
  authors = ground arith;
  kinds = ground arith;
  since = ground arith;
  until = ground arith;
  tags = ground arith;
}

module _ (matcher : Matcher) (e : Event) where
  tag_allows-get :
      (n : Letter) (tags : TagValues) {s : BTreeSet String}
      → get n tags ≡ some s
      → all (tag_allows matcher e) tags ≡ true
      → tag_allows matcher e (n, s) ≡ true
  unfolding get
  tag_allows-get n [] h a = cc
  tag_allows-get n ((m, t) ∷ tags) {s} h a = ground (arith, tag_allows-get n tags {s = s})

  tag_allows-subset :
      (n : Letter) (s t : BTreeSet String)
      → is_subset s t ≡ true
      → tag_allows matcher e (n, s) ≡ true
      → tag_allows matcher e (n, t) ≡ true
  unfolding tag_allows
  tag_allows-subset n s t h a = any-subset s t (matcher.tag_values e n) h a

  covers_tags-allows :
      (wide narrow : TagValues)
      → covers_tags wide narrow ≡ true
      → all (tag_allows matcher e) narrow ≡ true
      → all (tag_allows matcher e) wide ≡ true
  unfolding covers_tags
  covers_tags-allows [] narrow h a = refl
  covers_tags-allows ((n, t) ∷ wide) narrow h a = elim (Option-cases (get n narrow)) [
    | inl missing ↦ absurd (ground (arith, missing))
    | inr (s, found) ↦ ground (
      arith,
      found,
      tag_allows-subset n s t,
      tag_allows-get n narrow found a,
      covers_tags-allows wide narrow,
    )
  ]

  -- A filter that covers another asks for every event that the other asks for.
  pub filter_covers-matches :
      (wide narrow : Filter)
      → filter_covers wide narrow ≡ true
      → matches matcher narrow e ≡ true
      → matches matcher wide e ≡ true
  unfolding filter_covers matches
  filter_covers-matches wide narrow h a = elim (Bool-cases (filter_eq wide narrow)) [
    | inl same ↦ rw (filter_eq-true wide narrow same) a
    | inr other ↦
        let c = filter_covers-Covers wide narrow h other in
        let (a, tags) = both_true _ (all (tag_allows matcher e) narrow.generic_tags) a in
        let (a, until) = both_true _ (until_allows narrow.until e.created_at) a in
        let (a, since) = both_true _ (since_allows narrow.since e.created_at) a in
        let (a, search) = both_true _ (search_allows matcher narrow.search e) a in
        let (a, kinds) = both_true _ (set_allows narrow.kinds e.kind) a in
        let (ids, authors) = both_true _ (set_allows narrow.authors e.pubkey) a in
        let (after, before) =
          covers_window-allows wide narrow e.created_at c.since c.until since until in
        rw
          (
            covers_set-allows wide.ids narrow.ids e.id c.ids ids,
            covers_set-allows wide.authors narrow.authors e.pubkey c.authors authors,
            covers_set-allows wide.kinds narrow.kinds e.kind c.kinds kinds,
            c.search,
            search,
            after,
            before,
            covers_tags-allows wide.generic_tags narrow.generic_tags c.tags tags,
          )
          refl
  ]
