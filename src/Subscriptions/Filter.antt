-- ===== src/Subscriptions/Filter.antt =====
-- The filter of the `nostr` crate by its fields, and what the program compares of it.
use fava.Base.{
  ℕ, ◌≡◌, ◌↔◌, refl, arith, Bool, true, false, ◌&&◌, String, Option, none, some, [], ◌∷◌, ◌==◌,
  str_eq, eq_iff,
}
pub use fava.BTreeMap.{string_key}
use fava.BTreeMap.{BTreeMap, nat_key}
use fava.BTreeSet.{BTreeSet, set_eq, set_eq_iff}
use fava.Nostr.{EventId, PublicKey, Kind, Timestamp}

-- A `SingleLetterTag` by its place in their order.
abbrev pub Letter : Type 0
Letter = ℕ

abbrev pub TagValues : Type 0
TagValues = BTreeMap Letter (BTreeSet String)

pub record Filter : Type 0 where
  pub ids : Option (BTreeSet EventId)
  pub authors : Option (BTreeSet PublicKey)
  pub kinds : Option (BTreeSet Kind)
  pub search : Option String
  pub since : Option Timestamp
  pub until : Option Timestamp
  pub limit : Option ℕ
  pub generic_tags : TagValues

-- `PartialEq` as derived, field by field.
abbrev pub numbers_eq : Option (BTreeSet ℕ) → Option (BTreeSet ℕ) → Bool
numbers_eq none none = true
numbers_eq (some s) (some t) = set_eq s t
numbers_eq _ _ = false

abbrev pub number_eq : Option ℕ → Option ℕ → Bool
number_eq none none = true
number_eq (some a) (some b) = a == b
number_eq _ _ = false

abbrev pub text_eq : Option String → Option String → Bool
text_eq none none = true
text_eq (some a) (some b) = str_eq a b
text_eq _ _ = false

unfoldable pub tags_eq : TagValues → TagValues → Bool
tags_eq [] [] = true
tags_eq ((n, s) ∷ l) ((m, t) ∷ r) = n == m && set_eq s t && tags_eq l r
tags_eq _ _ = false

unfoldable pub filter_eq : Filter → Filter → Bool
unfolding tags_eq
filter_eq a b =
    numbers_eq a.ids b.ids
    && numbers_eq a.authors b.authors
    && numbers_eq a.kinds b.kinds
    && text_eq a.search b.search
    && number_eq a.since b.since
    && number_eq a.until b.until
    && number_eq a.limit b.limit
    && tags_eq a.generic_tags b.generic_tags

pub numbers_eq_iff : (s t : Option (BTreeSet ℕ)) → (numbers_eq s t ≡ true) ↔ (s ≡ t)
numbers_eq_iff none none = ground arith
numbers_eq_iff none (some t) = ground arith
numbers_eq_iff (some s) none = ground arith
numbers_eq_iff (some s) (some t) = ground (arith, set_eq_iff s t)

pub number_eq_iff : (s t : Option ℕ) → (number_eq s t ≡ true) ↔ (s ≡ t)
number_eq_iff s t = ground arith

pub text_eq_iff : (s t : Option String) → (text_eq s t ≡ true) ↔ (s ≡ t)
text_eq_iff none none = ground arith
text_eq_iff none (some t) = ground arith
text_eq_iff (some s) none = ground arith
text_eq_iff (some s) (some t) = ground (arith, eq_iff s t)

pub tags_eq_iff : (l r : TagValues) → (tags_eq l r ≡ true) ↔ (l ≡ r)
unfolding tags_eq
tags_eq_iff [] [] = ground arith
tags_eq_iff [] ((m, t) ∷ r) = ground arith
tags_eq_iff ((n, s) ∷ l) [] = ground arith
tags_eq_iff ((n, s) ∷ l) ((m, t) ∷ r) = ground (arith, set_eq_iff s t, tags_eq_iff l r)

pub both_true : (p q : Bool) → (p && q) ≡ true → (p ≡ true) × (q ≡ true)
both_true p q h = ground arith

pub filter_eq-true : (a b : Filter) → filter_eq a b ≡ true → a ≡ b
unfolding filter_eq
filter_eq-true a b h =
    let (h, tags) = both_true _ (tags_eq a.generic_tags b.generic_tags) h in
    let (h, limit) = both_true _ (number_eq a.limit b.limit) h in
    let (h, until) = both_true _ (number_eq a.until b.until) h in
    let (h, since) = both_true _ (number_eq a.since b.since) h in
    let (h, search) = both_true _ (text_eq a.search b.search) h in
    let (h, kinds) = both_true _ (numbers_eq a.kinds b.kinds) h in
    let (ids, authors) = both_true _ (numbers_eq a.authors b.authors) h in
    cc (
      (numbers_eq_iff a.ids b.ids).0 ids,
      (numbers_eq_iff a.authors b.authors).0 authors,
      (numbers_eq_iff a.kinds b.kinds).0 kinds,
      (text_eq_iff a.search b.search).0 search,
      (number_eq_iff a.since b.since).0 since,
      (number_eq_iff a.until b.until).0 until,
      (number_eq_iff a.limit b.limit).0 limit,
      (tags_eq_iff a.generic_tags b.generic_tags).0 tags,
    )

pub tags_eq_refl : (t : TagValues) → tags_eq t t ≡ true
tags_eq_refl t = (tags_eq_iff t t).1 refl

pub filter_eq_refl : (a : Filter) → filter_eq a a ≡ true
unfolding filter_eq
filter_eq_refl a =
    rw
      (
        (numbers_eq_iff a.ids a.ids).1 refl,
        (numbers_eq_iff a.authors a.authors).1 refl,
        (numbers_eq_iff a.kinds a.kinds).1 refl,
        (text_eq_iff a.search a.search).1 refl,
        (number_eq_iff a.since a.since).1 refl,
        (number_eq_iff a.until a.until).1 refl,
        (number_eq_iff a.limit a.limit).1 refl,
        tags_eq_refl a.generic_tags,
      )
      refl
