-- ===== src/Subscriptions/Tags.antt =====
-- crates/fava-subscriptions-standard/src/grouping.rs, `union_tag`: tags that differ under one name.
use fava.Base.{
  ◌≡◌, refl, arith, true, false, ◌||◌, String, none, some, List, [], ◌∷◌, ◌==◌, if◌then◌else◌,
  is_none, all, any, Bool-cases, inl, inr,
}
use fava.BTreeMap.{nat_key, get, insert, keys, insert-here, insert-there}
use fava.BTreeMap.Distinct.{Distinct}
use fava.BTreeSet.{BTreeSet, extend, set_eq, set_eq_iff, contains, contains-extend}
use fava.Nostr.{Event}
use fava.Subscriptions.Filter.{Letter, TagValues, string_key}
use fava.Subscriptions.Matching.{Matcher, tag_allows}
use fava.Subscriptions.Union.{same_names, differing_tags}

-- The names at whose places two lists of the same names differ.
abbrev pub differing_at : TagValues → TagValues → List Letter
differing_at ((n, s) ∷ l) ((m, t) ∷ r) =
    if set_eq t s then differing_at l r else n ∷ differing_at l r
differing_at _ _ = []

get-same_names :
    (m : Letter) (l r : TagValues) → same_names l r ≡ true → get m r ≡ none → get m l ≡ none
unfolding get set_eq
get-same_names m [] r h miss = refl
get-same_names m ((n, s) ∷ l) [] h miss = cc
get-same_names m ((n, s) ∷ l) ((k, t) ∷ r) h miss = ground (arith, get-same_names m l r)

differing-skip :
    (m : Letter) (t : BTreeSet String) (l r : TagValues)
    → get m l ≡ none
    → differing_tags l ((m, t) ∷ r) ≡ differing_tags l r
unfolding differing_tags get
differing-skip m t [] r miss = refl
differing-skip m t ((n, s) ∷ l) r miss = ground (arith, differing-skip m t l r)

pub differing-at :
    (l r : TagValues) → same_names l r ≡ true → Distinct r → differing_tags l r ≡ differing_at l r
unfolding differing_tags set_eq get
differing-at [] [] h d = refl
differing-at [] ((m, t) ∷ r) h d = cc
differing-at ((n, s) ∷ l) [] h d = cc
differing-at ((n, s) ∷ l) ((m, t) ∷ r) h d = ground (
  arith,
  set_eq_iff (keys l) (keys r),
  get-same_names m l r,
  differing-skip m t l r,
  differing-at l r,
)

pub differing_at-none : (l r : TagValues) → same_names l r ≡ true → differing_at l r ≡ [] → l ≡ r
unfolding set_eq
differing_at-none [] [] h e = refl
differing_at-none [] ((m, t) ∷ r) h e = cc
differing_at-none ((n, s) ∷ l) [] h e = cc
differing_at-none ((n, s) ∷ l) ((m, t) ∷ r) h e =
    ground (arith, set_eq_iff t s, differing_at-none l r)

-- The first name of those that differ is there.
pub differing_at-get :
    (name : Letter) (l r : TagValues) (names : List Letter)
    → differing_at l r ≡ name ∷ names
    → is_none (get name l) ≡ false
unfolding get
differing_at-get name [] r names e = cc
differing_at-get name ((n, s) ∷ l) [] names e = cc
differing_at-get name ((n, s) ∷ l) ((m, t) ∷ r) names e =
    ground (arith, differing_at-get name l r names)

any-union :
    (s t values : List String)
    → any (λ v. contains v (extend s t)) values
      ≡ (any (λ v. contains v s) values || any (λ v. contains v t) values)
any-union s t [] = refl
any-union s t (v ∷ values) = ground (arith, any-union s t values, contains-extend v s t)

module _ (matcher : Matcher) (e : Event) where
  tag_allows-union :
      (n : Letter) (s t : BTreeSet String)
      → tag_allows matcher e (n, extend s t)
        ≡ (tag_allows matcher e (n, s) || tag_allows matcher e (n, t))
  unfolding tag_allows
  tag_allows-union n s t = any-union s t (matcher.tag_values e n)

  pub all-union_at :
      (name : Letter) (l r : TagValues) (s t : BTreeSet String)
      → same_names l r ≡ true
      → Distinct l
      → differing_at l r ≡ name ∷ []
      → get name l ≡ some s
      → get name r ≡ some t
      → all (tag_allows matcher e) (insert name (extend s t) l)
        ≡ (all (tag_allows matcher e) l || all (tag_allows matcher e) r)
  unfolding get set_eq
  all-union_at name [] r s t h d x p q = cc
  all-union_at name ((n, a) ∷ l) [] s t h d x p q = cc
  all-union_at name ((n, a) ∷ l) ((m, b) ∷ r) s t h d x p q = elim (Bool-cases (set_eq b a)) [
    | inl same ↦
        let rest : differing_at l r ≡ name ∷ [] = rw same at x in
        let away : (n == name) ≡ false = ground (arith, d.0, differing_at-get name l r [] rest) in
        let p' : get name l ≡ some s = rw away at p in
        let names : n ≡ m = ground arith in
        let names' : same_names l r ≡ true = ground arith in
        let q' : get name r ≡ some t = ground arith in
        let equal : b ≡ a = (set_eq_iff b a).0 same in
        rw (insert-there name n (extend s t) a l away p')
          (ground (arith, names, equal, all-union_at name l r s t names' d.1 rest p' q'))
    | inr other ↦
        let first : n ∷ differing_at l r ≡ name ∷ [] = rw other at x in
        let here : n ≡ name = cc in
        let rest : differing_at l r ≡ [] = cc in
        let names : n ≡ m = ground arith in
        let equal : l ≡ r = differing_at-none l r (ground arith) rest in
        let p' : a ≡ s = ground (arith, p, here) in
        let q' : b ≡ t = ground (arith, q, here, names) in
        rw (insert-here name n (extend s t) a l (ground (arith, here)))
          (ground (arith, here, names, equal, p', q', tag_allows-union name s t))
  ]
