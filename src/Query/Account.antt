-- ===== src/Query/Account.antt =====
-- crates/fava-query/src/selection.rs, `bind_current_account`, and
-- crates/fava-query-standard/src/lib.rs: what a query asks of the account that it is bound to.
use fava.Base.{
  ok_injective, ◌≡◌, refl, arith, true, String, Option, none, some, List, In, inl, inr, Bool-cases,
  ok, sym, subst,
}
use fava.BTreeMap.{nat_key, string_key}
use fava.BTreeMap.Distinct.{Distinct}
use fava.BTreeSet.{BTreeSet, contains}
use fava.Nostr.{Nostr, PublicKey}
use fava.Query.Types.{
  Letter, FilterSelection, Query, SourceSnapshot, EventRecord, QuerySnapshot, value_author,
  value_tags, matches_nothing, evaluated,
}
use fava.Query.Evaluate.{TagReader, member, matches_selection, evaluate}
use fava.Query.Build.{narrow, account_set, bind_authors, bind_axes, bind_current_account}
use fava.Query.Chosen.{matching, evaluate-IsAnswer}
use fava.Query.Axes.{
  contains-narrow, Names, Carries-Names, bind_axes-Carries, CarriesAll-of_all, all_of_CarriesAll,
}

account_set-contains :
    (current : Option PublicKey) (author : PublicKey)
    → contains author (account_set (λ key. key) current) ≡ true
    → current ≡ some author
unfolding contains
account_set-contains none author h = cc
account_set-contains (some key) author h = ground (arith, h)

member_of_contains :
    (axis : Option (BTreeSet PublicKey)) (k : PublicKey)
    → ((existing : BTreeSet PublicKey) → axis ≡ some existing → contains k existing ≡ true)
    → member axis k ≡ true
member_of_contains none k h = refl
member_of_contains (some existing) k h = h existing refl

member-bind_authors :
    (current : Option PublicKey) (s : FilterSelection) (author : PublicKey)
    → member (bind_authors current s) author ≡ true
    → (member s.authors author ≡ true) × (s.authors_current_account ≡ true → current ≡ some author)
unfolding bind_authors narrow contains
member-bind_authors current s author h = elim (Bool-cases s.authors_current_account) [
  | inr literal ↦ (ground (arith, h, literal), λ depends. cc)
  | inl depends ↦
      let listed : contains author (narrow (account_set (λ key. key) current) s.authors) ≡ true =
        ground (arith, h, depends) in
      let (is, old) = contains-narrow author (account_set (λ key. key) current) s.authors listed in
      (member_of_contains s.authors author old, λ _. account_set-contains current author is)
]

module _ (nostr : Nostr) (reader : TagReader) (to_hex : PublicKey → String) (query : Query)
    (current : Option PublicKey) where
  -- A record that the query asks for, by the account where the query depends on its author, and
  -- naming it where the query depends on a tag.
  pub record IsBound (r : EventRecord) : Type 0 where
    pub asked : matching nostr reader query r ≡ true
    pub by_account :
        query.selection.authors_current_account ≡ true → current ≡ some (value_author r.event)
    pub names_account :
        (letter : Letter)
        → In letter query.selection.tag_values_current_account
        → Names nostr reader (value_tags r.event) to_hex current letter

  matching-IsBound :
      (r : EventRecord)
      → Distinct query.selection.tag_values
      → matching nostr reader (bind_current_account to_hex current query) r ≡ true
      → IsBound r
  unfolding bind_current_account matches_selection
  matching-IsBound r distinct h =
      let s = query.selection in
      let bound =
        bind_axes (account_set to_hex current) s.tag_values_current_account s.tag_values in
      let (named, own) =
        bind_axes-Carries nostr reader (value_tags r.event) (account_set to_hex current)
          s.tag_values_current_account s.tag_values
          (CarriesAll-of_all nostr reader (value_tags r.event) bound (ground (arith, h))) in
      let (listed, by) = member-bind_authors current s (value_author r.event) (ground (arith, h)) in
      record {
        asked = ground (
          arith,
          h,
          listed,
          all_of_CarriesAll nostr reader (value_tags r.event) s.tag_values distinct own,
        );
        by_account = by;
        names_account = λ letter i.
            Carries-Names nostr reader (value_tags r.event) to_hex current letter (named letter i);
      }

  -- A record in the answer to a query that was bound to the current account, and that has one axis
  -- at most for a letter, is one that the query asks for. It is by the account if the query depends
  -- on the account for the author, and names the account by a tag for each letter for which it
  -- depends on it: without a current account such a query is answered by nothing.
  pub bind-IsBound :
      (sources : List SourceSnapshot) {out : QuerySnapshot} (r : EventRecord)
      → Distinct query.selection.tag_values
      → evaluate nostr reader (bind_current_account to_hex current query) sources ≡ ok out
      → In r out.events
      → IsBound r
  unfolding evaluate evaluated
  bind-IsBound sources {out} r distinct h i =
      let bound = bind_current_account to_hex current query in
      elim (Bool-cases (matches_nothing bound)) [
        | inl nothing ↦ absurd (
            subst (λ (o : QuerySnapshot). In r o.events)
              (sym (ok_injective {A = QuerySnapshot} (rw (nothing, evaluate) at h))) i)
        | inr can_match ↦
            let (records, merged, good) =
              evaluate-IsAnswer nostr reader bound sources can_match h in
            matching-IsBound r distinct (good.chosen r i).1
      ]
