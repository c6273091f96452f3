-- ===== src/Subscriptions/Matching.antt =====
-- NIP-01: which events a filter asks a relay for. The tags of an event, and the search of a relay,
-- are the `nostr` crate's and the relay's own.
use fava.Base.{ℕ, Bool, true, ◌&&◌, String, Option, none, some, List, [], ◌∷◌, leb, any, all}
use fava.BTreeMap.{nat_key}
use fava.BTreeSet.{BTreeSet, contains}
use fava.Nostr.{Event, Timestamp}
use fava.Subscriptions.Filter.{Filter, Letter, string_key}

pub record Matcher : Type 0 where
  pub tag_values : Event → Letter → List String
  pub found : String → Event → Bool

-- An absent set constrains nothing, and an empty one does not either.
unfoldable pub set_allows : Option (BTreeSet ℕ) → ℕ → Bool
set_allows none k = true
set_allows (some []) k = true
set_allows (some (j ∷ s)) k = contains k (j ∷ s)

abbrev pub since_allows : Option Timestamp → Timestamp → Bool
since_allows none at = true
since_allows (some t) at = leb t at

abbrev pub until_allows : Option Timestamp → Timestamp → Bool
until_allows none at = true
until_allows (some t) at = leb at t

module _ (matcher : Matcher) where
  abbrev pub search_allows : Option String → Event → Bool
  search_allows none e = true
  search_allows (some text) e = matcher.found text e

  -- A name asks for one of its values, and every name has to be satisfied.
  unfoldable pub tag_allows : Event → Letter × BTreeSet String → Bool
  tag_allows e named = any (λ value. contains value named.1) (matcher.tag_values e named.0)

  unfoldable pub matches : Filter → Event → Bool
  unfolding set_allows
  matches f e =
      set_allows f.ids e.id
      && set_allows f.authors e.pubkey
      && set_allows f.kinds e.kind
      && search_allows f.search e
      && since_allows f.since e.created_at
      && until_allows f.until e.created_at
      && all (tag_allows e) f.generic_tags
