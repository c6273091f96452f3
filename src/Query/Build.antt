-- ===== src/Query/Build.antt =====
-- crates/fava-query/src/selection.rs and lib.rs: how a query is built, and bound to an account.
use fava.Base.{
  is_empty, ℕ, true, false, String, Option, none, some, List, [], ◌∷◌, ◌==◌, keep, if◌then◌else◌,
  Result, ok, err, ◌>>=◌,
}
use fava.BTreeMap.{BTreeMap, nat_key, string_key, get}
use fava.BTreeSet.{BTreeSet, contains, extend}
use fava.Nostr.{EventId, PublicKey, Kind, RelayUrl}
use fava.State.Contribution.{unauthenticated}
use fava.Query.Types.{
  Letter, automatic, explicit, any_local, only_relays, live, newest_first, FilterSelection, Query,
}

pub data QueryError : Type 0 where
  empty_explicit_relays zero_limit : QueryError

-- `Query::default`.
abbrev pub events : Query
events = record {
  selection = record {
    ids = none;
    authors = none;
    authors_current_account = false;
    kinds = none;
    tag_values = [];
    tag_values_current_account = [];
  };
  source = record { acquisition = automatic; authority = any_local };
  access = unauthenticated;
  freshness = live;
  ordering = newest_first;
  limit = none;
}

abbrev pub select : (FilterSelection → FilterSelection) → Query → Query
select change query = record query { selection = change query.selection }

-- The builders of the selection, each named for its axis.
abbrev pub authors : List PublicKey → Query → Query
authors values = select (λ s. record s { authors = some (extend [] values) })

abbrev pub authors_current_account : Query → Query
authors_current_account = select (λ s. record s { authors_current_account = true })

abbrev pub kinds : List Kind → Query → Query
kinds values = select (λ s. record s { kinds = some (extend [] values) })

abbrev pub ids : List EventId → Query → Query
ids values = select (λ s. record s { ids = some (extend [] values) })

abbrev pub or_empty : Option (BTreeSet String) → BTreeSet String
or_empty none = []
or_empty (some s) = s

abbrev pub tag_values : Letter → List String → Query → Query
tag_values key values = select (λ s. record s {
  tag_values =
      fava.BTreeMap.insert key (extend (or_empty (get key s.tag_values)) values) s.tag_values;
})

abbrev pub tag_value_current_account : Letter → Query → Query
tag_value_current_account key = select (λ s. record s {
  tag_values_current_account = fava.BTreeSet.insert key s.tag_values_current_account;
})

-- `existing.retain(|value| supplied.contains(value))`, or the supplied values alone.
unfoldable pub narrow :
    {K : Type 0} ⦃key : fava.BTreeMap.Key K⦄ → BTreeSet K → Option (BTreeSet K) → BTreeSet K
narrow supplied none = supplied
narrow supplied (some existing) = keep (λ value. contains value supplied) existing

unfoldable pub intersect_axis :
    Letter → BTreeSet String → BTreeMap Letter (BTreeSet String) → BTreeMap Letter (BTreeSet String)
unfolding narrow
intersect_axis key supplied axes = fava.BTreeMap.insert key (narrow supplied (get key axes)) axes

unfoldable pub intersect_tag_values : Letter → List String → Query → Query
unfolding intersect_axis
intersect_tag_values key values =
    select (λ s. record s { tag_values = intersect_axis key (extend [] values) s.tag_values })

-- `current.into_iter().collect()`.
abbrev pub account_set : {K : Type 0} → (PublicKey → K) → Option PublicKey → BTreeSet K
account_set f none = []
account_set f (some key) = f key ∷ []

unfoldable pub bind_authors : Option PublicKey → FilterSelection → Option (BTreeSet PublicKey)
unfolding narrow
bind_authors current s =
    if s.authors_current_account
    then some (narrow (account_set (λ key. key) current) s.authors)
    else s.authors

-- The loop over the axes that depend on the account.
unfoldable pub bind_axes :
    BTreeSet String
    → List Letter
    → BTreeMap Letter (BTreeSet String)
    → BTreeMap Letter (BTreeSet String)
unfolding intersect_axis
bind_axes supplied [] axes = axes
bind_axes supplied (key ∷ keys) axes = bind_axes supplied keys (intersect_axis key supplied axes)

-- `to_hex` is the `nostr` crate's.
unfoldable pub bind_current_account : (PublicKey → String) → Option PublicKey → Query → Query
unfolding bind_authors bind_axes
bind_current_account to_hex current = select (λ s. record s {
  authors = bind_authors current s;
  authors_current_account = false;
  tag_values = bind_axes (account_set to_hex current) s.tag_values_current_account s.tag_values;
  tag_values_current_account = [];
})

unfoldable pub non_empty_relays : List RelayUrl → Result QueryError (BTreeSet RelayUrl)
non_empty_relays relays =
    let set = extend [] relays in if is_empty set then err empty_explicit_relays else ok set

unfoldable pub from_relays : List RelayUrl → Query → Result QueryError Query
unfolding non_empty_relays
from_relays relays query = do
  set ← non_empty_relays relays
  ok (record query { source = record { acquisition = explicit set; authority = any_local } })

unfoldable pub only_from_relays : List RelayUrl → Query → Result QueryError Query
unfolding non_empty_relays
only_from_relays relays query = do
  set ← non_empty_relays relays
  ok (record query { source = record { acquisition = explicit set; authority = only_relays set } })

unfoldable pub limit : ℕ → Query → Result QueryError Query
limit n query = if n == 0 then err zero_limit else ok (record query { limit = some n })
