-- ===== src/Tests/Accounts.antt =====
-- crates/fava-query: queries that are built and bound to an account, and the theorem at one.
use fava.Base.{
  ℕ, String, ◌≡◌, refl, true, false, none, some, List, [], ◌∷◌, inl, ok, err, ◌==◌, if◌then◌else◌,
}
use fava.Nostr.{PublicKey, first_is, second}
use fava.State.Contribution.{RelayEvent, unauthenticated, relay_occurrences_for_event}
use fava.Write.Receipt.{signed}
use fava.Query.Types.{
  Query, SourceSnapshot, from_relay, event_cache, open_source, EventRecord, QuerySnapshot,
  matches_nothing,
}
use fava.Query.Evaluate.{TagReader, evaluate}
use fava.Query.Build.{
  events, authors_current_account, tag_values, tag_value_current_account, intersect_tag_values,
  bind_current_account, limit, from_relays, zero_limit, empty_explicit_relays,
}
use fava.Query.Account.{IsBound, bind-IsBound}
use fava.Tests.Crate.{crate, event_of}

abbrev hex : PublicKey → String
hex key = if key == 7 then "seven" else "other"

abbrev letter_p : ℕ
letter_p = 15

abbrev reader : TagReader
reader = record {
  single_letter_tag = λ tag. if first_is "p" tag then some letter_p else none;
  content = second;
}

-- By the account, and naming it.
abbrev query : Query
query = tag_value_current_account letter_p (authors_current_account events)

abbrev mention : ℕ → String → RelayEvent
mention id name = record {
  event = event_of id 1 (("p" ∷ name ∷ []) ∷ []);
  occurrence = record { session = 1; authority = unauthenticated; observed_at = 50 };
}

abbrev cached : SourceSnapshot
cached = record {
  kind = event_cache;
  revision = 3;
  status = open_source;
  events = from_relay (mention 4 "seven") ∷ from_relay (mention 5 "other") ∷ [];
  retractions = [];
}

abbrev mentioned : EventRecord
mentioned = record {
  id = 4;
  event = signed (mention 4 "seven").event;
  relay_occurrences = record {
    event_id = 4;
    occurrences = (1, (mention 4 "seven").occurrence) ∷ [];
  };
  publication = none;
}

abbrev answer : QuerySnapshot
answer = record {
  revision = 0;
  events = mentioned ∷ [];
  evidence =
      record { kind = event_cache; revision = 3; status = open_source; retractions = [] } ∷ [];
}

bound_to_7 :
    evaluate crate reader (bind_current_account hex (some 7) query) (cached ∷ []) ≡ ok answer
unfolding evaluate bind_current_account fava.BTreeSet.insert fava.BTreeMap.insert
    relay_occurrences_for_event fava.Sorting.sort_by fava.Query.Types.evidence_of
    fava.State.Contribution.note_all fava.State.Contribution.note
bound_to_7 = refl

bound_to_none : matches_nothing (bind_current_account hex none query) ≡ true
unfolding matches_nothing bind_current_account
bound_to_none = refl

-- Values are united, or narrowed to those in both.
united :
    (tag_values letter_p
      ("c" ∷ [])
      (tag_values letter_p ("b" ∷ "a" ∷ []) events)).selection.tag_values
    ≡ (letter_p, "a" ∷ "b" ∷ "c" ∷ []) ∷ []
unfolding fava.BTreeMap.insert fava.BTreeSet.extend fava.BTreeSet.insert
united = refl

narrowed :
    (intersect_tag_values letter_p
      ("b" ∷ "d" ∷ [])
      (tag_values letter_p ("b" ∷ "a" ∷ []) events)).selection.tag_values
    ≡ (letter_p, "b" ∷ []) ∷ []
unfolding intersect_tag_values fava.BTreeMap.insert fava.BTreeSet.extend fava.BTreeSet.insert
narrowed = refl

refused :
    ◌≡◌ {A = fava.Base.Result fava.Query.Build.QueryError Query} (limit 0 events) (err zero_limit)
    × ◌≡◌ {A = fava.Base.Result fava.Query.Build.QueryError Query}
        (from_relays [] events)
        (err empty_explicit_relays)
unfolding limit from_relays fava.BTreeSet.extend
refused = (refl, refl)

bind-IsBound_example : IsBound crate reader hex query (some 7) mentioned
bind-IsBound_example =
    bind-IsBound crate reader hex query (some 7) (cached ∷ []) {out = answer} mentioned tt
      bound_to_7 (inl refl)
