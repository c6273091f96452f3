-- ===== src/Tests/Queries.antt =====
-- crates/fava-query-standard: a query over two sources, and the theorems at it.
use fava.Base.{ℕ, ◌≡◌, refl, true, false, none, some, List, [], ◌∷◌, inl, inr, ok, In, subst, sym}
use fava.State.Contribution.{RelayEvent, unauthenticated, relay_occurrences_for_event}
use fava.Write.Receipt.{signed}
use fava.Query.Types.{
  Query, any_local, only_relays, explicit, live, newest_first, oldest_first, SourceSnapshot,
  SourceEvent, from_relay, event_cache, live_relay, open_source, EventRecord, QuerySnapshot,
  matches_nothing,
}
use fava.Query.Evaluate.{
  TagReader, goes_before, evaluate, merge_sources, into_records, relay_qualifies,
}
use fava.Query.Merged.{AllStable, IsStable}
use fava.Query.Chosen.{IsAnswer, evaluate-IsAnswer}
use fava.Query.Contributed.{sources-records}
use fava.Tests.Crate.{crate, event_of}

abbrev pub reader : TagReader
reader = record { single_letter_tag = λ tag. none; content = λ tag. none }

abbrev seen_at : ℕ → ℕ → ℕ → RelayEvent
seen_at id at session = record {
  event = record (event_of id 0 []) { created_at = at };
  occurrence = record { session = session; authority = unauthenticated; observed_at = 50 };
}

abbrev cached : SourceSnapshot
cached = record {
  kind = event_cache;
  revision = 3;
  status = open_source;
  events = from_relay (seen_at 4 10 1) ∷ from_relay (seen_at 5 12 2) ∷ [];
  retractions = [];
}

abbrev live_source : SourceSnapshot
live_source = record {
  kind = live_relay 1;
  revision = 1;
  status = open_source;
  events = from_relay (seen_at 6 11 1) ∷ [];
  retractions = [];
}

abbrev sources : List SourceSnapshot
sources = cached ∷ live_source ∷ []

-- Only relay 1 is asked, for one record.
abbrev pub query : Query
query = record {
  selection = record {
    ids = none;
    authors = none;
    authors_current_account = false;
    kinds = some (0 ∷ 1 ∷ []);
    tag_values = [];
    tag_values_current_account = [];
  };
  source = record { acquisition = explicit (1 ∷ []); authority = only_relays (1 ∷ []) };
  access = unauthenticated;
  freshness = live;
  ordering = newest_first;
  limit = some 1;
}

abbrev newest : EventRecord
newest = record {
  id = 6;
  event = signed (seen_at 6 11 1).event;
  relay_occurrences = record { event_id = 6; occurrences = (1, (seen_at 6 11 1).occurrence) ∷ [] };
  publication = none;
}

abbrev answer : QuerySnapshot
answer = record {
  revision = 0;
  events = newest ∷ [];
  evidence =
      record { kind = event_cache; revision = 3; status = open_source; retractions = [] }
      ∷ record { kind = live_relay 1; revision = 1; status = open_source; retractions = [] }
      ∷ [];
}

evaluated : evaluate crate reader query sources ≡ ok answer
unfolding evaluate fava.BTreeSet.contains fava.BTreeMap.insert relay_occurrences_for_event
    fava.Sorting.sort_by fava.Query.Types.evidence_of fava.State.Coordinate.coordinate_eq
    fava.State.Coordinate.event_coordinate fava.State.Coordinate.event_is_newer
    fava.State.Contribution.note_all fava.State.Contribution.note
evaluated = refl

-- At one time the record of the greatest identity is first.
tied :
    goes_before newest_first (record newest { id = 7 }) newest ≡ true
    × goes_before oldest_first newest (record newest { id = 7 }) ≡ true
tied = (refl, refl)

can_match : matches_nothing query ≡ false
unfolding matches_nothing
can_match = refl

evaluate-IsAnswer_example :
    (records : List EventRecord) × (into_records (merge_sources query [] sources) ≡ ok records)
    × IsAnswer crate reader query records (newest ∷ [])
evaluate-IsAnswer_example = evaluate-IsAnswer crate reader query sources can_match evaluated

cached-IsStable : (x : SourceEvent) → In x cached.events → IsStable x
cached-IsStable x (inl e) = subst IsStable e tt
cached-IsStable x (inr (inl e)) = subst IsStable e tt
cached-IsStable x (inr (inr i)) = elim i [ ]

live-IsStable : (x : SourceEvent) → In x live_source.events → IsStable x
live-IsStable x (inl e) = subst IsStable e tt
live-IsStable x (inr i) = elim i [ ]

stable : AllStable query sources
stable source x (inl p) i =
    cached-IsStable x (subst (λ (s : SourceSnapshot). In x s.events) (sym p) i)
stable source x (inr (inl p)) i =
    live-IsStable x (subst (λ (s : SourceSnapshot). In x s.events) (sym p) i)
stable source x (inr (inr p)) i = elim p [ ]

sources-records_example :
    (records : List EventRecord) × (into_records (merge_sources query [] sources) ≡ ok records)
    × ((source : SourceSnapshot) (x : RelayEvent)
        → In source sources
        → In (from_relay x) source.events
        → relay_qualifies query x ≡ true
        → (r : EventRecord) × In r records
          × (r.id ≡ x.event.id)
          × ((relay : List RelayEvent) × In x relay
              × (relay_occurrences_for_event x.event.id relay ≡ some r.relay_occurrences)))
sources-records_example = sources-records query sources stable
