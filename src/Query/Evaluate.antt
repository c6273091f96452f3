-- ===== src/Query/Evaluate.antt =====
-- crates/fava-query-standard/src/lib.rs: `StandardQueryEvaluator::evaluate`. The letter and the
-- content of a tag are the `nostr` crate's.
use fava.Base.{
  ℕ, ltb, ◌||◌, Bool, true, false, not, ◌&&◌, String, Option, none, some, List, [], ◌∷◌, ◌++◌, ◌==◌,
  any, all, keep, take, if◌then◌else◌, is_some_and, Result, ok, err, ◌>>=◌,
}
use fava.BTreeMap.{BTreeMap, nat_key, string_key, get, insert, values}
use fava.BTreeSet.{BTreeSet, contains}
use fava.Sorting.{sort_by}
use fava.Nostr.{Nostr, EventId, Tag}
use fava.State.Contribution.{RelayEvent, relay_occurrences_for_event}
use fava.State.Coordinate.{EventCoordinate, coordinate_key, event_coordinate, event_is_newer}
use fava.EventCache.Memory.{authority_eq}
use fava.Write.Receipt.{EventValue, unsigned, signed, LocalWriteEvent, PublicationEvidence}
use fava.Query.Types.{
  Letter, Query, FilterSelection, ResultAuthority, any_local, only_relays, QueryOrdering,
  newest_first, oldest_first, SourceEvent, from_relay, from_local, SourceSnapshot, EventRecord,
  QuerySnapshot, QueryEvaluationError, relay_occurrence_event_mismatch, value_author, value_kind,
  value_created_at, value_tags, new_record, evaluated, matches_nothing,
}

pub record Candidate : Type 0 where
  pub event : EventValue
  pub relay : List RelayEvent
  pub publication : Option PublicationEvidence

abbrev pub Candidates : Type 0
Candidates = BTreeMap EventId Candidate

abbrev pub candidate_or : Candidate → Option Candidate → Candidate
candidate_or fresh none = fresh
candidate_or fresh (some candidate) = candidate

-- The contribution that said otherwise first, as the error names it.
abbrev other_event : EventId → List RelayEvent → EventId
other_event id [] = id
other_event id (c ∷ relay) = if not (c.event.id == id) then c.event.id else other_event id relay

unfoldable pub into_record : EventId → Candidate → Result QueryEvaluationError EventRecord
unfolding new_record
into_record id candidate = elim (relay_occurrences_for_event id candidate.relay) [
  | none ↦ err (relay_occurrence_event_mismatch id (other_event id candidate.relay))
  | some occurrences ↦ new_record candidate.event occurrences candidate.publication
]

unfoldable pub relay_qualifies : Query → RelayEvent → Bool
relay_qualifies query relay_event =
    authority_eq relay_event.occurrence.authority query.access && elim query.source.authority [
      | any_local ↦ true
      | only_relays relays ↦ contains relay_event.occurrence.session relays
    ]

-- A signed event takes the place of an unsigned one.
abbrev pub signed_over : EventValue → EventValue → EventValue
signed_over new (unsigned _) = new
signed_over new (signed e) = signed e

abbrev pub signed_first : EventValue → EventValue → EventValue
signed_first (signed e) old = signed e
signed_first (unsigned _) old = old

abbrev pub or_insert : PublicationEvidence → Option PublicationEvidence → Option PublicationEvidence
or_insert new none = some new
or_insert new (some old) = some old

unfoldable pub join_relay : RelayEvent → Candidate → Candidate
join_relay relay_event candidate = record {
  event = signed_over (signed relay_event.event) candidate.event;
  relay = candidate.relay ++ relay_event ∷ [];
  publication = candidate.publication;
}

unfoldable pub join_local : LocalWriteEvent → Candidate → Candidate
join_local write candidate = record {
  event = signed_first write.event candidate.event;
  relay = candidate.relay;
  publication = or_insert write.publication candidate.publication;
}

abbrev pub fresh : EventValue → Candidate
fresh event = record { event = event; relay = []; publication = none }

abbrev pub is_any_local : ResultAuthority → Bool
is_any_local any_local = true
is_any_local (only_relays _) = false

unfoldable pub merge_qualifying_contribution : Query → Candidates → SourceEvent → Candidates
unfolding relay_qualifies join_relay join_local
merge_qualifying_contribution query records (from_relay r) =
    if relay_qualifies query r
    then insert r.event.id
        (join_relay r (candidate_or (fresh (signed r.event)) (get r.event.id records))) records
    else records
merge_qualifying_contribution query records (from_local l) =
    if is_any_local query.source.authority
    then insert l.id (join_local l (candidate_or (fresh l.event) (get l.id records))) records
    else records

unfoldable pub merge_all : Query → Candidates → List SourceEvent → Candidates
unfolding merge_qualifying_contribution
merge_all query records [] = records
merge_all query records (contribution ∷ contributions) =
    merge_all query (merge_qualifying_contribution query records contribution) contributions

unfoldable pub merge_sources : Query → Candidates → List SourceSnapshot → Candidates
unfolding merge_all
merge_sources query records [] = records
merge_sources query records (source ∷ sources) =
    merge_sources query (merge_all query records source.events) sources

-- `map(into_record).collect::<Result<_, _>>()`.
unfoldable pub into_records : Candidates → Result QueryEvaluationError (List EventRecord)
unfolding into_record
into_records [] = ok []
into_records ((id, candidate) ∷ candidates) = do
  first ← into_record id candidate
  rest ← into_records candidates
  ok (first ∷ rest)

abbrev pub stamp : EventRecord → ℕ × EventId
stamp r = (value_created_at r.event, r.id)

unfoldable pub insert_newest :
    BTreeMap EventCoordinate EventRecord
    → EventCoordinate
    → EventRecord
    → BTreeMap EventCoordinate EventRecord
insert_newest records key incoming = elim (get key records) [
  | none ↦ insert key incoming records
  | some current ↦
      if event_is_newer (stamp incoming) (stamp current)
      then insert key incoming records
      else records
]

abbrev pub is_less : ℕ × EventId → ℕ × EventId → Bool
is_less a b = ltb a.0 b.0 || (a.0 == b.0 && ltb a.1 b.1)

-- The order of the answer. At one time the greatest identity is first, or the least.
abbrev pub goes_before : QueryOrdering → EventRecord → EventRecord → Bool
goes_before newest_first a b = is_less (stamp b) (stamp a)
goes_before oldest_first a b = is_less (stamp a) (stamp b)

abbrev pub truncated : Option ℕ → List EventRecord → List EventRecord
truncated none records = records
truncated (some limit) records = take limit records

-- What `evaluate` calls of the crate.
pub record TagReader : Type 0 where
  pub single_letter_tag : Tag → Option Letter
  pub content : Tag → Option String

abbrev pub member : Option (BTreeSet ℕ) → ℕ → Bool
member none k = true
member (some s) k = contains k s

module _ (nostr : Nostr) (reader : TagReader) where
  unfoldable pub record_coordinate : EventRecord → EventCoordinate
  record_coordinate r =
      event_coordinate nostr r.id (value_author r.event) (value_kind r.event) (value_tags r.event)

  unfoldable pub winners_among :
      BTreeMap EventCoordinate EventRecord → List EventRecord → BTreeMap EventCoordinate EventRecord
  unfolding insert_newest record_coordinate
  winners_among found [] = found
  winners_among found (r ∷ records) =
      winners_among (insert_newest found (record_coordinate r) r) records

  unfoldable pub coordinate_winners : List EventRecord → List EventRecord
  unfolding winners_among
  coordinate_winners records = values (winners_among [] records)

  abbrev pub tag_carries : Letter → BTreeSet String → Tag → Bool
  tag_carries key wanted tag =
      is_some_and (reader.single_letter_tag tag) (λ letter. letter == key)
      && is_some_and (reader.content tag) (λ value. contains value wanted)

  unfoldable pub matches_selection : FilterSelection → EventRecord → Bool
  matches_selection selection r =
      member selection.ids r.id
      && member selection.authors (value_author r.event)
      && member selection.kinds (value_kind r.event)
      && all (λ named. any (tag_carries named.0 named.1) (value_tags r.event)) selection.tag_values

  unfoldable pub selected : Query → List EventRecord → List EventRecord
  unfolding matches_selection coordinate_winners
  selected query records = truncated query.limit (
      sort_by (goes_before query.ordering)
        (coordinate_winners (keep (matches_selection query.selection) records)))

  unfoldable pub evaluate : Query → List SourceSnapshot → Result QueryEvaluationError QuerySnapshot
  unfolding matches_nothing merge_sources into_records selected evaluated
  evaluate query sources =
      if matches_nothing query
      then ok (evaluated [] sources)
      else (into_records (merge_sources query [] sources) >>= λ records.
          ok (evaluated (selected query records) sources))
