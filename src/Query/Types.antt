-- ===== src/Query/Types.antt =====
-- crates/fava-query/src/lib.rs, selection.rs and evidence.rs: queries, sources and records.
use fava.Base.{
  is_empty, ℕ, Bool, ◌||◌, String, Option, none, some, List, ◌==◌, not, any, is_some_and, map,
  if◌then◌else◌, Result, ok, err,
}
use fava.BTreeMap.{BTreeMap, nat_key, string_key, values}
use fava.BTreeSet.{BTreeSet}
use fava.Nostr.{EventId, PublicKey, Kind, RelayUrl, Timestamp, Tag}
use fava.State.Contribution.{Authority, RelayEvent, RelayOccurrences}
use fava.EventCache.Source.{SourceRetraction}
use fava.Write.Receipt.{
  EventValue, unsigned, signed, LocalWriteEvent, PublicationEvidence, value_id,
}

-- A `SingleLetterTag` by its place in their order.
abbrev pub Letter : Type 0
Letter = ℕ

pub data QueryAcquisition : Type 0 where
  automatic : QueryAcquisition
  explicit : BTreeSet RelayUrl → QueryAcquisition

pub data ResultAuthority : Type 0 where
  any_local : ResultAuthority
  only_relays : BTreeSet RelayUrl → ResultAuthority

pub record QuerySourcePolicy : Type 0 where
  pub acquisition : QueryAcquisition
  pub authority : ResultAuthority

-- A duration by its nanoseconds.
pub data Freshness : Type 0 where
  cache_only : Freshness
  max_age : ℕ → Freshness
  live : Freshness

pub data QueryOrdering : Type 0 where
  newest_first oldest_first : QueryOrdering

pub record FilterSelection : Type 0 where
  pub ids : Option (BTreeSet EventId)
  pub authors : Option (BTreeSet PublicKey)
  pub authors_current_account : Bool
  pub kinds : Option (BTreeSet Kind)
  pub tag_values : BTreeMap Letter (BTreeSet String)
  pub tag_values_current_account : BTreeSet Letter

pub record Query : Type 0 where
  pub selection : FilterSelection
  pub source : QuerySourcePolicy
  pub access : Authority
  pub freshness : Freshness
  pub ordering : QueryOrdering
  pub limit : Option ℕ

pub data SourceKind : Type 0 where
  event_cache write_store : SourceKind
  live_relay : RelayUrl → SourceKind

pub data SourceTerminationCause : Type 0 where
  local_close provider_closed : SourceTerminationCause
  provider_failed : String → SourceTerminationCause
  shutdown : SourceTerminationCause

pub data SourceStatus : Type 0 where
  open_source : SourceStatus
  closed : SourceTerminationCause → SourceStatus

pub data SourceEvent : Type 0 where
  from_relay : RelayEvent → SourceEvent
  from_local : LocalWriteEvent → SourceEvent

pub record SourceSnapshot : Type 0 where
  pub kind : SourceKind
  pub revision : ℕ
  pub status : SourceStatus
  pub events : List SourceEvent
  pub retractions : List SourceRetraction

pub record SourceEvidence : Type 0 where
  pub kind : SourceKind
  pub revision : ℕ
  pub status : SourceStatus
  pub retractions : List SourceRetraction

pub record EventRecord : Type 0 where
  pub id : EventId
  pub event : EventValue
  pub relay_occurrences : RelayOccurrences
  pub publication : Option PublicationEvidence

-- The evidence of a query that the evaluator fills in: the rest stays at its default.
pub record QuerySnapshot : Type 0 where
  pub revision : ℕ
  pub events : List EventRecord
  pub evidence : List SourceEvidence

pub data QueryEvaluationError : Type 0 where
  missing_event_id : QueryEvaluationError
  relay_occurrence_event_mismatch : EventId → EventId → QueryEvaluationError

abbrev pub value_author : EventValue → PublicKey
value_author (unsigned e) = e.pubkey
value_author (signed e) = e.pubkey

abbrev pub value_kind : EventValue → Kind
value_kind (unsigned e) = e.kind
value_kind (signed e) = e.kind

abbrev pub value_created_at : EventValue → Timestamp
value_created_at (unsigned e) = e.created_at
value_created_at (signed e) = e.created_at

abbrev pub value_tags : EventValue → List Tag
value_tags (unsigned e) = e.tags
value_tags (signed e) = e.tags

-- `EventRecord::new`.
unfoldable pub new_record :
    EventValue
    → RelayOccurrences
    → Option PublicationEvidence
    → Result QueryEvaluationError EventRecord
new_record event occurrences publication = elim (value_id event) [
  | none ↦ err missing_event_id
  | some id ↦
      if id == occurrences.event_id
      then ok (record {
        id = id;
        event = event;
        relay_occurrences = occurrences;
        publication = publication;
      })
      else err (relay_occurrence_event_mismatch id occurrences.event_id)
]

unfoldable pub evidence_of : SourceSnapshot → SourceEvidence
evidence_of source = record {
  kind = source.kind;
  revision = source.revision;
  status = source.status;
  retractions = source.retractions;
}

-- `QuerySnapshot::evaluated`.
unfoldable pub evaluated : List EventRecord → List SourceSnapshot → QuerySnapshot
evaluated events sources = record {
  revision = 0;
  events = events;
  evidence = map evidence_of sources;
}

unfoldable pub depends_on_current_account : Query → Bool
depends_on_current_account query =
    query.selection.authors_current_account
    || not (is_empty query.selection.tag_values_current_account)

unfoldable pub matches_nothing : Query → Bool
unfolding depends_on_current_account
matches_nothing query =
    depends_on_current_account query
    || is_some_and query.selection.ids is_empty
    || is_some_and query.selection.authors is_empty
    || is_some_and query.selection.kinds is_empty
    || any is_empty (values query.selection.tag_values)
