-- ===== src/EventCache/Source.antt =====
-- crates/fava-query/src/evidence.rs and lib.rs: what a source of events publishes, and
-- crates/fava-event-cache/src/lib.rs: why a cache refuses.
use fava.Base.{ℕ, List, []}
use fava.Nostr.{EventId, RelayUrl, Timestamp}
use fava.State.Contribution.{RelayEvent}
use fava.State.Mutations.{RetractionCause}

pub record SourceRetraction : Type 0 where
  pub event_id : EventId
  pub cause : RetractionCause

-- A filter is a value of the `nostr` crate, which a cache only compares.
pub record SourceCoverage (Filter : Type 0) : Type 0 where
  pub session : RelayUrl
  pub filter : Filter
  pub completed_at : Timestamp

-- The snapshot of an open event cache: its kind and its status never change.
pub record SourceSnapshot : Type 0 where
  pub revision : ℕ
  pub events : List RelayEvent
  pub retractions : List SourceRetraction

abbrev pub empty_snapshot : SourceSnapshot
empty_snapshot = record { revision = 0; events = []; retractions = [] }

-- The messages of `EventCacheError::Refused`.
pub data EventCacheError : Type 0 where
  invalid_signed_event : EventCacheError
  capacity_reached : EventCacheError
  holds_only_deletions : EventCacheError
  revision_exhausted : EventCacheError
