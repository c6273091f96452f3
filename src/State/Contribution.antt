-- ===== src/State/Contribution.antt =====
-- crates/fava-state/src/lib.rs: what one relay contributed, and the occurrences of one event.
use fava.Base.{not, Option, none, some, List, [], ◌∷◌, ltb, ◌==◌, if◌then◌else◌, any}
use fava.BTreeMap.{BTreeMap, nat_key, get, insert}
use fava.Nostr.{EventId, PublicKey, RelayUrl, Timestamp, Event}

-- crates/fava-relay: whom a connection stands for.
pub data Authority : Type 0 where
  unauthenticated : Authority
  as_account : PublicKey → Authority

pub record RelayOccurrence : Type 0 where
  pub session : RelayUrl
  pub authority : Authority
  pub observed_at : Timestamp

pub record RelayOccurrences : Type 0 where
  pub event_id : EventId
  pub occurrences : BTreeMap RelayUrl RelayOccurrence

pub record RelayEvent : Type 0 where
  pub event : Event
  pub occurrence : RelayOccurrence

-- `entry(session).and_modify(..).or_insert_with(..)`.
unfoldable pub note :
    BTreeMap RelayUrl RelayOccurrence → RelayOccurrence → BTreeMap RelayUrl RelayOccurrence
note occurrences incoming = elim (get incoming.session occurrences) [
  | none ↦ insert incoming.session incoming occurrences
  | some current ↦
      if ltb incoming.observed_at current.observed_at
      then insert incoming.session (record current { observed_at = incoming.observed_at })
          occurrences
      else occurrences
]

-- The loop over the contributions.
unfoldable pub note_all :
    BTreeMap RelayUrl RelayOccurrence → List RelayEvent → BTreeMap RelayUrl RelayOccurrence
note_all occurrences [] = occurrences
note_all occurrences (contribution ∷ rest) =
    note_all (note occurrences contribution.occurrence) rest

unfoldable pub relay_occurrences_for_event : EventId → List RelayEvent → Option RelayOccurrences
relay_occurrences_for_event event_id contributions =
    if any (λ contribution. not (contribution.event.id == event_id)) contributions
    then none
    else some (record { event_id = event_id; occurrences = note_all [] contributions })
