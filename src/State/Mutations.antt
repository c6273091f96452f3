-- ===== src/State/Mutations.antt =====
-- crates/fava-state/src/lib.rs: the mutations that an incoming event, or the clock, asks for.
use fava.Base.{
  Option, Bool, not, ◌&&◌, ◌||◌, none, some, List, [], ◌∷◌, ◌++◌, map, ltb, ◌==◌, if◌then◌else◌,
  any, keep, find,
}
use fava.Nostr.{EventId, RelayUrl, Timestamp, Nostr}
use fava.State.Contribution.{RelayEvent}
use fava.State.Coordinate.{coordinate_eq, coordinate_of, event_is_newer, is_replaceable_coordinate}
use fava.State.Deletion.{deletion_applies, event_is_expired}

pub data RetractionCause : Type 0 where
  deleted : EventId → RetractionCause
  superseded : EventId → RetractionCause
  expired : RetractionCause
  evicted : RetractionCause

pub data EventStateMutation : Type 0 where
  upsert : RelayEvent → EventStateMutation
  retract : EventId → RelayUrl → RetractionCause → EventStateMutation

abbrev pub retraction : RetractionCause → RelayEvent → EventStateMutation
retraction cause known = retract known.event.id known.occurrence.session cause

-- The pair that `event_is_newer` compares.
abbrev pub age : RelayEvent → Timestamp × EventId
age known = (known.event.created_at, known.event.id)

-- The same event from the same relay.
abbrev pub is_same_contribution : RelayEvent → RelayEvent → Bool
is_same_contribution incoming known =
    known.event.id == incoming.event.id && known.occurrence.session == incoming.occurrence.session

module _ (nostr : Nostr) where
  -- At the coordinate of the incoming event, from its relay.
  abbrev pub shares_coordinate : RelayEvent → RelayEvent → Bool
  shares_coordinate incoming known =
      known.occurrence.session == incoming.occurrence.session
      && coordinate_eq (coordinate_of nostr known.event) (coordinate_of nostr incoming.event)

  -- Nothing may be kept: it is expired, or a known event deletes it.
  abbrev pub is_barred : List RelayEvent → RelayEvent → Timestamp → Bool
  is_barred current incoming now =
      event_is_expired incoming.event.tags now
      || any (λ known. deletion_applies nostr known.event incoming.event) current

  unfoldable pub deletion_mutations : List RelayEvent → RelayEvent → List EventStateMutation
  deletion_mutations current incoming =
      map (retraction (deleted incoming.event.id))
        (keep (λ known. deletion_applies nostr incoming.event known.event) current)
      ++ upsert incoming ∷ []

  unfoldable pub replaceable_mutations : List RelayEvent → RelayEvent → List EventStateMutation
  replaceable_mutations current incoming =
      let same_session = keep (shares_coordinate incoming) current in
      if any (λ known. not (event_is_newer (age incoming) (age known))) same_session
      then []
      else map (retraction (superseded incoming.event.id))
          (keep (λ known. not (known.event.id == incoming.event.id)) same_session)
        ++ upsert incoming ∷ []

  -- What follows the search for the same contribution.
  unfoldable pub state_mutations :
      List RelayEvent → RelayEvent → Option RelayEvent → List EventStateMutation
  unfolding replaceable_mutations
  state_mutations current incoming (some existing) =
      if ltb incoming.occurrence.observed_at existing.occurrence.observed_at
      then upsert incoming ∷ []
      else []
  state_mutations current incoming none =
      if is_replaceable_coordinate (coordinate_of nostr incoming.event)
      then replaceable_mutations current incoming
      else upsert incoming ∷ []

  unfoldable pub mutations_for_event :
      List RelayEvent → RelayEvent → Timestamp → List EventStateMutation
  mutations_for_event current incoming now =
      if is_barred current incoming now
      then []
      else if incoming.event.kind == nostr.event_deletion
      then deletion_mutations current incoming
      else state_mutations current incoming (find (is_same_contribution incoming) current)

unfoldable pub mutations_for_expiration : List RelayEvent → Timestamp → List EventStateMutation
mutations_for_expiration current now =
    map (retraction expired) (keep (λ known. event_is_expired known.event.tags now) current)
