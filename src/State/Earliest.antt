-- ===== src/State/Earliest.antt =====
-- crates/fava-state/src/lib.rs, `relay_occurrences_for_event`: when each relay was first seen to
-- hold the event.
use fava.Base.{
  true, not, ◌≡◌, refl, sym, arith, Option, none, some, List, [], ◌∷◌, ltb, ◌==◌, if◌then◌else◌,
  inl, inr, Option-cases, any, all,
}
use fava.BTreeMap.{BTreeMap, nat_key, get, get-insert}
use fava.Nostr.{EventId, RelayUrl, Timestamp}
use fava.State.Contribution.{
  RelayOccurrence, RelayOccurrences, RelayEvent, note, note_all, relay_occurrences_for_event,
}

-- The earlier of two times, where there are any.
abbrev pub earlier : Option Timestamp → Option Timestamp → Option Timestamp
earlier none b = b
earlier (some a) none = some a
earlier (some a) (some b) = some (if ltb b a then b else a)

-- The specification: the least time at which the relay contributed.
pub earliest : RelayUrl → List RelayEvent → Option Timestamp
earliest session [] = none
earliest session (c ∷ rest) =
    if c.occurrence.session == session
    then earlier (some c.occurrence.observed_at) (earliest session rest)
    else earliest session rest

abbrev pub observed : Option RelayOccurrence → Option Timestamp
observed none = none
observed (some occurrence) = some occurrence.observed_at

observed-note :
    (session : RelayUrl) (known : BTreeMap RelayUrl RelayOccurrence) (incoming : RelayOccurrence)
    → observed (get session (note known incoming)) ≡ (
        if incoming.session == session
        then earlier (observed (get session known)) (some incoming.observed_at)
        else observed (get session known))
unfolding note
observed-note session known incoming = elim (Option-cases (get incoming.session known)) [
  | inl miss ↦ ground (arith, miss, get-insert incoming.session session incoming known)
  | inr (current, hit) ↦ ground (
    arith,
    hit,
    get-insert incoming.session session (record current { observed_at = incoming.observed_at })
        known,
  )
]

earlier_assoc : (a b c : Option Timestamp) → earlier (earlier a b) c ≡ earlier a (earlier b c)
earlier_assoc none b c = refl
earlier_assoc (some a) none c = refl
earlier_assoc (some a) (some b) none = refl
earlier_assoc (some a) (some b) (some c) = ground arith

earlier-none : (a : Option Timestamp) → earlier a none ≡ a
earlier-none none = refl
earlier-none (some a) = refl

observed-note_all :
    (session : RelayUrl) (known : BTreeMap RelayUrl RelayOccurrence) (cs : List RelayEvent)
    → observed (get session (note_all known cs))
      ≡ earlier (observed (get session known)) (earliest session cs)
unfolding note_all earliest
observed-note_all session known [] = sym (earlier-none _)
observed-note_all session known (c ∷ cs) = ground (
  arith,
  observed-note_all session (note known c.occurrence) cs,
  observed-note session known c.occurrence,
  earlier_assoc (observed (get session known)) (some c.occurrence.observed_at)
      (earliest session cs),
)

all-not-any :
    (event_id : EventId) (cs : List RelayEvent)
    → any (λ c. not (c.event.id == event_id)) cs ≡ not (all (λ c. c.event.id == event_id) cs)
all-not-any event_id [] = refl
all-not-any event_id (c ∷ cs) = ground (arith, all-not-any event_id cs)

-- Where the occurrences of an event are given, every contribution is of that event, and each relay
-- stands in them with the least time at which it contributed, a relay that did not contribute not
-- at all.
pub relay_occurrences-earliest :
    (event_id : EventId) (cs : List RelayEvent) {r : RelayOccurrences} (session : RelayUrl)
    → relay_occurrences_for_event event_id cs ≡ some r
    → (observed (get session r.occurrences) ≡ earliest session cs)
      × (all (λ c. c.event.id == event_id) cs ≡ true)
unfolding relay_occurrences_for_event get
relay_occurrences-earliest event_id cs session h =
    ground (arith, observed-note_all session [] cs, all-not-any event_id cs)
