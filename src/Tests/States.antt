-- ===== src/Tests/States.antt =====
-- crates/fava-state: the theorems at concrete events.
use fava.Base.{
  ap, ◌∙◌, ℕ, true, false, ◌≡◌, ◌≢◌, ◌↔◌, inl, inr, refl, some, [], ◌∷◌, In, all, ◌==◌, arith,
}
use fava.BTreeMap.{nat_key, get}
use fava.Nostr.{Event}
use fava.State.Contribution.{
  RelayEvent, RelayOccurrences, RelayOccurrence, unauthenticated, relay_occurrences_for_event,
}
use fava.State.Coordinate.{coordinate_of, event_is_newer}
use fava.State.Deletion.{deletion_applies, event_is_expired}
use fava.State.Mutations.{
  upsert, retraction, superseded, mutations_for_event, is_barred, state_mutations,
  replaceable_mutations,
}
use fava.State.Authorization.{Deletes, deletion_applies_iff}
use fava.State.Soundness.{IsSound, mutations_for_event-IsSound}
use fava.State.Completeness.{supersedes, mutations_for_event-retracts}
use fava.State.Earliest.{observed, earliest, relay_occurrences-earliest}
use fava.Tests.Crate.{crate, crate-IsNip01, event_of, delivered}

-- A deletion of the event 4, by identity.
abbrev deletion : Event
deletion = event_of 9 5 (("e" ∷ "abcd" ∷ []) ∷ [])

abbrev target : Event
target = event_of 4 10002 []

applies : deletion_applies crate deletion target ≡ true
unfolding deletion_applies
applies = refl

is_due : event_is_expired (("expiration" ∷ "+12" ∷ []) ∷ []) 12 ≡ true
unfolding event_is_expired fava.State.Deletion.parse_u64
is_due = refl

newer_than : event_is_newer (5, 1) (4, 1) ≡ true × event_is_newer (4, 1) (4, 2) ≡ true
unfolding event_is_newer
newer_than = (refl, refl)

deletion_applies_iff_example :
    (deletion_applies crate deletion target ≡ true) ↔ Deletes crate deletion target
deletion_applies_iff_example = deletion_applies_iff crate deletion target

superseding :
    In
      (retraction (superseded 6) (delivered 4))
      (mutations_for_event crate (delivered 4 ∷ []) (delivered 6) 100)
unfolding mutations_for_event state_mutations replaceable_mutations event_is_expired
    deletion_applies fava.State.Coordinate.coordinate_of fava.State.Coordinate.coordinate_eq
    event_is_newer
superseding = inl refl

mutations_for_event-IsSound_example :
    IsSound crate (delivered 4 ∷ []) (delivered 6) (retraction (superseded 6) (delivered 4))
    × (is_barred crate (delivered 4 ∷ []) (delivered 6) 100 ≡ false)
mutations_for_event-IsSound_example =
    mutations_for_event-IsSound crate (delivered 4 ∷ []) (delivered 6) 100
      (retraction (superseded 6) (delivered 4)) superseding

keeping : In (upsert (delivered 6)) (mutations_for_event crate (delivered 4 ∷ []) (delivered 6) 100)
unfolding mutations_for_event state_mutations replaceable_mutations event_is_expired
    deletion_applies fava.State.Coordinate.coordinate_of fava.State.Coordinate.coordinate_eq
    event_is_newer
keeping = inr (inl refl)

four_is_not_six : ◌≢◌ {A = ℕ} 4 6
four_is_not_six = λ h. ground arith

at_one_coordinate :
    coordinate_of crate (delivered 4).event ≡ coordinate_of crate (delivered 6).event
unfolding coordinate_of
at_one_coordinate = refl

unseen :
    (twin : RelayEvent)
    → In twin (delivered 4 ∷ [])
    → ◌≡◌ {A = ℕ} twin.event.id 6
    → ◌≢◌ {A = ℕ} twin.occurrence.session 1
unseen twin (inl e) same session = four_is_not_six (ap (λ (r : RelayEvent). r.event.id) e ∙ same)
unseen twin (inr i) same session = elim i [ ]

mutations_for_event-retracts_example :
    In
      (retraction (superseded 6) (delivered 4))
      (mutations_for_event crate (delivered 4 ∷ []) (delivered 6) 100)
mutations_for_event-retracts_example =
    mutations_for_event-retracts crate (delivered 4 ∷ []) (delivered 6) (delivered 4) 100
      crate-IsNip01 (inl refl) (supersedes unseen refl at_one_coordinate four_is_not_six) keeping

-- The same event, seen twice by one relay.
abbrev seen : ℕ → RelayEvent
seen time = record {
  event = target;
  occurrence = record { session = 1; authority = unauthenticated; observed_at = time };
}

abbrev occurrences : RelayOccurrences
occurrences = record {
  event_id = 4;
  occurrences = (1, record { session = 1; authority = unauthenticated; observed_at = 3 }) ∷ [];
}

occurred : relay_occurrences_for_event 4 (seen 8 ∷ seen 3 ∷ []) ≡ some occurrences
unfolding relay_occurrences_for_event fava.State.Contribution.note_all fava.State.Contribution.note
    get fava.BTreeMap.insert
occurred = refl

relay_occurrences-earliest_example :
    (observed (get 1 occurrences.occurrences) ≡ earliest 1 (seen 8 ∷ seen 3 ∷ []))
    × (all (λ c. c.event.id == 4) (seen 8 ∷ seen 3 ∷ []) ≡ true)
relay_occurrences-earliest_example = relay_occurrences-earliest 4 (seen 8 ∷ seen 3 ∷ []) 1 occurred
