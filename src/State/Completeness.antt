-- ===== src/State/Completeness.antt =====
-- crates/fava-state/src/lib.rs: the answers leave out nothing that has to go.
use fava.Base.{
  Bool, true, false, not, none, ◌≡◌, ◌≢◌, refl, inl, inr, arith, In, keep_of_In, map_of_In,
  append_left, Bool-cases, any, keep, find, List, ==_iff, [], ◌∷◌, ◌==◌,
}
use fava.Nostr.{Nostr, IsNip01, Event, Timestamp}
use fava.State.Contribution.{RelayEvent}
use fava.State.Coordinate.{
  coordinate_eq, coordinate_eq_iff, coordinate_of, event_is_newer, is_replaceable_coordinate,
}
use fava.State.Deletion.{deletion_applies, event_is_expired}
use fava.State.Mutations.{
  upsert, retraction, deleted, superseded, expired, age, RetractionCause, shares_coordinate,
  is_same_contribution, is_barred, deletion_mutations, replaceable_mutations, state_mutations,
  mutations_for_event, mutations_for_expiration,
}

module _ (nostr : Nostr) (current : List RelayEvent) (incoming known : RelayEvent) where
  -- A deletion asks for the retraction of every known contribution that it applies to.
  pub deletion-retracts :
      In known current
      → deletion_applies nostr incoming.event known.event ≡ true
      → In
          (retraction (deleted incoming.event.id) known)
          (deletion_mutations nostr current incoming)
  unfolding deletion_mutations
  deletion-retracts i applies = append_left _ _ _ (
      map_of_In known (retraction (deleted incoming.event.id)) _ (
        keep_of_In known (λ known. deletion_applies nostr incoming.event known.event) current i
          applies))

  -- Where an incoming event is kept at its replaceable coordinate, every known contribution of
  -- another event at that coordinate, from the same relay, is retracted.
  pub replaceable-retracts :
      In known current
      → shares_coordinate nostr incoming known ≡ true
      → known.event.id ≢ incoming.event.id
      → In (upsert incoming) (replaceable_mutations nostr current incoming)
      → In
          (retraction (superseded incoming.event.id) known)
          (replaceable_mutations nostr current incoming)
  unfolding replaceable_mutations
  replaceable-retracts i shared other h = elim (Bool-cases (any not_newer same_session)) [
    | inl old ↦ absurd (rw old at h)
    | inr new ↦ rw new (
        append_left _ _ _ (
          map_of_In known (retraction (superseded incoming.event.id)) _ (
            keep_of_In known (λ known. not (known.event.id == incoming.event.id)) same_session
              (keep_of_In known (shares_coordinate nostr incoming) current i shared)
              (ground arith))))
  ]
    where
      same_session : List RelayEvent
      same_session = keep (shares_coordinate nostr incoming) current

      not_newer : RelayEvent → Bool
      not_newer known = not (event_is_newer (age incoming) (age known))

-- The clock asks for the retraction of every contribution whose expiration is due.
pub expiration-retracts :
    (current : List RelayEvent) (now : Timestamp) (known : RelayEvent)
    → In known current
    → event_is_expired known.event.tags now ≡ true
    → In (retraction expired known) (mutations_for_expiration current now)
unfolding mutations_for_expiration
expiration-retracts current now known i due =
    map_of_In known (retraction expired) _
      (keep_of_In known (λ known. event_is_expired known.event.tags now) current i due)

-- A deletion stands at no replaceable coordinate.
pub regular_deletion :
    (nostr : Nostr)
    → IsNip01 nostr
    → (e : Event) → (e.kind == nostr.event_deletion) ≡ true
    → is_replaceable_coordinate (coordinate_of nostr e) ≡ false
unfolding coordinate_of
regular_deletion nostr law e k =
    ground (arith, law.deletion_not_replaceable, law.deletion_not_addressable)

-- Why a known contribution has to go when an incoming one is kept: the incoming event deletes it, or
-- it is of another event at the same coordinate and from the same relay, and the incoming
-- contribution is not one that is known already.
pub data MustGo (nostr : Nostr) (current : List RelayEvent) (incoming known : RelayEvent)
    : RetractionCause → Type 0 where
  deletes :
      deletion_applies nostr incoming.event known.event ≡ true
      → MustGo nostr current incoming known (deleted incoming.event.id)
  supersedes :
      ((twin : RelayEvent)
        → In twin current
        → twin.event.id ≡ incoming.event.id
        → twin.occurrence.session ≢ incoming.occurrence.session)
      → known.occurrence.session ≡ incoming.occurrence.session
      → coordinate_of nostr known.event ≡ coordinate_of nostr incoming.event
      → known.event.id ≢ incoming.event.id
      → MustGo nostr current incoming known (superseded incoming.event.id)

find-missing :
    (p : RelayEvent → Bool) (l : List RelayEvent)
    → ((a : RelayEvent) → In a l → p a ≡ false)
    → find p l ≡ none
find-missing p [] h = refl
find-missing p (a ∷ l) h = rw (h a (inl refl)) (find-missing p l (λ b i. h b (inr i)))

module _ (nostr : Nostr) (current : List RelayEvent) (incoming known : RelayEvent) where
  -- At a coordinate that is not replaceable stands one event.
  regular_id :
      is_replaceable_coordinate (coordinate_of nostr incoming.event) ≡ false
      → shares_coordinate nostr incoming known ≡ true
      → known.event.id ≡ incoming.event.id
  unfolding coordinate_of coordinate_eq
  regular_id plain shared = ground arith

  state_mutations-retracts :
      In known current
      → shares_coordinate nostr incoming known ≡ true
      → known.event.id ≢ incoming.event.id
      → In (upsert incoming) (state_mutations nostr current incoming none)
      → In
          (retraction (superseded incoming.event.id) known)
          (state_mutations nostr current incoming none)
  unfolding state_mutations
  state_mutations-retracts i shared other h =
      elim (Bool-cases (is_replaceable_coordinate (coordinate_of nostr incoming.event))) [
        | inr plain ↦ absurd (other (regular_id plain shared))
        | inl rep ↦
            rw rep (replaceable-retracts nostr current incoming known i shared other (rw rep at h))
      ]

  at_coordinate :
      known.occurrence.session ≡ incoming.occurrence.session
      → coordinate_of nostr known.event ≡ coordinate_of nostr incoming.event
      → shares_coordinate nostr incoming known ≡ true
  at_coordinate session same = ground (
    arith,
    session,
    same,
    coordinate_eq_iff (coordinate_of nostr known.event) (coordinate_of nostr incoming.event),
    ==_iff known.occurrence.session incoming.occurrence.session,
  )

  no_twin :
      (twin : RelayEvent)
      → (twin.event.id ≡ incoming.event.id → twin.occurrence.session ≢ incoming.occurrence.session)
      → is_same_contribution incoming twin ≡ false
  no_twin twin differs = elim (Bool-cases (is_same_contribution incoming twin)) [
    | inr distinct ↦ distinct
    | inl same ↦ absurd (differs (ground (arith, same)) (ground (arith, same)))
  ]

  not_a_deletion :
      (incoming.event.kind == nostr.event_deletion) ≡ false
      → deletion_applies nostr incoming.event known.event ≡ false
  unfolding deletion_applies
  not_a_deletion other_kind = ground (arith, other_kind)

  -- Where the crate keeps to NIP-01 and an incoming contribution is kept, every known contribution
  -- that has to go for it is retracted: each that the incoming event deletes, and, unless the
  -- incoming contribution is known already, each of another event at its coordinate and from its
  -- relay.
  pub mutations_for_event-retracts :
      (now : Timestamp) {cause : RetractionCause}
      → IsNip01 nostr
      → In known current
      → MustGo nostr current incoming known cause
      → In (upsert incoming) (mutations_for_event nostr current incoming now)
      → In (retraction cause known) (mutations_for_event nostr current incoming now)
  unfolding mutations_for_event
  mutations_for_event-retracts now law i (deletes applies) h =
      elim (Bool-cases (is_barred nostr current incoming now)) [
        | inl barred ↦ absurd (rw barred at h)
        | inr free ↦ elim (Bool-cases (incoming.event.kind == nostr.event_deletion)) [
          | inl deletion ↦
              rw (free, deletion) (deletion-retracts nostr current incoming known i applies)
          | inr other_kind ↦ absurd (ground (arith, applies, not_a_deletion other_kind))
        ]
      ]
  mutations_for_event-retracts now law i (supersedes fresh session same other) h =
      let shared = at_coordinate session same in
      elim (Bool-cases (is_barred nostr current incoming now)) [
        | inl barred ↦ absurd (rw barred at h)
        | inr free ↦ elim (Bool-cases (incoming.event.kind == nostr.event_deletion)) [
          | inl deletion ↦
              absurd
                (other (regular_id (regular_deletion nostr law incoming.event deletion) shared))
          | inr other_kind ↦
              let miss =
                find-missing (is_same_contribution incoming) current
                  (λ twin j. no_twin twin (fresh twin j)) in
              rw (free, other_kind, miss)
                (state_mutations-retracts i shared other (rw (free, other_kind, miss) at h))
        ]
      ]
