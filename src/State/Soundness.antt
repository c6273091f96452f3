-- ===== src/State/Soundness.antt =====
-- crates/fava-state/src/lib.rs, `mutations_for_event`: what every mutation in the answer stands for.
use fava.Base.{
  subst, Bool, true, false, not, ◌≡◌, inl, inr, arith, In, In-append, In-map, In-keep, any_of_In,
  Bool-cases, any, keep, find, map, List, [], ◌∷◌, Option, none, some, ◌==◌, ltb,
}
use fava.Nostr.{Nostr, Timestamp}
use fava.State.Contribution.{RelayEvent}
use fava.State.Coordinate.{coordinate_of, event_is_newer, is_replaceable_coordinate}
use fava.State.Deletion.{deletion_applies}
use fava.State.Mutations.{
  EventStateMutation, upsert, retraction, RetractionCause, deleted, superseded, age,
  is_same_contribution, shares_coordinate, is_barred, mutations_for_event, state_mutations,
  deletion_mutations, replaceable_mutations,
}

-- Why a known contribution may be retracted for an incoming one.
pub data IsJustified (nostr : Nostr) (incoming known : RelayEvent) : RetractionCause → Type 0 where
  by_deletion :
      deletion_applies nostr incoming.event known.event ≡ true
      → IsJustified nostr incoming known (deleted incoming.event.id)
  by_newer :
      shares_coordinate nostr incoming known ≡ true
      → is_replaceable_coordinate (coordinate_of nostr incoming.event) ≡ true
      → event_is_newer (age incoming) (age known) ≡ true
      → IsJustified nostr incoming known (superseded incoming.event.id)

-- What one mutation of the answer may be.
pub data IsSound (nostr : Nostr) (current : List RelayEvent) (incoming : RelayEvent)
    : EventStateMutation → Type 0 where
  keeps_incoming : IsSound nostr current incoming (upsert incoming)
  drops_known :
      (known : RelayEvent) {cause : RetractionCause}
      → In known current
      → IsJustified nostr incoming known cause
      → IsSound nostr current incoming (retraction cause known)

module _ (nostr : Nostr) (current : List RelayEvent) (incoming : RelayEvent) where
  abbrev Sound : EventStateMutation → Type 0
  Sound = IsSound nostr current incoming

  Sound-upsert : (m : EventStateMutation) → In m (upsert incoming ∷ []) → Sound m
  Sound-upsert m (inl e) = subst Sound e keeps_incoming
  Sound-upsert m (inr h) = elim h [ ]

  Sound-deletion :
      (m : EventStateMutation) → In m (deletion_mutations nostr current incoming) → Sound m
  unfolding deletion_mutations
  Sound-deletion m h =
      elim (In-append m (map (retraction (deleted incoming.event.id)) dropped)
        (upsert incoming ∷ []) h) [
          | inl i ↦
              let (known, j, e) = In-map m (retraction (deleted incoming.event.id)) dropped i in
              let (k, applies) =
                In-keep known (λ known. deletion_applies nostr incoming.event known.event) current
                  j in
              subst Sound e (drops_known known k (by_deletion applies))
          | inr i ↦ Sound-upsert m i
        ]
    where
      dropped : List RelayEvent
      dropped = keep (λ known. deletion_applies nostr incoming.event known.event) current

  Sound-replaceable :
      (m : EventStateMutation)
      → is_replaceable_coordinate (coordinate_of nostr incoming.event) ≡ true
      → In m (replaceable_mutations nostr current incoming)
      → Sound m
  unfolding replaceable_mutations
  Sound-replaceable m rep h = elim (Bool-cases (any not_newer same_session)) [
    | inl old ↦ absurd (rw old at h)
    | inr new ↦
        elim (In-append m (map (retraction (superseded incoming.event.id)) dropped)
          (upsert incoming ∷ []) (rw new at h)) [
            | inl i ↦
                let (known, j, e) =
                  In-map m (retraction (superseded incoming.event.id)) dropped i in
                let (k, _) = In-keep known other_id same_session j in
                let (l, shared) = In-keep known (shares_coordinate nostr incoming) current k in
                subst Sound e (
                  drops_known known l (
                    by_newer shared rep (ground (arith, any_of_In known not_newer same_session k))))
            | inr i ↦ Sound-upsert m i
          ]
  ]
    where
      same_session : List RelayEvent
      same_session = keep (shares_coordinate nostr incoming) current

      not_newer : RelayEvent → Bool
      not_newer known = not (event_is_newer (age incoming) (age known))

      other_id : RelayEvent → Bool
      other_id known = not (known.event.id == incoming.event.id)

      dropped : List RelayEvent
      dropped = keep other_id same_session

  Sound-state :
      (m : EventStateMutation) (existing : Option RelayEvent)
      → In m (state_mutations nostr current incoming existing)
      → Sound m
  unfolding state_mutations
  Sound-state m (some existing) h =
      elim (Bool-cases (ltb incoming.occurrence.observed_at existing.occurrence.observed_at)) [
        | inl earlier ↦ Sound-upsert m (rw earlier at h)
        | inr later ↦ absurd (rw later at h)
      ]
  Sound-state m none h =
      elim (Bool-cases (is_replaceable_coordinate (coordinate_of nostr incoming.event))) [
        | inl rep ↦ Sound-replaceable m rep (rw rep at h)
        | inr plain ↦ Sound-upsert m (rw plain at h)
      ]

  -- Every mutation asked for an incoming contribution keeps that contribution, or drops a known
  -- one for a reason that holds: the incoming event deletes it, or stands at the same replaceable
  -- coordinate of the same relay and is strictly newer. None is asked for if the incoming event is
  -- expired or deleted by a known event.
  pub mutations_for_event-IsSound :
      (now : Timestamp) (m : EventStateMutation)
      → In m (mutations_for_event nostr current incoming now)
      → IsSound nostr current incoming m × (is_barred nostr current incoming now ≡ false)
  unfolding mutations_for_event
  mutations_for_event-IsSound now m h = elim (Bool-cases (is_barred nostr current incoming now)) [
    | inl barred ↦ absurd (rw barred at h)
    | inr free ↦ (
      elim (Bool-cases (incoming.event.kind == nostr.event_deletion)) [
        | inl deletion ↦ Sound-deletion m (rw (free, deletion) at h)
        | inr other ↦
            Sound-state m (find (is_same_contribution incoming) current) (rw (free, other) at h)
      ],
      free,
    )
  ]
