-- ===== src/EventCache/Admission.antt =====
-- crates/fava-event-cache/src/lib.rs, `admit`: what its mutations keep and drop.
use fava.Base.{
  true, false, not, ◌≡◌, inl, inr, refl, arith, List, In, In-append, In-map, keep_of_In, map_of_In,
  append_left, append_right, Bool-cases, subst, find, ◌==◌,
}
use fava.BTreeMap.{pair_key, values}
use fava.Nostr.{Nostr, Timestamp}
use fava.State.Contribution.{RelayEvent}
use fava.State.Coordinate.{coordinate_of, is_replaceable_coordinate}
use fava.State.Deletion.{deletion_applies, event_is_expired}
use fava.State.Mutations.{
  EventStateMutation, upsert, retraction, expired, RetractionCause, shares_coordinate,
  is_same_contribution, is_barred, mutations_for_event, mutations_for_expiration, state_mutations,
  deletion_mutations,
}
use fava.State.Soundness.{IsSound, mutations_for_event-IsSound, keeps_incoming, drops_known}
use fava.State.Completeness.{expiration-retracts}
use fava.EventCache.Memory.{key_of}
use fava.EventCache.Contract.{admission, admit_mutations, live_at}
use fava.EventCache.Entries.{Entry, Spares}

-- No retained event is deleted by a retained one, and a relay has one retained event at a
-- replaceable coordinate.
pub record IsCurrent (nostr : Nostr) (events : List Entry) : Type 0 where
  pub undeleted :
      (d t : Entry) → In d events → In t events → deletion_applies nostr d.1.event t.1.event ≡ false
  pub unique :
      (a b : Entry)
      → In a events
      → In b events
      → shares_coordinate nostr a.1 b.1 ≡ true
      → is_replaceable_coordinate (coordinate_of nostr a.1.event) ≡ true
      → a.1.event.id ≡ b.1.event.id

-- What the mutations of `admit` leave: the incoming contribution, or what they spare.
upsert_incoming :
    (nostr : Nostr) (current : List RelayEvent) (incoming u : RelayEvent) {m : EventStateMutation}
    → IsSound nostr current incoming m
    → m ≡ upsert u
    → u ≡ incoming
upsert_incoming nostr current incoming u keeps_incoming e = cc
upsert_incoming nostr current incoming u (drops_known known i j) e = absurd (ground arith)

module _ (nostr : Nostr) (incoming : RelayEvent) (now : Timestamp) (current : List Entry) where
  abbrev pub events : List RelayEvent
  events = values current

  abbrev pub mutations : List EventStateMutation
  mutations = admit_mutations nostr incoming now events

  abbrev pub Spared : Entry → Type 0
  Spared e = In e current × Spares mutations e.0

  pub upserts_incoming :
      (u : RelayEvent)
      → In (upsert u) mutations
      → (u ≡ incoming) × In (upsert incoming) (admission nostr events incoming now)
  unfolding admission mutations_for_expiration
  upserts_incoming u i =
      elim (In-append (upsert u) (mutations_for_expiration events now)
        (admission nostr events incoming now) i) [
          | inl j ↦
              let (known, _, e) = In-map (upsert u) (retraction expired) _ j in
              absurd (ground arith)
          | inr j ↦
              let (sound, _) =
                mutations_for_event-IsSound nostr (live_at now events) incoming now (upsert u) j in
              let e = upsert_incoming nostr (live_at now events) incoming u sound refl in
              (e, subst (λ u. In (upsert u) (admission nostr events incoming now)) e j)
        ]

  pub spared_live : (e : Entry) → e.0 ≡ key_of e.1 → Spared e → In e.1 (live_at now events)
  spared_live e keyed (i, spared) = elim (Bool-cases (event_is_expired e.1.event.tags now)) [
    | inr live ↦
        keep_of_In e.1 (λ known. not (event_is_expired known.event.tags now)) events there
          (ground arith)
    | inl due ↦ absurd (
        spared e.1.event.id e.1.occurrence.session expired
          (append_left _ _ _ (expiration-retracts events now e.1 there due)) keyed)
  ]
    where
      there : In e.1 events
      there = map_of_In e (λ e. e.1) current i

  -- A retraction in the admission contradicts that the entry was spared.
  pub not_retracted :
      (e : Entry) (cause : RetractionCause)
      → e.0 ≡ key_of e.1
      → Spared e
      → ¬ In (retraction cause e.1) (admission nostr events incoming now)
  not_retracted e cause keyed (i, spared) j =
      spared e.1.event.id e.1.occurrence.session cause (append_right _ _ _ j) keyed

  pub admission_free :
      In (upsert incoming) (admission nostr events incoming now)
      → is_barred nostr (live_at now events) incoming now ≡ false
  unfolding admission
  admission_free j =
      (mutations_for_event-IsSound nostr (live_at now events) incoming now (upsert incoming) j).1

  abbrev pub here : List RelayEvent
  here = live_at now events

  abbrev pub Kept : Type 0
  Kept = In (upsert incoming) (admission nostr events incoming now)

  pub admission_of_deletion :
      Kept
      → (incoming.event.kind == nostr.event_deletion) ≡ true
      → admission nostr events incoming now ≡ deletion_mutations nostr here incoming
  unfolding admission mutations_for_event
  admission_of_deletion kept kind = rw (admission_free kept, kind)

  pub admission_of_other :
      Kept
      → (incoming.event.kind == nostr.event_deletion) ≡ false
      → admission nostr events incoming now
        ≡ state_mutations nostr here incoming (find (is_same_contribution incoming) here)
  unfolding admission mutations_for_event
  admission_of_other kept kind = rw (admission_free kept, kind)
