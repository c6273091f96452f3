-- ===== src/EventCache/Deletions.antt =====
-- crates/fava-event-cache/src/lib.rs, `admit`: the incoming event and deletions.
use fava.Base.{true, false, ◌≡◌, inl, inr, arith, List, any_of_In, Bool-cases, ◌==◌}
use fava.BTreeMap.{pair_key}
use fava.Nostr.{Nostr, Event, Timestamp}
use fava.State.Contribution.{RelayEvent}
use fava.State.Deletion.{deletion_applies}
use fava.State.Mutations.{deleted}
use fava.State.Completeness.{deletion-retracts}
use fava.EventCache.Memory.{key_of}
use fava.EventCache.Entries.{Entry}
use fava.EventCache.Admission.{
  here, Kept, Spared, admission_of_deletion, spared_live, not_retracted, admission_free,
}

pub deletion_kind :
    (nostr : Nostr) (d t : Event)
    → deletion_applies nostr d t ≡ true
    → (d.kind == nostr.event_deletion) ≡ true
unfolding deletion_applies
deletion_kind nostr d t h = ground arith

pub deletion_spares_itself : (nostr : Nostr) (d : Event) → deletion_applies nostr d d ≡ false
unfolding deletion_applies
deletion_spares_itself nostr d = ground arith

module _ (nostr : Nostr) (incoming : RelayEvent) (now : Timestamp) (current : List Entry) where
  abbrev Spared' : Entry → Type 0
  Spared' = Spared nostr incoming now current

  abbrev Kept' : Type 0
  Kept' = Kept nostr incoming now current

  abbrev here' : List RelayEvent
  here' = here nostr incoming now current

  pub incoming_deletes :
      (t : Entry)
      → t.0 ≡ key_of t.1
      → Spared' t
      → Kept'
      → deletion_applies nostr incoming.event t.1.event ≡ false
  incoming_deletes t keyed spared kept =
      elim (Bool-cases (deletion_applies nostr incoming.event t.1.event)) [
        | inr fine ↦ fine
        | inl applies ↦ absurd (
            not_retracted nostr incoming now current t (deleted incoming.event.id) keyed spared (
              rw
                (admission_of_deletion nostr incoming now current kept
                  (deletion_kind nostr incoming.event t.1.event applies))
                (deletion-retracts nostr here' incoming t.1
                  (spared_live nostr incoming now current t keyed spared) applies)))
      ]

  pub deletes_incoming :
      (d : Entry)
      → d.0 ≡ key_of d.1
      → Spared' d
      → Kept'
      → deletion_applies nostr d.1.event incoming.event ≡ false
  deletes_incoming d keyed spared kept = ground (
    arith,
    admission_free nostr incoming now current kept,
    any_of_In d.1 (λ known. deletion_applies nostr known.event incoming.event) here'
        (spared_live nostr incoming now current d keyed spared),
  )
