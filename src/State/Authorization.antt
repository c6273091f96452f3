-- ===== src/State/Authorization.antt =====
-- crates/fava-state/src/lib.rs, `deletion_applies`: whom a deletion may delete.
use fava.Base.{true, ◌≡◌, ◌≢◌, ◌↔◌, inl, inr, arith, In, In-any, any_of_In, ◌≤◌, Bool-cases, any}
use fava.Nostr.{Nostr, Event, Tag}
use fava.State.Coordinate.{coordinate_of}
use fava.State.Deletion.{deletion_applies, names_event, names_coordinate}

-- NIP-09 as a relation: the deletion is authorized, and one of its tags names the target by
-- identity, or by a coordinate at which the target stands and is not newer than the deletion.
pub data NamesTarget (nostr : Nostr) (deletion target : Event) : Type 0 where
  by_id :
      (tag : Tag)
      → In tag deletion.tags
      → names_event nostr target.id tag ≡ true
      → NamesTarget nostr deletion target
  by_coordinate :
      (tag : Tag)
      → In tag deletion.tags
      → names_coordinate nostr (coordinate_of nostr target) tag ≡ true
      → target.created_at ≤ deletion.created_at
      → NamesTarget nostr deletion target

pub record Deletes (nostr : Nostr) (deletion target : Event) : Type 0 where
  pub kind : deletion.kind ≡ nostr.event_deletion
  pub not_a_deletion : target.kind ≢ nostr.event_deletion
  pub author : deletion.pubkey ≡ target.pubkey
  pub named : NamesTarget nostr deletion target

module _ (nostr : Nostr) (deletion target : Event) where
  names : deletion_applies nostr deletion target ≡ true → NamesTarget nostr deletion target
  unfolding deletion_applies coordinate_of
  names h = elim (Bool-cases (any (names_event nostr target.id) deletion.tags)) [
    | inl named ↦
        let (tag, i, e) = In-any (names_event nostr target.id) deletion.tags named in by_id tag i e
    | inr unnamed ↦
        let (tag, i, e) =
          In-any (names_coordinate nostr (coordinate_of nostr target)) deletion.tags
            (ground arith) in
        by_coordinate tag i e (ground arith)
  ]

  applies : Deletes nostr deletion target → deletion_applies nostr deletion target ≡ true
  unfolding deletion_applies coordinate_of
  applies d = elim d.named [
    | by_id tag i e ↦ ground (
      arith,
      d.kind,
      d.not_a_deletion,
      d.author,
      any_of_In tag (names_event nostr target.id) deletion.tags i e,
    )
    | by_coordinate tag i e le ↦ ground (
      arith,
      d.kind,
      d.not_a_deletion,
      d.author,
      any_of_In tag (names_coordinate nostr (coordinate_of nostr target)) deletion.tags i e,
    )
  ]

  -- A deletion applies to a target exactly when it is a deletion event by the target's author, the
  -- target is no deletion itself, and a tag names the target's identity, or names the target's
  -- coordinate while the target is no newer than the deletion.
  pub deletion_applies_iff :
      (deletion_applies nostr deletion target ≡ true) ↔ Deletes nostr deletion target
  unfolding deletion_applies
  deletion_applies_iff = (
    λ h. record {
      kind = ground arith;
      not_a_deletion = ground arith;
      author = ground arith;
      named = names h;
    },
    applies,
  )
