-- ===== src/EventCache/Replacements.antt =====
-- crates/fava-event-cache/src/lib.rs, `admit`: one event at a replaceable coordinate.
use fava.Base.{
  ℕ, true, not, ◌≡◌, inl, inr, arith, List, In, In-map, In-keep, find-some, Bool-cases,
  Option-cases, sym, ◌∙◌, find, none, ◌==◌,
}
use fava.BTreeMap.{pair_key, values}
use fava.Nostr.{Nostr, IsNip01, Event, Timestamp}
use fava.State.Contribution.{RelayEvent}
use fava.State.Coordinate.{coordinate_of, coordinate_eq_iff, is_replaceable_coordinate}
use fava.State.Deletion.{event_is_expired}
use fava.State.Mutations.{
  superseded, shares_coordinate, is_same_contribution, state_mutations, replaceable_mutations,
}
use fava.State.Completeness.{replaceable-retracts, regular_deletion}
use fava.EventCache.Contract.{admission}
use fava.EventCache.Entries.{Entry}
use fava.EventCache.Admission.{
  IsCurrent, here, Kept, Spared, admission_of_other, spared_live, not_retracted,
}
use fava.EventCache.Invariant.{IsValid}

pub shares_sym :
    (nostr : Nostr) (a b : RelayEvent)
    → shares_coordinate nostr a b ≡ true
    → (shares_coordinate nostr b a ≡ true)
      × (coordinate_of nostr a.event ≡ coordinate_of nostr b.event)
shares_sym nostr a b h = ground (
  arith,
  coordinate_eq_iff (coordinate_of nostr a.event) (coordinate_of nostr b.event),
  coordinate_eq_iff (coordinate_of nostr b.event) (coordinate_of nostr a.event),
)

module _ (nostr : Nostr) (law : IsNip01 nostr) where
  -- Verified events of one identity stand at one coordinate.
  coordinate_of_id :
      (a b : Event)
      → nostr.verify a ≡ true
      → nostr.verify b ≡ true
      → a.id ≡ b.id
      → coordinate_of nostr a ≡ coordinate_of nostr b
  unfolding coordinate_of
  coordinate_of_id a b g h e = let (p, _, k, t) = law.binds a b g h e in rw (e, p, k, t)

  module _ (incoming : RelayEvent) (now : Timestamp) (current : List Entry) where
    abbrev Spared' : Entry → Type 0
    Spared' = Spared nostr incoming now current

    abbrev Kept' : Type 0
    Kept' = Kept nostr incoming now current

    abbrev here' : List RelayEvent
    here' = here nostr incoming now current

    admission_of_replaceable :
        Kept'
        → is_replaceable_coordinate (coordinate_of nostr incoming.event) ≡ true
        → find (is_same_contribution incoming) here' ≡ none
        → admission nostr (values current) incoming now ≡ replaceable_mutations nostr here' incoming
    unfolding state_mutations
    admission_of_replaceable kept rep miss =
        elim (Bool-cases (incoming.event.kind == nostr.event_deletion)) [
          | inl k ↦ absurd (ground (arith, regular_deletion nostr law incoming.event k))
          | inr k ↦ rw (admission_of_other nostr incoming now current kept k, miss, rep)
        ]

    module _ {capacity : ℕ} (valid : IsValid nostr capacity current)
        (cur : IsCurrent nostr current) where
      unique_of_same :
          (known : RelayEvent) (b : Entry)
          → nostr.verify incoming.event ≡ true
          → In known here'
          → is_same_contribution incoming known ≡ true
          → In b current
          → shares_coordinate nostr incoming b.1 ≡ true
          → is_replaceable_coordinate (coordinate_of nostr incoming.event) ≡ true
          → incoming.event.id ≡ b.1.event.id
      unique_of_same known b good i same j shared rep =
          let (k, _) =
            In-keep known (λ known. not (event_is_expired known.event.tags now)) (values current)
              i in
          let (x, l, e) = In-map known (λ (e : Entry). e.1) current k in
          let id_eq : x.1.event.id ≡ incoming.event.id = ground (arith, e) in
          let at : coordinate_of nostr x.1.event ≡ coordinate_of nostr incoming.event =
            coordinate_of_id x.1.event incoming.event (valid.verified x l) good id_eq in
          sym id_eq ∙ cur.unique x b l j (ground (arith, e, at)) (rw at rep)

      pub unique_incoming :
          (b : Entry)
          → nostr.verify incoming.event ≡ true
          → Spared' b
          → Kept'
          → shares_coordinate nostr incoming b.1 ≡ true
          → is_replaceable_coordinate (coordinate_of nostr incoming.event) ≡ true
          → incoming.event.id ≡ b.1.event.id
      unique_incoming b good spared kept shared rep =
          elim (Option-cases (find (is_same_contribution incoming) here')) [
            | inr (known, hit) ↦
                let (i, same) = find-some (is_same_contribution incoming) here' hit in
                unique_of_same known b good i same spared.0 shared rep
            | inl miss ↦ elim (Bool-cases (b.1.event.id == incoming.event.id)) [
              | inl same ↦ ground arith
              | inr other ↦
                  let e = admission_of_replaceable kept rep miss in
                  let keyed = valid.keyed b spared.0 in
                  absurd (
                    not_retracted nostr incoming now current b (superseded incoming.event.id) keyed
                      spared
                      (rw e (
                        replaceable-retracts nostr here' incoming b.1
                          (spared_live nostr incoming now current b keyed spared) shared
                          (ground arith) (rw e at kept))))
            ]
          ]
