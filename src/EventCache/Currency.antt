-- ===== src/EventCache/Currency.antt =====
-- crates/fava-event-cache/src/lib.rs, `admit`: what a cache holds is current.
use fava.Base.{
  is_empty, All, All-of_In, >>=-eq-ok, ℕ, Bool, true, false, not, ◌≡◌, inl, inr, refl, arith, List,
  In, In-keep, ok, sym,
}
use fava.BTreeMap.{pair_key, values}
use fava.Nostr.{Nostr, IsNip01, Timestamp}
use fava.State.Contribution.{RelayEvent}
use fava.State.Coordinate.{coordinate_of, is_replaceable_coordinate}
use fava.State.Deletion.{deletion_applies, event_is_expired}
use fava.State.Mutations.{shares_coordinate}
use fava.EventCache.Memory.{MemoryEventCache, transact}
use fava.EventCache.Contract.{admission, admit_mutations, admit}
use fava.EventCache.Entries.{Entry}
use fava.EventCache.Admission.{
  IsCurrent, Kept, Spared, upserts_incoming, spared_live, admission_free,
}
use fava.EventCache.Deletions.{deletion_spares_itself, incoming_deletes, deletes_incoming}
use fava.EventCache.Replacements.{unique_incoming, shares_sym}
use fava.EventCache.Invariant.{IsValidCache}
use fava.EventCache.Origins.{transact-Origin}

module _ (nostr : Nostr) {Filter : Type 0} (cache : MemoryEventCache Filter) (incoming : RelayEvent)
    (now : Timestamp) where
  abbrev current : List Entry
  current = cache.state.events

  -- What an entry after the admission is.
  data Admitted (e : Entry) : Type 0 where
    is_incoming :
        e.1 ≡ incoming
        → Kept nostr incoming now current
        → nostr.verify incoming.event ≡ true
        → Admitted e
    is_spared : Spared nostr incoming now current e → Admitted e

  pub admit-transact :
      {after : MemoryEventCache Filter} {b : Bool}
      → admit nostr cache incoming now ≡ ok (after, b)
      → (n : ℕ) × (transact nostr cache (admit_mutations nostr incoming now) ≡ ok (after, n))
  unfolding admit
  admit-transact {after} {b} h =
      let (r, p, q) =
        >>=-eq-ok (transact nostr cache (admit_mutations nostr incoming now))
          (λ r. ok (r.0, not (is_empty (admission nostr (values current) incoming now))))
          {b = (after, b)} h in
      (r.1, ground (arith, p, q))

  admit-Admitted :
      (e : Entry) {after : MemoryEventCache Filter} {b : Bool}
      → admit nostr cache incoming now ≡ ok (after, b)
      → In e after.state.events
      → Admitted e
  admit-Admitted e h i =
      let (n, p) = admit-transact h in
      elim (transact-Origin nostr cache e (admit_mutations nostr incoming now) p i) [
        | inl (j, good, keyed) ↦
            let (same, kept) = upserts_incoming nostr incoming now current e.1 j in
            is_incoming same kept (rw (← same) good)
        | inr spared ↦ is_spared spared
      ]

  module _ (valid : IsValidCache nostr cache) (cur : IsCurrent nostr current) where
    undeleted_after :
        (d t : Entry) → Admitted d → Admitted t → deletion_applies nostr d.1.event t.1.event ≡ false
    undeleted_after d t (is_incoming p k g) (is_incoming q l h) =
        rw (p, q) (deletion_spares_itself nostr incoming.event)
    undeleted_after d t (is_incoming p k g) (is_spared s) =
        rw p (incoming_deletes nostr incoming now current t (valid.keyed t s.0) s k)
    undeleted_after d t (is_spared s) (is_incoming q k g) =
        rw q (deletes_incoming nostr incoming now current d (valid.keyed d s.0) s k)
    undeleted_after d t (is_spared r) (is_spared s) = cur.undeleted d t r.0 s.0

    live_after : (e : Entry) → Admitted e → event_is_expired e.1.event.tags now ≡ false
    live_after e (is_incoming p k g) =
        rw p (ground (arith, admission_free nostr incoming now current k))
    live_after e (is_spared s) = ground (
      arith,
      In-keep e.1 (λ known. not (event_is_expired known.event.tags now)) (values current)
          (spared_live nostr incoming now current e (valid.keyed e s.0) s),
    )

    module _ (law : IsNip01 nostr) where
      unique_after :
          (a b : Entry)
          → Admitted a
          → Admitted b
          → shares_coordinate nostr a.1 b.1 ≡ true
          → is_replaceable_coordinate (coordinate_of nostr a.1.event) ≡ true
          → a.1.event.id ≡ b.1.event.id
      unique_after a b (is_incoming p k g) (is_incoming q l h) shared rep = rw (p, q) refl
      unique_after a b (is_incoming p k g) (is_spared s) shared rep = rw p (
          unique_incoming nostr law incoming now current valid cur b g s k (rw p at shared)
            (rw p at rep))
      unique_after a b (is_spared r) (is_incoming q l h) shared rep =
          let (back, at) = shares_sym nostr a.1 b.1 shared in
          rw q (
            sym (
              unique_incoming nostr law incoming now current valid cur a h r l (rw q at back)
                (rw (at, q) at rep)))
      unique_after a b (is_spared r) (is_spared s) shared rep = cur.unique a b r.0 s.0 shared rep

-- An admission into a valid and current cache that returns leaves a current cache, in which no
-- event is expired at the time of the admission: no retained event is deleted by a retained one,
-- and each relay has at most one event at a replaceable coordinate.
pub admit-IsCurrent :
    (nostr : Nostr) {Filter : Type 0} (cache : MemoryEventCache Filter) (incoming : RelayEvent)
    (now : Timestamp) {after : MemoryEventCache Filter} {b : Bool}
    → IsNip01 nostr
    → IsValidCache nostr cache
    → IsCurrent nostr cache.state.events
    → admit nostr cache incoming now ≡ ok (after, b)
    → IsCurrent nostr after.state.events
      × All (λ e. event_is_expired e.1.event.tags now ≡ false) after.state.events
admit-IsCurrent nostr cache incoming now {after} law valid cur h = (
  record {
    undeleted =
        λ d t i j. undeleted_after nostr cache incoming now valid cur d t (from d i) (from t j);
    unique =
        λ a b i j. unique_after nostr cache incoming now valid cur law a b (from a i) (from b j);
  },
  All-of_In _ after.state.events
      (λ e i. live_after nostr cache incoming now valid cur e (from e i)),
)
  where
    from : (e : Entry) → In e after.state.events → Admitted nostr cache incoming now e
    from e i = admit-Admitted nostr cache incoming now e h i
