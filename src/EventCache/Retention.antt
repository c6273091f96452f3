-- ===== src/EventCache/Retention.antt =====
-- crates/fava-event-cache-memory/src/lib.rs, `apply`: what the bound may not push out, and what is
-- reported as removed.
use fava.Base.{
  ℕ, true, ◌≡◌, inl, inr, refl, arith, List, [], ◌∷◌, ok, >>=-eq-ok, subst, some, Bool-cases,
  Option-cases, ◌∙◌, ap,
}
use fava.BTreeMap.{BTreeMap, pair_key, pair_beq_iff, get, insert, get-insert, get-remove, In-get}
use fava.BTreeMap.Distinct.{get_of_In}
use fava.Nostr.{Nostr, IsNip01}
use fava.State.Contribution.{RelayEvent}
use fava.State.Mutations.{EventStateMutation, upsert, retract}
use fava.EventCache.Memory.{
  CacheKey, key_of, CacheState, drop_entry, sort_out, store, store_all, apply, is_deletion,
  settle_coverage,
}
use fava.EventCache.Entries.{Spares}
use fava.EventCache.Rounds.{
  Round, as_it_was, seen_earlier, added, MadeRoom, had_room, evicted_oldest, store-Round,
}
use fava.EventCache.Invariant.{
  IsValid, MadeRoom-IsValid, Round-IsValid, sort_out-IsValid, settled-events,
}

-- Under the key stands a deletion.
abbrev pub HoldsDeletion : Nostr → BTreeMap CacheKey RelayEvent → CacheKey → Type 0
HoldsDeletion nostr m k = (d : RelayEvent) × (get k m ≡ some d) × (is_deletion nostr d ≡ true)

put-holds :
    (nostr : Nostr) (capacity : ℕ) (k : CacheKey) (u : RelayEvent)
    (m : BTreeMap CacheKey RelayEvent)
    → IsNip01 nostr
    → IsValid nostr capacity m
    → nostr.verify u.event ≡ true
    → HoldsDeletion nostr m k
    → HoldsDeletion nostr (insert (key_of u) u m) k
put-holds nostr capacity k u m law v good (d, p, q) =
    elim (Bool-cases (pair_key.beq (key_of u) k)) [
      | inr other ↦ (d, rw (get-insert (key_of u) k u m, other) p, q)
      | inl same ↦
          let i = In-get k m p in
          let keyed : k ≡ key_of d = v.keyed (k, d) i in
          let at : key_of u ≡ k = (pair_beq_iff (key_of u) k).0 same in
          let kinds =
            law.binds u.event d.event good (v.verified (k, d) i)
              (ap (λ (x : CacheKey). x.0) (at ∙ keyed)) in
          (u, rw (get-insert (key_of u) k u m, same) refl, ground (arith, q, kinds.2))
    ]

module _ (nostr : Nostr) {Filter : Type 0} (capacity : ℕ) (k : CacheKey) where
  MadeRoom-holds :
      (u : RelayEvent) {next roomy : CacheState Filter}
      → IsValid nostr capacity next.events
      → MadeRoom nostr capacity u next roomy
      → HoldsDeletion nostr next.events k
      → HoldsDeletion nostr roomy.events k
  MadeRoom-holds u v (had_room room) h = h
  MadeRoom-holds u {next} v (evicted_oldest oldest d o i lower) (x, p, q) = (
    x,
    ground (
      arith,
      get-remove oldest.0 k next.events,
      get_of_In oldest next.events v.distinct i,
      pair_beq_iff oldest.0 k,
    ),
    q,
  )

  module _ (law : IsNip01 nostr) where
    Round-holds :
        (u : RelayEvent) {next after : CacheState Filter}
        → nostr.verify u.event ≡ true
        → IsValid nostr capacity next.events
        → Round nostr capacity u next after
        → HoldsDeletion nostr next.events k
        → HoldsDeletion nostr after.events k
    Round-holds u good v (as_it_was there) h = h
    Round-holds u {next} good v (seen_earlier there) h =
        put-holds nostr capacity k u next.events law v good h
    Round-holds u good v (added {roomy} absent made) h =
        put-holds nostr capacity k u roomy.events law (MadeRoom-IsValid nostr capacity u v made).0
          good (MadeRoom-holds u v made h)

    store_all-holds :
        (us : List RelayEvent) (next : CacheState Filter) {after : CacheState Filter}
        → IsValid nostr capacity next.events
        → store_all nostr capacity us next ≡ ok after
        → HoldsDeletion nostr next.events k
        → HoldsDeletion nostr after.events k
    unfolding store_all
    store_all-holds [] next {after} v h (d, p, q) = (d, ground (arith, p), q)
    store_all-holds (u ∷ us) next v h held =
        let (mid, p, q) = >>=-eq-ok (store nostr capacity u next) (store_all nostr capacity us) h in
        let (round, good) = store-Round nostr capacity u next p in
        store_all-holds us mid (Round-IsValid nostr capacity u good v round) q
          (Round-holds u good v round held)

  sort_out-holds :
      (ms : List EventStateMutation) (next : CacheState Filter)
      → Spares ms k
      → HoldsDeletion nostr next.events k
      → HoldsDeletion nostr (sort_out next ms).0.events k
  unfolding sort_out
  sort_out-holds [] next spared h = h
  sort_out-holds (upsert u ∷ ms) next spared h =
      sort_out-holds ms next (λ i s c j. spared i s c (inr j)) h
  sort_out-holds (retract id session cause ∷ ms) next spared (d, p, q) =
      sort_out-holds ms (drop_entry id session cause next) (λ i s c j. spared i s c (inr j))
        (d, dropped, q)
    where
      dropped : get k (drop_entry id session cause next).events ≡ some d
      dropped = elim (Option-cases (get (id, session) next.events)) [
        | inl miss ↦ rw (miss, drop_entry) p
        | inr (w, hit) ↦
            rw (hit, drop_entry)
              (ground (
                arith,
                get-remove (id, session) k next.events,
                pair_beq_iff (id, session) k,
                spared id session cause (inl refl),
              ))
      ]

  -- A retained deletion stays retained through any mutations that do not retract it, whatever room
  -- the cache has to make.
  pub apply-keeps_deletion :
      (current : CacheState Filter) (ms : List EventStateMutation) {next : CacheState Filter}
      → IsNip01 nostr
      → IsValid nostr capacity current.events
      → Spares ms k
      → HoldsDeletion nostr current.events k
      → apply nostr capacity current ms ≡ ok next
      → HoldsDeletion nostr next.events k
  unfolding apply
  apply-keeps_deletion current ms {next} law v spared held h =
      let start = record current { retractions = [] } in
      let sorted = sort_out start ms in
      let (stored_all, p, q) =
        >>=-eq-ok (store_all nostr capacity sorted.1 sorted.0)
          (λ stored_all. ok (settle_coverage nostr current stored_all)) h in
      subst (λ m. HoldsDeletion nostr m k) (settled-events nostr current stored_all q)
        (store_all-holds law sorted.1 sorted.0 (sort_out-IsValid nostr capacity ms start v) p
          (sort_out-holds ms start spared held))
