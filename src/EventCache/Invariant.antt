-- ===== src/EventCache/Invariant.antt =====
-- crates/fava-event-cache-memory/src/lib.rs: what holds of a cache between two calls.
use fava.Base.{
  ℕ, true, ◌≡◌, ◌⊎◌, inl, inr, refl, ◌<◌, ◌≤◌, arith, List, [], ◌∷◌, In, Result, ok, ◌>>=◌,
  >>=-eq-ok, Bool-cases, Option-cases, length, ap, sym, subst, ◌==◌,
}
use fava.BTreeMap.{
  BTreeMap, pair_key, values, get, insert, remove, length-insert, length-remove-le,
  length-remove-lt, In-insert, In-remove,
}
use fava.BTreeMap.Distinct.{Distinct, Distinct-insert, Distinct-remove, get_of_In}
use fava.Nostr.{Nostr}
use fava.State.Contribution.{RelayEvent}
use fava.State.Mutations.{EventStateMutation, upsert, retract}
use fava.EventCache.Source.{EventCacheError}
use fava.EventCache.Memory.{
  CacheKey, key_of, CacheState, MemoryEventCache, drop_entry, sort_out, store, store_all, apply,
  settle_coverage, transact, publish,
}
use fava.EventCache.Entries.{Entry}
use fava.EventCache.Rounds.{
  Round, as_it_was, seen_earlier, added, MadeRoom, had_room, evicted_oldest, store-Round,
}

pub record IsValid (nostr : Nostr) (capacity : ℕ) (events : BTreeMap CacheKey RelayEvent)
    : Type 0 where
  pub within_capacity : length events ≤ capacity
  pub distinct : Distinct events
  pub keyed : (e : Entry) → In e events → e.0 ≡ key_of e.1
  pub verified : (e : Entry) → In e events → nostr.verify e.1.event ≡ true

module _ (nostr : Nostr) {Filter : Type 0} where
  pub settled-events :
      (current stored : CacheState Filter) {next : CacheState Filter}
      → ◌≡◌ {A = Result EventCacheError (CacheState Filter)}
          (ok (settle_coverage nostr current stored))
          (ok next)
      → stored.events ≡ next.events
  settled-events current stored h = ground arith

  pub published-events :
      (cache : MemoryEventCache Filter) (next : CacheState Filter) {after : MemoryEventCache Filter}
      → publish nostr cache next ≡ ok after
      → next.events ≡ after.state.events
  unfolding publish
  published-events cache next h = ground arith

module _ (nostr : Nostr) (capacity : ℕ) where
  Valid-remove :
      (k : CacheKey) (m : BTreeMap CacheKey RelayEvent)
      → IsValid nostr capacity m
      → IsValid nostr capacity (remove k m)
  Valid-remove k m v = record {
    within_capacity = omega (arith, v.within_capacity, length-remove-le k m);
    distinct = Distinct-remove k m v.distinct;
    keyed = λ e i. v.keyed e (In-remove e k m i).0;
    verified = λ e i. v.verified e (In-remove e k m i).0;
  }

  Valid-insert :
      (u : RelayEvent) (m : BTreeMap CacheKey RelayEvent)
      → nostr.verify u.event ≡ true
      → length (insert (key_of u) u m) ≤ capacity
      → IsValid nostr capacity m
      → IsValid nostr capacity (insert (key_of u) u m)
  Valid-insert u m good bound v = record {
    within_capacity = bound;
    distinct = Distinct-insert (key_of u) u m v.distinct;
    keyed = λ e i. elim (In-insert e (key_of u) u m i) [
      | inl p ↦ subst (λ (e : Entry). e.0 ≡ key_of e.1) p refl
      | inr j ↦ v.keyed e j
    ];
    verified = λ e i. elim (In-insert e (key_of u) u m i) [
      | inl p ↦ subst (λ (e : Entry). nostr.verify e.1.event ≡ true) p good
      | inr j ↦ v.verified e j
    ];
  }

  module _ {Filter : Type 0} where
    pub MadeRoom-IsValid :
        (incoming : RelayEvent) {next roomy : CacheState Filter}
        → IsValid nostr capacity next.events
        → MadeRoom nostr capacity incoming next roomy
        → IsValid nostr capacity roomy.events × (length roomy.events < capacity)
    MadeRoom-IsValid incoming v (had_room room) = (v, room)
    MadeRoom-IsValid incoming {next} v (evicted_oldest oldest d o i lower) = (
      Valid-remove oldest.0 next.events v,
      omega (
        arith,
        v.within_capacity,
        length-remove-lt oldest.0 next.events (get_of_In oldest next.events v.distinct i),
      ),
    )

    pub Round-IsValid :
        (incoming : RelayEvent) {next after : CacheState Filter}
        → nostr.verify incoming.event ≡ true
        → IsValid nostr capacity next.events
        → Round nostr capacity incoming next after
        → IsValid nostr capacity after.events
    Round-IsValid incoming good v (as_it_was there) = v
    Round-IsValid incoming {next} good v (seen_earlier there) =
        Valid-insert incoming next.events good
          (ground (arith, v.within_capacity, length-insert (key_of incoming) incoming next.events))
          v
    Round-IsValid incoming good v (added {roomy} absent made) =
        let (w, room) = MadeRoom-IsValid incoming v made in
        Valid-insert incoming roomy.events good
          (ground (arith, room, length-insert (key_of incoming) incoming roomy.events)) w

    store_all-IsValid :
        (upserts : List RelayEvent) (next : CacheState Filter) {after : CacheState Filter}
        → IsValid nostr capacity next.events
        → store_all nostr capacity upserts next ≡ ok after
        → IsValid nostr capacity after.events
    unfolding store_all
    store_all-IsValid [] next v h = subst (IsValid nostr capacity) (ground arith) v
    store_all-IsValid (u ∷ us) next v h =
        let (mid, p, q) = >>=-eq-ok (store nostr capacity u next) (store_all nostr capacity us) h in
        let (round, good) = store-Round nostr capacity u next p in
        store_all-IsValid us mid (Round-IsValid u good v round) q

    pub sort_out-IsValid :
        (ms : List EventStateMutation) (next : CacheState Filter)
        → IsValid nostr capacity next.events
        → IsValid nostr capacity (sort_out next ms).0.events
    unfolding sort_out
    sort_out-IsValid [] next v = v
    sort_out-IsValid (upsert u ∷ ms) next v = sort_out-IsValid ms next v
    sort_out-IsValid (retract id session cause ∷ ms) next v =
        sort_out-IsValid ms (drop_entry id session cause next) dropped
      where
        dropped : IsValid nostr capacity (drop_entry id session cause next).events
        dropped = elim (Option-cases (get (id, session) next.events)) [
          | inl miss ↦ rw (miss, drop_entry) v
          | inr (w, hit) ↦ rw (hit, drop_entry) (Valid-remove (id, session) next.events v)
        ]

    pub apply-IsValid :
        (current : CacheState Filter) (ms : List EventStateMutation) {next : CacheState Filter}
        → IsValid nostr capacity current.events
        → apply nostr capacity current ms ≡ ok next
        → IsValid nostr capacity next.events
    unfolding apply
    apply-IsValid current ms {next} v h =
        let start = record current { retractions = [] } in
        let sorted = sort_out start ms in
        let (stored, p, q) =
          >>=-eq-ok (store_all nostr capacity sorted.1 sorted.0)
            (λ stored. ok (settle_coverage nostr current stored)) h in
        subst (IsValid nostr capacity) (settled-events nostr current stored q)
          (store_all-IsValid sorted.1 sorted.0 (sort_out-IsValid ms start v) p)

    publish-IsValid :
        (cache : MemoryEventCache Filter) (next : CacheState Filter)
        {after : MemoryEventCache Filter}
        → IsValid nostr capacity next.events
        → publish nostr cache next ≡ ok after
        → IsValid nostr capacity after.state.events × (after.capacity ≡ cache.capacity)
    unfolding publish
    publish-IsValid cache next {after} v h =
        (subst (IsValid nostr capacity) (published-events nostr cache next h) v, ground arith)

pub length-zero : (ms : List EventStateMutation) → (length ms == 0) ≡ true → ms ≡ []
length-zero [] h = refl
length-zero (m ∷ ms) h = absurd (ground arith)

-- The state of a cache is valid for its capacity.
abbrev pub IsValidCache : {Filter : Type 0} → Nostr → MemoryEventCache Filter → Type 0
IsValidCache nostr cache = IsValid nostr cache.capacity cache.state.events

module _ (nostr : Nostr) {Filter : Type 0} (cache : MemoryEventCache Filter) where
  -- A transaction that returns changed nothing, or applied and published its mutations.
  pub transact-steps :
      (decide : List RelayEvent → List EventStateMutation) {after : MemoryEventCache Filter} {n : ℕ}
      → transact nostr cache decide ≡ ok (after, n)
      → ((cache ≡ after) × (decide (values cache.state.events) ≡ []))
        ⊎ ((next : CacheState Filter) × (apply nostr cache.capacity cache.state
                (decide (values cache.state.events))
              ≡ ok next)
            × (publish nostr cache next ≡ ok after))
  unfolding transact
  transact-steps decide {after} {n} h = elim (Bool-cases (length mutations == 0)) [
    | inl idle ↦ inl (ground arith, length-zero mutations idle)
    | inr busy ↦ inr (
        let (next, p, q) =
          >>=-eq-ok (apply nostr cache.capacity cache.state mutations)
            (λ next. publish nostr cache next >>= λ after. ok (after, length mutations))
            {b = (after, n)} (rw busy at h) in
        let (after', r, e) =
          >>=-eq-ok (publish nostr cache next) (λ after. ok (after, length mutations))
            {b = (after, n)} q in
        (next, p, ground arith))
  ]
    where
      mutations : List EventStateMutation
      mutations = decide (values cache.state.events)

  -- Mutations that are applied to a valid cache and published leave a valid one.
  pub published-IsValid :
      (ms : List EventStateMutation) {next : CacheState Filter} {after : MemoryEventCache Filter}
      → IsValidCache nostr cache
      → apply nostr cache.capacity cache.state ms ≡ ok next
      → publish nostr cache next ≡ ok after
      → IsValidCache nostr after × (after.capacity ≡ cache.capacity)
  published-IsValid ms {next} {after} v p q =
      let (w, e) =
        publish-IsValid nostr cache.capacity cache next
          (apply-IsValid nostr cache.capacity cache.state ms v p) q in
      (subst (λ c. IsValid nostr c after.state.events) (sym e) w, e)

  -- A transaction on a valid cache, with any decision, that returns leaves a valid cache of the
  -- same capacity: no more entries than the capacity, no key twice, each entry under the identity
  -- and the relay of its event, and every event verified.
  pub transact-IsValid :
      (decide : List RelayEvent → List EventStateMutation) {after : MemoryEventCache Filter} {n : ℕ}
      → IsValidCache nostr cache
      → transact nostr cache decide ≡ ok (after, n)
      → IsValidCache nostr after × (after.capacity ≡ cache.capacity)
  transact-IsValid decide {after} {n} v h = elim (transact-steps decide h) [
    | inl (e, _) ↦ (subst (IsValidCache nostr) e v, ap (λ c. c.capacity) (sym e))
    | inr (next, p, q) ↦ published-IsValid (decide (values cache.state.events)) v p q
  ]
