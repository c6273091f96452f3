-- ===== src/EventCache/Memory.antt =====
-- crates/fava-event-cache-memory/src/lib.rs: `MemoryEventCache`. A method that changes the cache
-- under its lock is a function to the new cache; the watch channel is the snapshot sent last.
use fava.Base.{
  ℕ, ◌+◌, ◌^◌, Bool, true, false, not, ◌&&◌, ◌||◌, Option, none, some, List, [], ◌∷◌, ◌++◌, ltb,
  leb, ◌==◌, if◌then◌else◌, Result, ok, err, ◌>>=◌, length, find, keep,
}
use fava.BTreeMap.{BTreeMap, nat_key, pair_key, get, insert, remove, values}
use fava.Nostr.{EventId, RelayUrl, Nostr}
use fava.State.Contribution.{RelayEvent, Authority, unauthenticated, as_account}
use fava.State.Mutations.{EventStateMutation, upsert, retract, RetractionCause, evicted, age}
use fava.EventCache.Source.{
  SourceRetraction, SourceCoverage, SourceSnapshot, empty_snapshot, EventCacheError,
  invalid_signed_event, capacity_reached, holds_only_deletions, revision_exhausted,
}

abbrev pub CacheKey : Type 0
CacheKey = EventId × RelayUrl

abbrev pub key_of : RelayEvent → CacheKey
key_of known = (known.event.id, known.occurrence.session)

pub record CacheState (Filter : Type 0) : Type 0 where
  pub revision : ℕ
  pub events : BTreeMap CacheKey RelayEvent
  pub retractions : List SourceRetraction
  pub coverage : List (SourceCoverage Filter)

pub record MemoryEventCache (Filter : Type 0) : Type 0 where
  pub capacity : ℕ
  pub state : CacheState Filter
  pub latest : SourceSnapshot

module _ {Filter : Type 0} where
  unfoldable pub snapshot : CacheState Filter → SourceSnapshot
  snapshot state = record {
    revision = state.revision;
    events = values state.events;
    retractions = state.retractions;
  }

  -- One removal, reported only if it removed something.
  unfoldable pub drop_entry :
      EventId → RelayUrl → RetractionCause → CacheState Filter → CacheState Filter
  drop_entry event_id session cause next = elim (get (event_id, session) next.events) [
    | none ↦ next
    | some _ ↦ record next {
      events = remove (event_id, session) next.events;
      retractions = next.retractions ++ (record { event_id = event_id; cause = cause } ∷ []);
    }
  ]

  -- The loop over the mutations: removals are made at once, the rest is gathered.
  unfoldable pub sort_out :
      CacheState Filter → List EventStateMutation → CacheState Filter × List RelayEvent
  unfolding drop_entry
  sort_out next [] = (next, [])
  sort_out next (retract event_id session cause ∷ mutations) =
      sort_out (drop_entry event_id session cause next) mutations
  sort_out next (upsert incoming ∷ mutations) =
      let (after, upserts) = sort_out next mutations in (after, incoming ∷ upserts)

  abbrev pub put : RelayEvent → CacheState Filter → CacheState Filter
  put incoming next = record next { events = insert (key_of incoming) incoming next.events }

-- The order of the pairs of a creation time and an identity.
abbrev pub is_less : ℕ × ℕ → ℕ × ℕ → Bool
is_less a b = ltb a.0 b.0 || (a.0 == b.0 && ltb a.1 b.1)

-- `min_by_key` by creation time and identity: the first of the least.
unfoldable pub min_by_age : List (CacheKey × RelayEvent) → Option (CacheKey × RelayEvent)
min_by_age [] = none
min_by_age (entry ∷ entries) = elim (min_by_age entries) [
  | none ↦ some entry
  | some least ↦ some (if is_less (age least.1) (age entry.1) then least else entry)
]

abbrev pub authority_eq : Authority → Authority → Bool
authority_eq unauthenticated unauthenticated = true
authority_eq (as_account a) (as_account b) = a == b
authority_eq _ _ = false

module _ (nostr : Nostr) where
  -- `PartialEq` of the retained events, entry by entry.
  abbrev pub relay_event_eq : RelayEvent → RelayEvent → Bool
  relay_event_eq a b =
      nostr.same a.event b.event
      && a.occurrence.session == b.occurrence.session
      && authority_eq a.occurrence.authority b.occurrence.authority
      && a.occurrence.observed_at == b.occurrence.observed_at

  unfoldable pub events_eq : BTreeMap CacheKey RelayEvent → BTreeMap CacheKey RelayEvent → Bool
  events_eq [] [] = true
  events_eq ((i, a) ∷ m) ((j, b) ∷ n) =
      i.0 == j.0 && i.1 == j.1 && relay_event_eq a b && events_eq m n
  events_eq _ _ = false

  abbrev pub is_deletion : RelayEvent → Bool
  is_deletion known = known.event.kind == nostr.event_deletion

  module _ {Filter : Type 0} where
    -- The eviction of the oldest event that is no deletion.
    unfoldable pub evict : CacheState Filter → Result EventCacheError (CacheState Filter)
    unfolding min_by_age
    evict next = elim (min_by_age (keep (λ e. not (is_deletion e.1)) next.events)) [
      | none ↦ err holds_only_deletions
      | some entry ↦ ok (record next {
        events = remove entry.0 next.events;
        retractions = next.retractions ++ (record { event_id = entry.0.0; cause = evicted } ∷ []);
      })
    ]

    unfoldable pub make_room :
        ℕ → RelayEvent → CacheState Filter → Result EventCacheError (CacheState Filter)
    unfolding evict
    make_room capacity incoming next =
        if leb capacity (length next.events)
        then (if is_deletion incoming then evict next else err capacity_reached)
        else ok next

    -- One round of the loop over the upserts.
    unfoldable pub store :
        ℕ → RelayEvent → CacheState Filter → Result EventCacheError (CacheState Filter)
    store capacity incoming next =
        if not (nostr.verify incoming.event)
        then err invalid_signed_event
        else elim (get (key_of incoming) next.events) [
          | some retained ↦
              if ltb incoming.occurrence.observed_at retained.occurrence.observed_at
              then ok (put incoming next)
              else ok next
          | none ↦ do roomy ← make_room capacity incoming next; ok (put incoming roomy)
        ]

    unfoldable pub store_all :
        ℕ → List RelayEvent → CacheState Filter → Result EventCacheError (CacheState Filter)
    store_all capacity [] next = ok next
    store_all capacity (incoming ∷ upserts) next = do
      after ← store capacity incoming next
      store_all capacity upserts after

    -- Forgets the coverage if the events changed.
    abbrev pub settle_coverage : CacheState Filter → CacheState Filter → CacheState Filter
    settle_coverage current next =
        if events_eq next.events current.events then next else record next { coverage = [] }

    unfoldable pub apply :
        ℕ → CacheState Filter → List EventStateMutation → Result EventCacheError (CacheState Filter)
    apply capacity current mutations = do
      let sorted = sort_out (record current { retractions = [] }) mutations
      next ← store_all capacity sorted.1 sorted.0
      ok (settle_coverage current next)

    unfoldable pub publish :
        MemoryEventCache Filter
        → CacheState Filter
        → Result EventCacheError (MemoryEventCache Filter)
    unfolding snapshot
    publish cache next =
        if ltb (next.revision + 1) (2 ^ 64)
        then (let counted = record next { revision = next.revision + 1 } in
            ok (record cache { state = counted; latest = snapshot counted }))
        else err revision_exhausted

    unfoldable pub commit :
        MemoryEventCache Filter
        → List EventStateMutation
        → Result EventCacheError (MemoryEventCache Filter)
    commit cache mutations = do
      next ← apply cache.capacity cache.state mutations
      publish cache next

    -- The number of mutations, and the cache after them.
    unfoldable pub transact :
        MemoryEventCache Filter
        → (List RelayEvent → List EventStateMutation)
        → Result EventCacheError (MemoryEventCache Filter × ℕ)
    transact cache decide =
        let mutations = decide (values cache.state.events) in
        if length mutations == 0 then ok (cache, 0) else do
          next ← apply cache.capacity cache.state mutations
          after ← publish cache next
          ok (after, length mutations)

module _ {Filter : Type 0} where
  unfoldable pub bounded : ℕ → MemoryEventCache Filter
  bounded capacity = record {
    capacity = capacity;
    state = record { revision = 0; events = []; retractions = []; coverage = [] };
    latest = empty_snapshot;
  }

  unfoldable pub event : MemoryEventCache Filter → EventId → Option RelayEvent
  event cache id = find (λ known. known.event.id == id) (values cache.state.events)

  unfoldable pub len : MemoryEventCache Filter → ℕ
  len cache = length cache.state.events

  -- Coverage is found and replaced by relay and filter; a new one may push the oldest out.
  module _ (same_filter : Filter → Filter → Bool) where
    abbrev pub is_about : RelayUrl → Filter → SourceCoverage Filter → Bool
    is_about session filter c = c.session == session && same_filter c.filter filter

    unfoldable pub source_coverage :
        MemoryEventCache Filter → RelayUrl → Filter → Option (SourceCoverage Filter)
    source_coverage cache session filter = find (is_about session filter) cache.state.coverage

    unfoldable pub update_coverage :
        SourceCoverage Filter → List (SourceCoverage Filter) → Option (List (SourceCoverage Filter))
    update_coverage new [] = none
    update_coverage new (c ∷ cs) =
        if is_about new.session new.filter c
        then some (new ∷ cs)
        else elim (update_coverage new cs) [ none ↦ none | some ds ↦ some (c ∷ ds) ]

    abbrev pub drop_first : List (SourceCoverage Filter) → List (SourceCoverage Filter)
    drop_first [] = []
    drop_first (_ ∷ cs) = cs

    unfoldable pub retain_source_coverage :
        MemoryEventCache Filter → SourceCoverage Filter → MemoryEventCache Filter
    unfolding update_coverage
    retain_source_coverage cache new =
        let kept = cache.state.coverage in
        let coverage : List (SourceCoverage Filter) = elim (update_coverage new kept) [
          | some updated ↦ updated
          | none ↦ (if leb cache.capacity (length kept) then drop_first kept else kept) ++ new ∷ []
        ] in
        record cache { state = record (cache.state) { coverage = coverage } }
