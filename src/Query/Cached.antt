-- ===== src/Query/Cached.antt =====
-- crates/fava-event-cache-memory/src/lib.rs, `open`, and crates/fava-query-standard/src/lib.rs: a
-- query over the event cache, beside other sources.
use fava.Base.{
  ℕ, ◌≡◌, refl, Bool, true, false, ok, some, List, [], ◌∷◌, map, length, In, inl, inr, map_of_In,
  subst, sym, Bool-cases,
}
use fava.Nostr.{Nostr}
use fava.State.Contribution.{RelayEvent}
use fava.EventCache.Memory.{MemoryEventCache, CacheKey, bounded, snapshot}
use fava.EventCache.Steps.{Reach}
use fava.EventCache.Published.{Reach-IsPublished}
use fava.Query.Types.{
  Query, SourceSnapshot, SourceEvent, from_relay, event_cache, open_source, EventRecord,
  QuerySnapshot, matches_nothing, evaluated,
}
use fava.Query.Evaluate.{
  TagReader, evaluate, relay_qualifies, merge_sources, into_records, selected,
}
use fava.Query.Merged.{AllStable, IsStable}
use fava.Query.Winners.{at, NotNewer}
use fava.Query.Chosen.{IsAnswer, matching, selected-IsAnswer}
use fava.Query.Contributed.{sources-records}

-- What `open` hands out first: the snapshot that the cache sent last.
abbrev pub open_cache : {Filter : Type 0} → MemoryEventCache Filter → SourceSnapshot
open_cache cache = record {
  kind = event_cache;
  revision = cache.latest.revision;
  status = open_source;
  events = map from_relay cache.latest.events;
  retractions = cache.latest.retractions;
}

relays-IsStable :
    (events : List RelayEvent) (x : SourceEvent) → In x (map from_relay events) → IsStable x
relays-IsStable [] x i = elim i [ ]
relays-IsStable (r ∷ events) x (inl e) = subst IsStable e tt
relays-IsStable (r ∷ events) x (inr i) = relays-IsStable events x i

module _ (nostr : Nostr) (reader : TagReader) (query : Query) where
  -- Where the answer to a query leaves a record: it was not asked for, or a record at its coordinate
  -- answers that is not older, or the answer is as long as it may be.
  pub data IsAnswered (answer : List EventRecord) (r : EventRecord) : Type 0 where
    unasked : matching nostr reader query r ≡ false → IsAnswered answer r
    answered :
        (w : EventRecord)
        → In w answer
        → at nostr reader w ≡ at nostr reader r
        → NotNewer r w
        → IsAnswered answer r
    full : (n : ℕ) → query.limit ≡ some n → length answer ≡ n → IsAnswered answer r

  IsAnswer-IsAnswered :
      {records answer : List EventRecord} (r : EventRecord)
      → IsAnswer nostr reader query records answer
      → In r records
      → IsAnswered answer r
  IsAnswer-IsAnswered r good i = elim (Bool-cases (matching nostr reader query r)) [
    | inr not_asked ↦ unasked not_asked
    | inl asked ↦ elim (good.complete r i asked) [
      | inl (w, j, same) ↦ answered w j same (good.newest r w i asked j (sym same))
      | inr (n, limit, long) ↦ full n limit long
    ]
  ]

  evaluate-total :
      (sources : List SourceSnapshot) (records : List EventRecord)
      → matches_nothing query ≡ false
      → into_records (merge_sources query [] sources) ≡ ok records
      → evaluate nostr reader query sources
        ≡ ok (evaluated (selected nostr reader query records) sources)
  unfolding evaluate
  evaluate-total sources records can_match made = rw (can_match, made) refl

  module _ {Filter : Type 0} (same_filter : Filter → Filter → Bool) where
    opened-AllStable :
        (cache : MemoryEventCache Filter) (others : List SourceSnapshot)
        → AllStable query others
        → AllStable query (open_cache cache ∷ others)
    opened-AllStable cache others stable source x (inl e) i =
        relays-IsStable cache.latest.events x
          (subst (λ (s : SourceSnapshot). In x s.events) (sym e) i)
    opened-AllStable cache others stable source x (inr k) i = stable source x k i

    opened-holds :
        (capacity : ℕ) {cache : MemoryEventCache Filter} (key : CacheKey) (x : RelayEvent)
        → Reach nostr same_filter (bounded capacity) cache
        → In (key, x) cache.state.events
        → In (from_relay x) (open_cache cache).events
    unfolding snapshot
    opened-holds capacity {cache} key x reach i = map_of_In x from_relay cache.latest.events (
        subst (λ told. In x told.events) (Reach-IsPublished nostr same_filter capacity reach)
          (map_of_In (key, x) (λ e. e.1) cache.state.events i))

    -- A query that can match, over a cache that admissions, expiries, retained coverages, transactions
    -- and commits have brought about from an empty one, and over any other sources
    -- whose local events have their identities, is answered. Each event that the cache holds and that
    -- qualifies is in a record of its identity that is not asked for, that a record in the answer at
    -- the same coordinate is not older than, or that the limit of the answer leaves no room for.
    pub cached-IsAnswered :
        (capacity : ℕ) {cache : MemoryEventCache Filter} (others : List SourceSnapshot)
        (key : CacheKey) (x : RelayEvent)
        → Reach nostr same_filter (bounded capacity) cache
        → AllStable query others
        → matches_nothing query ≡ false
        → In (key, x) cache.state.events
        → relay_qualifies query x ≡ true
        → (out : QuerySnapshot) × (records : List EventRecord) × (r : EventRecord) × (evaluate nostr
              reader query
              (open_cache cache ∷ others)
            ≡ ok out)
          × (into_records (merge_sources query [] (open_cache cache ∷ others)) ≡ ok records)
          × In r records
          × (r.id ≡ x.event.id)
          × IsAnswered out.events r
    unfolding evaluated
    cached-IsAnswered capacity {cache} others key x reach stable can_match i qualifies =
        let sources = open_cache cache ∷ others in
        let (records, made, each) =
          sources-records query sources (opened-AllStable cache others stable) in
        let (r, j, same, _) =
          each (open_cache cache) x (inl refl) (opened-holds capacity key x reach i) qualifies in
        (
          evaluated (selected nostr reader query records) sources,
          records,
          r,
          evaluate-total sources records can_match made,
          made,
          j,
          same,
          IsAnswer-IsAnswered r (selected-IsAnswer nostr reader query records) j,
        )
