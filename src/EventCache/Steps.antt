-- ===== src/EventCache/Steps.antt =====
-- crates/fava-event-cache and crates/fava-event-cache-memory: the calls of a cache that change it,
-- one after another.
use fava.Base.{ℕ, Bool, true, false, ◌||◌, ◌≡◌, List, ok, >>=-eq-ok}
use fava.Nostr.{Nostr, Timestamp}
use fava.State.Contribution.{RelayEvent}
use fava.State.Mutations.{EventStateMutation}
use fava.EventCache.Source.{SourceCoverage}
use fava.EventCache.Memory.{
  CacheState, MemoryEventCache, apply, publish, commit, transact, retain_source_coverage,
}
use fava.EventCache.Contract.{admit, expire}

module _ (nostr : Nostr) {Filter : Type 0} (same_filter : Filter → Filter → Bool) where
  -- The calls of the contract that return and may change the cache, with whatever they are given.
  pub data Step (cache : MemoryEventCache Filter) : MemoryEventCache Filter → Type 0 where
    admits :
        (incoming : RelayEvent) (now : Timestamp) {after : MemoryEventCache Filter} {b : Bool}
        → admit nostr cache incoming now ≡ ok (after, b)
        → Step cache after
    expires :
        (now : Timestamp) {after : MemoryEventCache Filter} {n : ℕ}
        → expire nostr cache now ≡ ok (after, n)
        → Step cache after
    retains_coverage :
        (coverage : SourceCoverage Filter)
        → Step cache (retain_source_coverage same_filter cache coverage)
    transacts :
        (decide : List RelayEvent → List EventStateMutation) {after : MemoryEventCache Filter}
        {n : ℕ}
        → transact nostr cache decide ≡ ok (after, n)
        → Step cache after
    commits :
        (mutations : List EventStateMutation) {after : MemoryEventCache Filter}
        → commit nostr cache mutations ≡ ok after
        → Step cache after

  pub data Reach (cache : MemoryEventCache Filter) : MemoryEventCache Filter → Type 0 where
    start : Reach cache cache
    then :
        {mid after : MemoryEventCache Filter} → Reach cache mid → Step mid after → Reach cache after

  -- The mutations of a step are the caller's own, and not those that the state component asks for.
  abbrev pub is_direct : {cache after : MemoryEventCache Filter} → Step cache after → Bool
  is_direct (admits _ _ _) = false
  is_direct (expires _ _) = false
  is_direct (retains_coverage _) = false
  is_direct (transacts _ _) = true
  is_direct (commits _ _) = true

  abbrev pub any_direct : {cache after : MemoryEventCache Filter} → Reach cache after → Bool
  any_direct start = false
  any_direct (then reach step) = any_direct reach || is_direct step

module _ (nostr : Nostr) {Filter : Type 0} where
  pub commit-steps :
      (cache : MemoryEventCache Filter) (ms : List EventStateMutation)
      {after : MemoryEventCache Filter}
      → commit nostr cache ms ≡ ok after
      → (next : CacheState Filter) × (apply nostr cache.capacity cache.state ms ≡ ok next)
        × (publish nostr cache next ≡ ok after)
  unfolding commit
  commit-steps cache ms h =
      >>=-eq-ok (apply nostr cache.capacity cache.state ms) (publish nostr cache) h
