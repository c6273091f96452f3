-- ===== src/EventCache/Published.antt =====
-- crates/fava-event-cache-memory/src/lib.rs, `publish`: what observers of a cache were told last.
use fava.Base.{Bool, ℕ, ◌≡◌, inl, inr, refl, arith, List, ok, subst}
use fava.Nostr.{Nostr}
use fava.State.Contribution.{RelayEvent}
use fava.State.Mutations.{EventStateMutation, mutations_for_expiration}
use fava.EventCache.Memory.{
  CacheState, MemoryEventCache, bounded, snapshot, publish, transact, retain_source_coverage,
}
use fava.EventCache.Contract.{admit_mutations, expire}
use fava.EventCache.Invariant.{transact-steps}
use fava.EventCache.Currency.{admit-transact}
use fava.EventCache.Steps.{
  Step, admits, expires, retains_coverage, transacts, commits, Reach, start, then, commit-steps,
}

-- The snapshot sent last is that of the state.
abbrev pub IsPublished : {Filter : Type 0} → MemoryEventCache Filter → Type 0
IsPublished cache = snapshot cache.state ≡ cache.latest

module _ (nostr : Nostr) {Filter : Type 0} where
  publish-IsPublished :
      (cache : MemoryEventCache Filter) (next : CacheState Filter) {after : MemoryEventCache Filter}
      → publish nostr cache next ≡ ok after
      → IsPublished after
  unfolding publish
  publish-IsPublished cache next h = ground arith

  transact-IsPublished :
      (cache : MemoryEventCache Filter) (decide : List RelayEvent → List EventStateMutation)
      {after : MemoryEventCache Filter} {n : ℕ}
      → IsPublished cache
      → transact nostr cache decide ≡ ok (after, n)
      → IsPublished after
  transact-IsPublished cache decide told h = elim (transact-steps nostr cache decide h) [
    | inl (e, _) ↦ subst IsPublished e told
    | inr (next, _, q) ↦ publish-IsPublished cache next q
  ]

  module _ (same_filter : Filter → Filter → Bool) where
    Step-IsPublished :
        {cache after : MemoryEventCache Filter}
        → IsPublished cache
        → Step nostr same_filter cache after
        → IsPublished after
    unfolding expire retain_source_coverage snapshot
    Step-IsPublished {cache} told (admits incoming now h) =
        let (n, p) = admit-transact nostr cache incoming now h in
        transact-IsPublished cache (admit_mutations nostr incoming now) told p
    Step-IsPublished {cache} told (expires now h) =
        transact-IsPublished cache (λ current. mutations_for_expiration current now) told h
    Step-IsPublished told (retains_coverage coverage) = told
    Step-IsPublished {cache} told (transacts decide h) = transact-IsPublished cache decide told h
    Step-IsPublished {cache} told (commits mutations h) =
        let (next, _, q) = commit-steps nostr cache mutations h in publish-IsPublished cache next q

    pub Reach-IsPublished :
        (capacity : ℕ) {cache : MemoryEventCache Filter}
        → Reach nostr same_filter (bounded capacity) cache
        → IsPublished cache
    unfolding bounded snapshot
    Reach-IsPublished capacity start = refl
    Reach-IsPublished capacity (then reach step) =
        Step-IsPublished (Reach-IsPublished capacity reach) step
