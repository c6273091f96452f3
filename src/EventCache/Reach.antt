-- ===== src/EventCache/Reach.antt =====
-- crates/fava-event-cache and crates/fava-event-cache-memory: every cache that its calls can reach.
use fava.Base.{
  ℕ, Bool, true, false, ◌||◌, ◌≡◌, ◌⊎◌, inl, inr, refl, arith, List, In, ok, In-map, ◌∙◌,
  Bool-cases,
}
use fava.Nostr.{Nostr, IsNip01, Timestamp}
use fava.State.Mutations.{mutations_for_expiration, upsert, retraction, expired}
use fava.EventCache.Memory.{MemoryEventCache, bounded, retain_source_coverage}
use fava.EventCache.Contract.{admit_mutations, expire}
use fava.EventCache.Entries.{Entry}
use fava.EventCache.Admission.{IsCurrent}
use fava.EventCache.Invariant.{IsValidCache, transact-IsValid, published-IsValid}
use fava.EventCache.Origins.{transact-Origin}
use fava.EventCache.Currency.{admit-transact, admit-IsCurrent}
use fava.EventCache.Steps.{
  Step, admits, expires, retains_coverage, transacts, commits, Reach, start, then, is_direct,
  any_direct, commit-steps,
}
use fava.EventCache.Published.{IsPublished, Reach-IsPublished}

neither : (a b : Bool) → (a || b) ≡ false → (a ≡ false) × (b ≡ false)
neither a b h = ground arith

IsCurrent-subset :
    (nostr : Nostr) (before after : List Entry)
    → IsCurrent nostr before
    → ((e : Entry) → In e after → In e before)
    → IsCurrent nostr after
IsCurrent-subset nostr before after cur sub = record {
  undeleted = λ d t i j. cur.undeleted d t (sub d i) (sub t j);
  unique = λ a b i j. cur.unique a b (sub a i) (sub b j);
}

module _ (nostr : Nostr) {Filter : Type 0} where
  -- What an expiry leaves was there before.
  expire-In :
      (e : Entry) (cache : MemoryEventCache Filter) (now : Timestamp)
      {after : MemoryEventCache Filter} {n : ℕ}
      → expire nostr cache now ≡ ok (after, n)
      → In e after.state.events
      → In e cache.state.events
  unfolding expire mutations_for_expiration
  expire-In e cache now h i =
      elim (transact-Origin nostr cache e (λ current. mutations_for_expiration current now) h i) [
        | inl (j, _, _) ↦
            let (known, _, p) = In-map (upsert e.1) (retraction expired) _ j in
            absurd (ground arith)
        | inr (j, _) ↦ j
      ]

module _ (nostr : Nostr) {Filter : Type 0} (same_filter : Filter → Filter → Bool) where
  Step-IsValid :
      {cache after : MemoryEventCache Filter}
      → IsValidCache nostr cache
      → Step nostr same_filter cache after
      → IsValidCache nostr after × (after.capacity ≡ cache.capacity)
  unfolding expire retain_source_coverage
  Step-IsValid {cache} good (admits incoming now h) =
      let (n, p) = admit-transact nostr cache incoming now h in
      transact-IsValid nostr cache (admit_mutations nostr incoming now) good p
  Step-IsValid {cache} good (expires now h) =
      transact-IsValid nostr cache (λ current. mutations_for_expiration current now) good h
  Step-IsValid good (retains_coverage coverage) = (good, refl)
  Step-IsValid {cache} good (transacts decide h) = transact-IsValid nostr cache decide good h
  Step-IsValid {cache} good (commits mutations h) =
      let (next, p, q) = commit-steps nostr cache mutations h in
      published-IsValid nostr cache mutations good p q

  Step-IsCurrent :
      IsNip01 nostr
      → {cache after : MemoryEventCache Filter} → IsValidCache nostr cache
      → IsCurrent nostr cache.state.events
      → (step : Step nostr same_filter cache after) → is_direct nostr same_filter step ≡ false
      → IsCurrent nostr after.state.events
  unfolding retain_source_coverage
  Step-IsCurrent law {cache} good current (admits incoming now h) own =
      (admit-IsCurrent nostr cache incoming now law good current h).0
  Step-IsCurrent law {cache} good current (expires now {after} h) own =
      IsCurrent-subset nostr cache.state.events after.state.events current
        (λ e i. expire-In nostr e cache now h i)
  Step-IsCurrent law good current (retains_coverage coverage) own = current
  Step-IsCurrent law good current (transacts decide h) own = absurd (ground (arith, own))
  Step-IsCurrent law good current (commits mutations h) own = absurd (ground (arith, own))

  Reach-IsValid :
      (capacity : ℕ) {cache : MemoryEventCache Filter}
      → Reach nostr same_filter (bounded capacity) cache
      → IsValidCache nostr cache × (cache.capacity ≡ capacity)
  unfolding bounded
  Reach-IsValid capacity start = (
    record {
      within_capacity = omega arith;
      distinct = tt;
      keyed = λ e i. elim i [ ];
      verified = λ e i. elim i [ ];
    },
    refl,
  )
  Reach-IsValid capacity (then reach step) =
      let (good, c) = Reach-IsValid capacity reach in
      let (better, d) = Step-IsValid good step in (better, d ∙ c)

  pub Reach-IsCurrent :
      IsNip01 nostr
      → (capacity : ℕ) {cache : MemoryEventCache Filter}
      → (reach : Reach nostr same_filter (bounded capacity) cache)
      → any_direct nostr same_filter reach ≡ false
      → IsCurrent nostr cache.state.events
  unfolding bounded
  Reach-IsCurrent law capacity start own = record {
    undeleted = λ d t i. elim i [ ];
    unique = λ a b i. elim i [ ];
  }
  Reach-IsCurrent law capacity (then reach step) own =
      let (before, last) =
        neither (any_direct nostr same_filter reach) (is_direct nostr same_filter step) own in
      Step-IsCurrent law (Reach-IsValid capacity reach).0
        (Reach-IsCurrent law capacity reach before) step last

  -- What is claimed of every cache that the calls reach.
  pub record IsCoherent (capacity : ℕ) {cache : MemoryEventCache Filter}
      (reach : Reach nostr same_filter (bounded capacity) cache) : Type 0 where
    pub valid : IsValidCache nostr cache
    pub same_capacity : cache.capacity ≡ capacity
    pub published : IsPublished cache
    pub current : (any_direct nostr same_filter reach ≡ true) ⊎ IsCurrent nostr cache.state.events

  -- Where the crate keeps to NIP-01, every cache that admissions, expiries, retained coverages,
  -- transactions and commits reach from an empty cache of a capacity has that capacity and holds no
  -- more entries than it, no key twice, each entry verified and under its own key, and the snapshot
  -- that its observers were sent last is that of its state. Unless one of the calls was a direct
  -- transaction or commit, whose mutations are the caller's, it also holds no event that a retained
  -- event deletes, and at most one event of a relay at a replaceable coordinate.
  pub Reach-IsCoherent :
      IsNip01 nostr
      → (capacity : ℕ) {cache : MemoryEventCache Filter}
      → (reach : Reach nostr same_filter (bounded capacity) cache) → IsCoherent capacity reach
  Reach-IsCoherent law capacity reach =
      let (valid, same) = Reach-IsValid capacity reach in
      record {
        valid = valid;
        same_capacity = same;
        published = Reach-IsPublished nostr same_filter capacity reach;
        current = elim (Bool-cases (any_direct nostr same_filter reach)) [
          | inl direct ↦ inl direct
          | inr own ↦ inr (Reach-IsCurrent law capacity reach own)
        ];
      }
