-- ===== src/EventCache/Contract.antt =====
-- crates/fava-event-cache/src/lib.rs: `admit` and `expire`, which every cache has from `transact`.
use fava.Base.{is_empty, ℕ, Bool, not, List, ◌++◌, Result, ok, ◌>>=◌, keep}
use fava.Nostr.{Nostr, Timestamp}
use fava.State.Contribution.{RelayEvent}
use fava.State.Deletion.{event_is_expired}
use fava.State.Mutations.{EventStateMutation, mutations_for_event, mutations_for_expiration}
use fava.EventCache.Source.{EventCacheError}
use fava.EventCache.Memory.{MemoryEventCache, transact}

abbrev pub live_at : Timestamp → List RelayEvent → List RelayEvent
live_at now current = keep (λ known. not (event_is_expired known.event.tags now)) current

module _ (nostr : Nostr) where
  unfoldable pub admission : List RelayEvent → RelayEvent → Timestamp → List EventStateMutation
  admission current event now = mutations_for_event nostr (live_at now current) event now

  -- What `admit` decides inside its transaction.
  abbrev pub admit_mutations : RelayEvent → Timestamp → List RelayEvent → List EventStateMutation
  admit_mutations event now current =
      mutations_for_expiration current now ++ admission current event now

  module _ {Filter : Type 0} where
    -- The cell that the closure sets is a second answer of the decision.
    unfoldable pub admit :
        MemoryEventCache Filter
        → RelayEvent
        → Timestamp
        → Result EventCacheError (MemoryEventCache Filter × Bool)
    unfolding admission
    admit cache event now = do
      (after, _) ← transact nostr cache (admit_mutations event now)
      ok (after, not (is_empty (admission (fava.BTreeMap.values cache.state.events) event now)))

    unfoldable pub expire :
        MemoryEventCache Filter → Timestamp → Result EventCacheError (MemoryEventCache Filter × ℕ)
    expire cache now = transact nostr cache (λ current. mutations_for_expiration current now)
