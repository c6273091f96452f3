-- ===== src/EventCache/Origins.antt =====
-- crates/fava-event-cache-memory/src/lib.rs, `apply`: where the entries of the next state are from.
use fava.Base.{
  ℕ, true, ◌≡◌, ◌⊎◌, inl, inr, refl, arith, List, [], ◌∷◌, In, ok, >>=-eq-ok, subst, sym,
}
use fava.BTreeMap.{pair_key, values, insert, In-insert, In-remove}
use fava.Nostr.{Nostr}
use fava.State.Contribution.{RelayEvent}
use fava.State.Mutations.{EventStateMutation, upsert}
use fava.EventCache.Memory.{
  key_of, CacheState, MemoryEventCache, sort_out, store, store_all, apply, settle_coverage,
  transact,
}
use fava.EventCache.Entries.{Entry, Spares, In-sort_out, upserts-sort_out}
use fava.EventCache.Rounds.{
  Round, as_it_was, seen_earlier, added, MadeRoom, had_room, evicted_oldest, store-Round,
}
use fava.EventCache.Invariant.{settled-events, published-events, transact-steps}

-- An entry is a verified upsert, or one that was kept.
pub data Origin (nostr : Nostr) (kept : List Entry) (upserts : List RelayEvent)
    : Entry → Type 0 where
  stored :
      {e : Entry}
      → In e.1 upserts
      → nostr.verify e.1.event ≡ true
      → e.0 ≡ key_of e.1
      → Origin nostr kept upserts e
  retained : {e : Entry} → In e kept → Origin nostr kept upserts e

put-Origin :
    (nostr : Nostr) (e : Entry) (u : RelayEvent) (us : List RelayEvent) (m : List Entry)
    → nostr.verify u.event ≡ true
    → In e (insert (key_of u) u m)
    → Origin nostr m (u ∷ us) e
put-Origin nostr e u us m good i = elim (In-insert e (key_of u) u m i) [
  | inl p ↦ subst (Origin nostr m (u ∷ us)) p (stored (inl refl) good refl)
  | inr j ↦ retained j
]

module _ (nostr : Nostr) {Filter : Type 0} (capacity : ℕ) where
  In-MadeRoom :
      (e : Entry) (incoming : RelayEvent) {next roomy : CacheState Filter}
      → MadeRoom nostr capacity incoming next roomy
      → In e roomy.events
      → In e next.events
  In-MadeRoom e incoming (had_room room) i = i
  In-MadeRoom e incoming {next} (evicted_oldest oldest d o j lower) i =
      (In-remove e oldest.0 next.events i).0

  Round-Origin :
      (e : Entry) (u : RelayEvent) (us : List RelayEvent) {next after : CacheState Filter}
      → nostr.verify u.event ≡ true
      → Round nostr capacity u next after
      → In e after.events
      → Origin nostr next.events (u ∷ us) e
  Round-Origin e u us good (as_it_was there) i = retained i
  Round-Origin e u us {next} good (seen_earlier there) i =
      put-Origin nostr e u us next.events good i
  Round-Origin e u us good (added {roomy} absent made) i =
      elim (put-Origin nostr e u us roomy.events good i) [
        | stored j g k ↦ stored j g k
        | retained j ↦ retained (In-MadeRoom e u made j)
      ]

  store_all-Origin :
      (e : Entry) (us : List RelayEvent) (next : CacheState Filter) {after : CacheState Filter}
      → store_all nostr capacity us next ≡ ok after
      → In e after.events
      → Origin nostr next.events us e
  unfolding store_all
  store_all-Origin e [] next {after} h i =
      let same : next.events ≡ after.events = ground arith in retained (subst (In e) (sym same) i)
  store_all-Origin e (u ∷ us) next h i =
      let (mid, p, q) = >>=-eq-ok (store nostr capacity u next) (store_all nostr capacity us) h in
      let (round, good) = store-Round nostr capacity u next p in
      elim (store_all-Origin e us mid q i) [
        | stored j g k ↦ stored (inr j) g k
        | retained j ↦ Round-Origin e u us good round j
      ]

  -- Every entry of the next state is a verified upsert of the mutations, or an entry of the current
  -- state that no mutation retracts.
  pub apply-Origin :
      (e : Entry) (current : CacheState Filter) (ms : List EventStateMutation)
      {next : CacheState Filter}
      → apply nostr capacity current ms ≡ ok next
      → In e next.events
      → (In (upsert e.1) ms × (nostr.verify e.1.event ≡ true) × (e.0 ≡ key_of e.1))
        ⊎ (In e current.events × Spares ms e.0)
  unfolding apply
  apply-Origin e current ms {next} h i =
      let start = record current { retractions = [] } in
      let sorted = sort_out start ms in
      let (stored_all, p, q) =
        >>=-eq-ok (store_all nostr capacity sorted.1 sorted.0)
          (λ stored_all. ok (settle_coverage nostr current stored_all)) h in
      let j : In e stored_all.events =
        subst (In e) (sym (settled-events nostr current stored_all q)) i in
      elim (store_all-Origin e sorted.1 sorted.0 p j) [
        | stored k good key ↦ inl (upserts-sort_out e.1 start ms k, good, key)
        | retained k ↦ inr (In-sort_out e start ms k)
      ]

module _ (nostr : Nostr) {Filter : Type 0} (cache : MemoryEventCache Filter) where
  -- Every entry that a transaction leaves is a verified upsert of the mutations it decided on, under its
  -- own key, or an entry that was there before and that none of them retracts.
  pub transact-Origin :
      (e : Entry) (decide : List RelayEvent → List EventStateMutation)
      {after : MemoryEventCache Filter} {n : ℕ}
      → transact nostr cache decide ≡ ok (after, n)
      → In e after.state.events
      → let ms = decide (values cache.state.events) in
        (In (upsert e.1) ms × (nostr.verify e.1.event ≡ true) × (e.0 ≡ key_of e.1))
        ⊎ (In e cache.state.events × Spares ms e.0)
  transact-Origin e decide {after} {n} h i = elim (transact-steps nostr cache decide h) [
    | inl (same, idle) ↦ inr (
      subst (λ (c : MemoryEventCache Filter). In e c.state.events) (sym same) i,
      rw idle (λ id session cause k. elim k [ ]),
    )
    | inr (next, p, q) ↦
        apply-Origin nostr cache.capacity e cache.state (decide (values cache.state.events)) p
          (subst (In e) (sym (published-events nostr cache next q)) i)
  ]
