-- ===== src/EventCache/Reports.antt =====
-- crates/fava-event-cache-memory/src/lib.rs, `apply`: nothing disappears without a report.
use fava.Base.{
  ℕ, ◌≡◌, ◌≢◌, ◌⊎◌, inl, inr, refl, arith, List, [], ◌∷◌, In, ok, >>=-eq-ok, ok_injective, subst,
  none, Bool-cases, Option-cases, append_left, append_right,
}
use fava.BTreeMap.{pair_key, pair_beq_iff, get, get-insert, get-remove}
use fava.Nostr.{Nostr, EventId, RelayUrl}
use fava.State.Contribution.{RelayEvent}
use fava.State.Mutations.{EventStateMutation, upsert, retract, RetractionCause}
use fava.EventCache.Source.{SourceRetraction}
use fava.EventCache.Memory.{
  CacheKey, key_of, CacheState, drop_entry, sort_out, store, store_all, apply, settle_coverage, put,
  events_eq,
}
use fava.EventCache.Rounds.{
  Round, as_it_was, seen_earlier, added, MadeRoom, had_room, evicted_oldest, store-Round,
}

module _ {Filter : Type 0} (k : CacheKey) where
  -- The key is there, or its removal is reported.
  abbrev pub IsAccounted : CacheState Filter → Type 0
  IsAccounted s =
      (get k s.events ≢ none) ⊎ ((r : SourceRetraction) × In r s.retractions × (r.event_id ≡ k.0))

  drop_entry-accounts :
      (id : EventId) (session : RelayUrl) (cause : RetractionCause) (s : CacheState Filter)
      → IsAccounted s
      → IsAccounted (drop_entry id session cause s)
  unfolding drop_entry
  drop_entry-accounts id session cause s a = elim (Option-cases (get (id, session) s.events)) [
    | inl miss ↦ rw (miss, drop_entry) a
    | inr (w, hit) ↦
        rw (hit, drop_entry)
          (elim a [
            | inr (r, i, e) ↦ inr (r, append_left r s.retractions _ i, e)
            | inl there ↦ elim (Bool-cases (pair_key.beq (id, session) k)) [
              | inl same ↦ inr (
                record { event_id = id; cause = cause },
                append_right _ s.retractions _ (inl refl),
                ground (arith, pair_beq_iff (id, session) k),
              )
              | inr other ↦ inl (λ e. there (ground (arith, get-remove (id, session) k s.events)))
            ]
          ])
  ]

  sort_out-accounts :
      (ms : List EventStateMutation) (s : CacheState Filter)
      → IsAccounted s
      → IsAccounted (sort_out s ms).0
  unfolding sort_out
  sort_out-accounts [] s a = a
  sort_out-accounts (upsert u ∷ ms) s a = sort_out-accounts ms s a
  sort_out-accounts (retract id session cause ∷ ms) s a =
      sort_out-accounts ms (drop_entry id session cause s)
        (drop_entry-accounts id session cause s a)

  put-accounts : (u : RelayEvent) (s : CacheState Filter) → IsAccounted s → IsAccounted (put u s)
  put-accounts u s (inr reported) = inr reported
  put-accounts u s (inl there) =
      inl (λ e. there (ground (arith, get-insert (key_of u) k u s.events)))

  module _ (nostr : Nostr) (capacity : ℕ) where
    MadeRoom-accounts :
        (u : RelayEvent) {s roomy : CacheState Filter}
        → MadeRoom nostr capacity u s roomy
        → IsAccounted s
        → IsAccounted roomy
    MadeRoom-accounts u (had_room room) a = a
    MadeRoom-accounts u {s} (evicted_oldest oldest d o i lower) (inr (r, j, e)) =
        inr (r, append_left r s.retractions _ j, e)
    MadeRoom-accounts u {s} (evicted_oldest oldest d o i lower) (inl there) =
        elim (Bool-cases (pair_key.beq oldest.0 k)) [
          | inl same ↦ inr (
            _,
            append_right _ s.retractions _ (inl refl),
            ground (arith, pair_beq_iff oldest.0 k),
          )
          | inr other ↦ inl (λ e. there (ground (arith, get-remove oldest.0 k s.events)))
        ]

    Round-accounts :
        (u : RelayEvent) {s after : CacheState Filter}
        → Round nostr capacity u s after
        → IsAccounted s
        → IsAccounted after
    Round-accounts u (as_it_was there) a = a
    Round-accounts u {s} (seen_earlier there) a = put-accounts u s a
    Round-accounts u (added {roomy} absent made) a =
        put-accounts u roomy (MadeRoom-accounts u made a)

    store_all-accounts :
        (us : List RelayEvent) (s : CacheState Filter) {after : CacheState Filter}
        → store_all nostr capacity us s ≡ ok after
        → IsAccounted s
        → IsAccounted after
    unfolding store_all
    store_all-accounts [] s h a = subst IsAccounted (ok_injective h) a
    store_all-accounts (u ∷ us) s h a =
        let (mid, p, q) = >>=-eq-ok (store nostr capacity u s) (store_all nostr capacity us) h in
        store_all-accounts us mid q (Round-accounts u (store-Round nostr capacity u s p).0 a)

    settle-accounts :
        (current s : CacheState Filter)
        → IsAccounted s
        → IsAccounted (settle_coverage nostr current s)
    settle-accounts current s a = elim (Bool-cases (events_eq nostr s.events current.events)) [
      | inl same ↦ rw same a
      | inr other ↦ rw other a
    ]

    -- What was retained and is retained no longer is reported: where the key of an entry is no
    -- longer there, a retraction of this revision names its event.
    pub apply-reports :
        (current : CacheState Filter) (ms : List EventStateMutation) {next : CacheState Filter}
        → get k current.events ≢ none
        → apply nostr capacity current ms ≡ ok next
        → get k next.events ≡ none
        → (r : SourceRetraction) × In r next.retractions × (r.event_id ≡ k.0)
    unfolding apply
    apply-reports current ms {next} there h gone =
        let start = record current { retractions = [] } in
        let sorted = sort_out start ms in
        let (stored_all, p, q) =
          >>=-eq-ok (store_all nostr capacity sorted.1 sorted.0)
            (λ stored_all. ok (settle_coverage nostr current stored_all)) h in
        elim (subst IsAccounted (ok_injective q) (
          settle-accounts current stored_all
            (store_all-accounts sorted.1 sorted.0 p (sort_out-accounts ms start (inl there))))) [
              | inl still ↦ absurd (still gone)
              | inr reported ↦ reported
            ]
