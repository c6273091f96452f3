-- ===== src/EventCache/Entries.antt =====
-- crates/fava-event-cache-memory/src/lib.rs, `apply`: where the entries of the next state are from.
use fava.Base.{◌≢◌, inl, inr, arith, List, [], ◌∷◌, In, Option-cases, ap, ◌∙◌}
use fava.BTreeMap.{pair_key, pair_beq_iff, get, In-remove, get-ne-none_of_In}
use fava.Nostr.{EventId, RelayUrl}
use fava.State.Contribution.{RelayEvent}
use fava.State.Mutations.{EventStateMutation, upsert, retract, RetractionCause}
use fava.EventCache.Memory.{CacheKey, CacheState, drop_entry, sort_out}

abbrev pub Entry : Type 0
Entry = CacheKey × RelayEvent

-- No mutation retracts what stands under the key.
abbrev pub Spares : List EventStateMutation → CacheKey → Type 0
Spares ms k =
    (id : EventId) (session : RelayUrl) (cause : RetractionCause)
    → In (retract id session cause) ms
    → k ≢ (id, session)

module _ {Filter : Type 0} where
  pub In-drop_entry :
      (e : Entry) (id : EventId) (session : RelayUrl) (cause : RetractionCause)
      (next : CacheState Filter)
      → In e (drop_entry id session cause next).events
      → In e next.events × (e.0 ≢ (id, session))
  unfolding drop_entry
  In-drop_entry e id session cause next h = elim (Option-cases (get (id, session) next.events)) [
    | inl miss ↦
        let i : In e next.events = rw (miss, drop_entry) at h in
        (i, λ p. get-ne-none_of_In e next.events i (ap (λ k. get k next.events) p ∙ miss))
    | inr (v, hit) ↦
        let (i, other) = In-remove e (id, session) next.events (rw (hit, drop_entry) at h) in
        (i, λ p. ground (arith, pair_beq_iff e.0 (id, session)))
  ]

  pub In-sort_out :
      (e : Entry) (next : CacheState Filter) (ms : List EventStateMutation)
      → In e (sort_out next ms).0.events
      → In e next.events × Spares ms e.0
  unfolding sort_out
  In-sort_out e next [] h = (h, λ id session cause i. elim i [ ])
  In-sort_out e next (retract id session cause ∷ ms) h =
      let (i, spared) = In-sort_out e (drop_entry id session cause next) ms h in
      let (j, other) = In-drop_entry e id session cause next i in
      (
        j,
        λ id' session' cause' k. elim k [
          | inl p ↦ ground (arith, other)
          | inr l ↦ spared id' session' cause' l
        ],
      )
  In-sort_out e next (upsert u ∷ ms) h =
      let (i, spared) = In-sort_out e next ms h in
      (i, λ id session cause k. elim k [ inl p ↦ cc | inr l ↦ spared id session cause l ])

  pub upserts-sort_out :
      (u : RelayEvent) (next : CacheState Filter) (ms : List EventStateMutation)
      → In u (sort_out next ms).1
      → In (upsert u) ms
  unfolding sort_out
  upserts-sort_out u next [] h = elim h [ ]
  upserts-sort_out u next (retract id session cause ∷ ms) h =
      inr (upserts-sort_out u (drop_entry id session cause next) ms h)
  upserts-sort_out u next (upsert v ∷ ms) (inl p) = inl (ap upsert p)
  upserts-sort_out u next (upsert v ∷ ms) (inr h) = inr (upserts-sort_out u next ms h)
