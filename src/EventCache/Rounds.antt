-- ===== src/EventCache/Rounds.antt =====
-- crates/fava-event-cache-memory/src/lib.rs, `apply`: what one round over the upserts can do.
use fava.Base.{
  ℕ, true, false, not, ◌≡◌, ◌≢◌, inl, inr, refl, ◌<◌, arith, none, some, List, [], ◌∷◌, ◌++◌, In,
  In-keep, keep_of_In, ok, >>=-eq-ok, Bool-cases, Option-cases, length, ltb, subst, leb, keep,
}
use fava.BTreeMap.{pair_key, get, remove}
use fava.Nostr.{Nostr}
use fava.State.Contribution.{RelayEvent}
use fava.State.Mutations.{evicted, age}
use fava.EventCache.Memory.{
  key_of, CacheState, min_by_age, is_less, evict, put, make_room, store, is_deletion,
}
use fava.EventCache.Entries.{Entry}

less_trans : (a b c : ℕ × ℕ) → is_less b a ≡ false → is_less c b ≡ false → is_less c a ≡ false
less_trans a b c h k = ground arith

min_by_age-none : (es : List Entry) → min_by_age es ≡ none → es ≡ []
unfolding min_by_age
min_by_age-none [] h = refl
min_by_age-none (f ∷ es) h = elim (Option-cases (min_by_age es)) [
  | inl e ↦ absurd (ground arith)
  | inr (l, e) ↦ absurd (ground arith)
]

min_by_age-least :
    (es : List Entry) (least : Entry)
    → min_by_age es ≡ some least
    → In least es × ((e : Entry) → In e es → is_less (age e.1) (age least.1) ≡ false)
unfolding min_by_age
min_by_age-least [] least h = cc
min_by_age-least (f ∷ es) least h = elim (Option-cases (min_by_age es)) [
  | inl p ↦
      let q : f ≡ least = ground (arith, p) in
      (
        inl q,
        λ e i. elim i [ inl r ↦ ground arith | inr j ↦ absurd (rw (min_by_age-none es p) at j) ],
      )
  | inr (l, p) ↦
      let (i, lower) = min_by_age-least es l p in
      elim (Bool-cases (is_less (age l.1) (age f.1))) [
        | inl less ↦
            let q : l ≡ least = ground (arith, p, less) in
            (
              inr (subst (λ x. In x es) q i),
              λ e k. elim k [ inl r ↦ ground (arith, less) | inr j ↦ ground (arith, lower e j) ],
            )
        | inr more ↦
            let q : f ≡ least = ground (arith, p, more) in
            (
              inl q,
              λ e k. elim k [
                | inl r ↦ ground arith
                | inr j ↦ ground (arith, lower e j, less_trans (age f.1) (age l.1) (age e.1))
              ],
            )
      ]
]

-- How room was made for an incoming event.
pub data MadeRoom (nostr : Nostr) {Filter : Type 0} (capacity : ℕ) (incoming : RelayEvent)
    (next : CacheState Filter) : CacheState Filter → Type 0 where
  had_room : length next.events < capacity → MadeRoom nostr capacity incoming next next
  evicted_oldest :
      (oldest : Entry)
      → is_deletion nostr incoming ≡ true
      → is_deletion nostr oldest.1 ≡ false
      → In oldest next.events
      → ((e : Entry)
          → In e next.events
          → is_deletion nostr e.1 ≡ false
          → is_less (age e.1) (age oldest.1) ≡ false)
      → MadeRoom nostr capacity incoming next (record next {
        events = remove oldest.0 next.events;
        retractions = next.retractions ++ (record { event_id = oldest.0.0; cause = evicted } ∷ []);
      })

-- What one round leaves of the state.
pub data Round (nostr : Nostr) {Filter : Type 0} (capacity : ℕ) (incoming : RelayEvent)
    (next : CacheState Filter) : CacheState Filter → Type 0 where
  as_it_was : get (key_of incoming) next.events ≢ none → Round nostr capacity incoming next next
  seen_earlier :
      get (key_of incoming) next.events ≢ none
      → Round nostr capacity incoming next (put incoming next)
  added :
      {roomy : CacheState Filter}
      → get (key_of incoming) next.events ≡ none
      → MadeRoom nostr capacity incoming next roomy
      → Round nostr capacity incoming next (put incoming roomy)

module _ (nostr : Nostr) {Filter : Type 0} (capacity : ℕ) (incoming : RelayEvent)
    (next : CacheState Filter) where
  evict-MadeRoom :
      {roomy : CacheState Filter}
      → is_deletion nostr incoming ≡ true
      → evict nostr next ≡ ok roomy
      → MadeRoom nostr capacity incoming next roomy
  unfolding evict
  evict-MadeRoom {roomy} d h = elim (Option-cases (min_by_age kept)) [
    | inl p ↦ absurd (ground arith)
    | inr (oldest, p) ↦
        let (i, lower) = min_by_age-least kept oldest p in
        let (j, other) = In-keep oldest (λ e. not (is_deletion nostr e.1)) next.events i in
        subst (MadeRoom nostr capacity incoming next) (ground (arith, p)) (
          evicted_oldest oldest d (ground arith) j (λ e k o.
            lower e (keep_of_In e (λ e. not (is_deletion nostr e.1)) next.events k (ground arith))))
  ]
    where
      kept : List Entry
      kept = keep (λ e. not (is_deletion nostr e.1)) next.events

  make_room-MadeRoom :
      {roomy : CacheState Filter}
      → make_room nostr capacity incoming next ≡ ok roomy
      → MadeRoom nostr capacity incoming next roomy
  unfolding make_room
  make_room-MadeRoom {roomy} h = elim (Bool-cases (leb capacity (length next.events))) [
    | inr free ↦
        subst (MadeRoom nostr capacity incoming next) (ground arith) (had_room (ground arith))
    | inl full ↦ elim (Bool-cases (is_deletion nostr incoming)) [
      | inl d ↦ evict-MadeRoom d (ground arith)
      | inr o ↦ absurd (ground arith)
    ]
  ]

  pub store-Round :
      {after : CacheState Filter}
      → store nostr capacity incoming next ≡ ok after
      → Round nostr capacity incoming next after × (nostr.verify incoming.event ≡ true)
  unfolding store
  store-Round {after} h = elim (Option-cases (get (key_of incoming) next.events)) [
    | inr (retained, p) ↦
        let there : get (key_of incoming) next.events ≢ none = λ e. cc in
        elim (Bool-cases (ltb incoming.occurrence.observed_at retained.occurrence.observed_at)) [
          | inl earlier ↦
              (subst R (ground (arith, p, earlier)) (seen_earlier there), ground (arith, p))
          | inr later ↦ (subst R (ground (arith, p, later)) (as_it_was there), ground (arith, p))
        ]
    | inl p ↦ elim (Bool-cases (nostr.verify incoming.event)) [
      | inr bad ↦ absurd (ground arith)
      | inl good ↦
          let (roomy, q, r) =
            >>=-eq-ok (make_room nostr capacity incoming next) (λ roomy. ok (put incoming roomy))
              {b = after} (ground (arith, p, good)) in
          (subst R (ground (arith, r)) (added p (make_room-MadeRoom q)), good)
    ]
  ]
    where
      R : CacheState Filter → Type 0
      R = Round nostr capacity incoming next
