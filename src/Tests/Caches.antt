-- ===== src/Tests/Caches.antt =====
-- crates/fava-event-cache and crates/fava-event-cache-memory: runs of a cache, and the theorems at
-- them.
use fava.Base.{
  ℕ, Bool, true, false, ◌≡◌, ◌≢◌, ◌⊎◌, inl, refl, none, List, [], ◌∷◌, In, All, ◌==◌, arith, ok,
  err,
}
use fava.BTreeMap.{nat_key, pair_key, get, values}
use fava.State.Deletion.{event_is_expired}
use fava.State.Mutations.{EventStateMutation, upsert, retract, RetractionCause, superseded, evicted}
use fava.EventCache.Source.{SourceRetraction, capacity_reached}
use fava.EventCache.Memory.{
  CacheState, MemoryEventCache, key_of, bounded, apply, commit, transact, snapshot,
}
use fava.EventCache.Contract.{admit, admit_mutations}
use fava.EventCache.Entries.{Entry, Spares}
use fava.EventCache.Admission.{IsCurrent}
use fava.EventCache.Invariant.{IsValid, IsValidCache, transact-IsValid}
use fava.EventCache.Currency.{admit-IsCurrent}
use fava.EventCache.Origins.{transact-Origin}
use fava.EventCache.Retention.{HoldsDeletion, apply-keeps_deletion}
use fava.EventCache.Reports.{apply-reports}
use fava.EventCache.Steps.{Reach, start, then, admits, commits}
use fava.EventCache.Reach.{IsCoherent, Reach-IsCurrent, Reach-IsCoherent}
use fava.Tests.Crate.{crate, crate-IsNip01, delivered}

abbrev State : Type 0
State = CacheState ℕ

abbrev Cache : Type 0
Cache = MemoryEventCache ℕ

abbrev entry : ℕ → Entry
entry id = ((id, 1), delivered id)

abbrev state_of : ℕ → List Entry → List SourceRetraction → State
state_of revision events retractions = record {
  revision = revision;
  events = events;
  retractions = retractions;
  coverage = [];
}

abbrev cache_of : State → Cache
cache_of state = record {
  capacity = 2;
  state = state;
  latest = record {
    revision = state.revision;
    events = values state.events;
    retractions = state.retractions;
  };
}

abbrev removal : ℕ → RetractionCause → SourceRetraction
removal id cause = record { event_id = id; cause = cause }

-- After the event 4, and after the event 6, which supersedes it.
abbrev after_4 : Cache
after_4 = cache_of (state_of 1 (entry 4 ∷ []) [])

abbrev pub after_6 : Cache
after_6 = cache_of (state_of 2 (entry 6 ∷ []) (removal 4 (superseded 6) ∷ []))

admitted_4 : admit crate (bounded 2) (delivered 4) 100 ≡ ok (after_4, true)
unfolding admit transact fava.State.Mutations.mutations_for_expiration bounded
    fava.State.Mutations.mutations_for_event event_is_expired fava.State.Mutations.state_mutations
    fava.State.Coordinate.coordinate_of apply fava.EventCache.Memory.store_all
    fava.EventCache.Memory.sort_out fava.EventCache.Memory.store get
    fava.EventCache.Memory.make_room fava.EventCache.Memory.publish fava.EventCache.Memory.events_eq
    fava.BTreeMap.insert
admitted_4 = refl

admitted_6 : admit crate after_4 (delivered 6) 100 ≡ ok (after_6, true)
unfolding admit transact fava.State.Mutations.mutations_for_expiration event_is_expired
    fava.State.Mutations.mutations_for_event fava.State.Deletion.deletion_applies
    fava.State.Mutations.state_mutations fava.State.Coordinate.coordinate_of
    fava.State.Coordinate.coordinate_eq fava.State.Coordinate.event_is_newer apply
    fava.EventCache.Memory.store_all fava.EventCache.Memory.sort_out fava.EventCache.Memory.store
    get fava.BTreeMap.remove fava.EventCache.Memory.make_room fava.EventCache.Memory.publish
    fava.EventCache.Memory.events_eq fava.BTreeMap.insert
admitted_6 = refl

-- An older event at the coordinate is not kept.
refused_5 : admit crate after_6 (delivered 5) 100 ≡ ok (after_6, false)
unfolding admit transact fava.State.Mutations.mutations_for_expiration event_is_expired
    fava.State.Mutations.mutations_for_event fava.State.Deletion.deletion_applies
    fava.State.Mutations.state_mutations fava.State.Coordinate.coordinate_of
    fava.State.Coordinate.coordinate_eq fava.State.Coordinate.event_is_newer
refused_5 = refl

abbrev reached_4 : Reach crate {Filter = ℕ} ◌==◌ (bounded 2) after_4
reached_4 = then start (admits (delivered 4) 100 admitted_4)

pub reached_6 : Reach crate {Filter = ℕ} ◌==◌ (bounded 2) after_6
reached_6 = then reached_4 (admits (delivered 6) 100 admitted_6)

-- After the event 4 is put beside the event 6 by hand.
abbrev both : Cache
both = cache_of (state_of 3 (entry 4 ∷ entry 6 ∷ []) [])

committed : commit crate after_6 (upsert (delivered 4) ∷ []) ≡ ok both
unfolding commit apply fava.EventCache.Memory.store_all fava.EventCache.Memory.sort_out
    fava.EventCache.Memory.store get fava.EventCache.Memory.make_room fava.EventCache.Memory.publish
    fava.EventCache.Memory.events_eq fava.BTreeMap.insert
committed = refl

reached_mixed : Reach crate {Filter = ℕ} ◌==◌ (bounded 2) both
reached_mixed = then reached_6 (commits (upsert (delivered 4) ∷ []) committed)

valid_4 : IsValidCache crate after_4
valid_4 = (Reach-IsCoherent crate ◌==◌ crate-IsNip01 2 reached_4).valid

current_4 : IsCurrent crate after_4.state.events
current_4 = Reach-IsCurrent crate ◌==◌ crate-IsNip01 2 reached_4 refl

Reach-IsCoherent_example : IsCoherent crate {Filter = ℕ} ◌==◌ 2 reached_mixed
Reach-IsCoherent_example = Reach-IsCoherent crate ◌==◌ crate-IsNip01 2 reached_mixed

admit-IsCurrent_example :
    IsCurrent crate after_6.state.events
    × All (λ e. event_is_expired e.1.event.tags 100 ≡ false) after_6.state.events
admit-IsCurrent_example =
    admit-IsCurrent crate after_4 (delivered 6) 100 crate-IsNip01 valid_4 current_4 admitted_6

transacted_6 : transact crate after_4 (admit_mutations crate (delivered 6) 100) ≡ ok (after_6, 2)
unfolding transact fava.State.Mutations.mutations_for_expiration event_is_expired
    fava.EventCache.Contract.admission fava.State.Mutations.mutations_for_event
    fava.State.Deletion.deletion_applies fava.State.Mutations.state_mutations
    fava.State.Coordinate.coordinate_of fava.State.Coordinate.coordinate_eq
    fava.State.Coordinate.event_is_newer apply fava.EventCache.Memory.store_all
    fava.EventCache.Memory.sort_out fava.EventCache.Memory.store get fava.BTreeMap.remove
    fava.EventCache.Memory.make_room fava.EventCache.Memory.publish fava.EventCache.Memory.events_eq
    fava.BTreeMap.insert
transacted_6 = refl

transact-IsValid_example : IsValidCache crate after_6 × ◌≡◌ {A = ℕ} 2 2
transact-IsValid_example =
    transact-IsValid crate after_4 (admit_mutations crate (delivered 6) 100) valid_4 transacted_6

transact-Origin_example :
    (In (upsert (delivered 6)) (admit_mutations crate (delivered 6) 100 (delivered 4 ∷ []))
      × ◌≡◌ {A = Bool} true true
      × (entry 6).0 ≡ key_of (delivered 6))
    ⊎ (In (entry 6) after_4.state.events
        × Spares (admit_mutations crate (delivered 6) 100 (delivered 4 ∷ [])) (6, 1))
transact-Origin_example =
    transact-Origin crate after_4 (entry 6) (admit_mutations crate (delivered 6) 100) transacted_6
      (inl refl)

-- A full cache, in which a deletion makes room for another one.
abbrev full : State
full = state_of 3 (entry 4 ∷ entry 9 ∷ []) []

abbrev made_room : State
made_room = state_of 3 (entry 9 ∷ entry 10 ∷ []) (removal 4 evicted ∷ [])

applied : apply crate 2 full (upsert (delivered 10) ∷ []) ≡ ok made_room
unfolding apply fava.EventCache.Memory.store_all fava.EventCache.Memory.sort_out
    fava.EventCache.Memory.store get fava.EventCache.Memory.make_room
    fava.EventCache.Memory.events_eq fava.BTreeMap.insert fava.BTreeMap.remove
applied = refl

turned_away : apply crate 2 full (upsert (delivered 6) ∷ []) ≡ err capacity_reached
unfolding apply fava.EventCache.Memory.store_all fava.EventCache.Memory.sort_out
    fava.EventCache.Memory.store get fava.EventCache.Memory.make_room
turned_away = refl

full-IsValid : IsValid crate 2 full.events
unfolding get
full-IsValid = record {
  within_capacity = omega arith;
  distinct = (refl, (refl, tt));
  keyed = λ e i. ground arith;
  verified = λ e i. ground arith;
}

spared : Spares (upsert (delivered 10) ∷ []) (9, 1)
spared id session cause i p = ground arith

held : HoldsDeletion crate full.events (9, 1)
unfolding get
held = (delivered 9, refl, refl)

apply-keeps_deletion_example : HoldsDeletion crate made_room.events (9, 1)
apply-keeps_deletion_example =
    apply-keeps_deletion crate 2 (9, 1) full (upsert (delivered 10) ∷ []) crate-IsNip01 full-IsValid
      spared held applied

there : get (4, 1) full.events ≢ none
unfolding get
there = λ h. cc

gone : get (4, 1) made_room.events ≡ none
unfolding get
gone = refl

apply-reports_example : (r : SourceRetraction) × In r made_room.retractions × (r.event_id ≡ 4)
apply-reports_example =
    apply-reports (4, 1) crate 2 full (upsert (delivered 10) ∷ []) there applied gone
