-- ===== src/Query/Merged.antt =====
-- crates/fava-query-standard/src/lib.rs: the candidates that the sources of a query contribute to.
use fava.Base.{
  ◌≡◌, refl, arith, true, false, not, some, List, [], ◌∷◌, ◌++◌, ◌==◌, any, In, inl, inr, ◌⊎◌,
  Bool-cases, Option-cases, append_left, append_right, ==_refl, subst, sym, ◌∙◌,
}
use fava.BTreeMap.{nat_key, get, insert, get-insert, In-insert, In-get}
use fava.Nostr.{EventId}
use fava.State.Contribution.{RelayEvent}
use fava.Write.Receipt.{EventValue, unsigned, signed, value_id}
use fava.Query.Types.{Query, SourceEvent, from_relay, from_local, SourceSnapshot}
use fava.Query.Evaluate.{
  Candidate, Candidates, candidate_or, fresh, signed_over, signed_first, relay_qualifies,
  join_relay, join_local, is_any_local, merge_qualifying_contribution, merge_all, merge_sources,
}

-- What a source owes: a local event has the identity under which it is written.
abbrev pub IsStable : SourceEvent → Type 0
IsStable (from_relay r) = Unit
IsStable (from_local l) = value_id l.event ≡ some l.id

pub record IsOf (id : EventId) (c : Candidate) : Type 0 where
  pub event : value_id c.event ≡ some id
  pub relay : any (λ (r : RelayEvent). not (r.event.id == id)) c.relay ≡ false

abbrev pub AllOf : Candidates → Type 0
AllOf records = (e : EventId × Candidate) → In e records → IsOf e.0 e.1

any_last :
    (id : EventId) (relay : List RelayEvent) (r : RelayEvent)
    → any (λ (r : RelayEvent). not (r.event.id == id)) relay ≡ false
    → r.event.id ≡ id
    → any (λ (r : RelayEvent). not (r.event.id == id)) (relay ++ r ∷ []) ≡ false
any_last id [] r h e = ground arith
any_last id (x ∷ relay) r h e = ground (arith, any_last id relay r)

held_or_fresh :
    (records : Candidates) (id : EventId) (new : Candidate)
    → IsOf id new
    → AllOf records
    → IsOf id (candidate_or new (get id records))
held_or_fresh records id new is good = elim (Option-cases (get id records)) [
  | inl missing ↦ rw missing is
  | inr (c, held) ↦ rw held (good (id, c) (In-get id records held))
]

signed_over_id :
    (id : EventId) (new old : EventValue)
    → value_id new ≡ some id
    → value_id old ≡ some id
    → value_id (signed_over new old) ≡ some id
signed_over_id id new (unsigned e) h k = h
signed_over_id id new (signed e) h k = k

signed_first_id :
    (id : EventId) (new old : EventValue)
    → value_id new ≡ some id
    → value_id old ≡ some id
    → value_id (signed_first new old) ≡ some id
signed_first_id id (unsigned e) old h k = k
signed_first_id id (signed e) old h k = h

inserted-AllOf :
    (records : Candidates) (id : EventId) (c : Candidate)
    → IsOf id c
    → AllOf records
    → AllOf (insert id c records)
inserted-AllOf records id c is good e i = elim (In-insert e id c records i) [
  | inl new ↦ subst (λ (e : EventId × Candidate). IsOf e.0 e.1) new is
  | inr old ↦ good e old
]

module _ (query : Query) where
  merge-AllOf :
      (records : Candidates) (contribution : SourceEvent)
      → IsStable contribution
      → AllOf records
      → AllOf (merge_qualifying_contribution query records contribution)
  unfolding merge_qualifying_contribution join_relay join_local
  merge-AllOf records (from_relay r) stable good = elim (Bool-cases (relay_qualifies query r)) [
    | inr foreign ↦ rw foreign good
    | inl qualifies ↦
        let held =
          held_or_fresh records r.event.id (fresh (signed r.event))
            (record { event = refl; relay = refl }) good in
        rw qualifies (
          inserted-AllOf records r.event.id _
            (record {
              event = signed_over_id r.event.id (signed r.event) _ refl held.event;
              relay = any_last r.event.id _ r held.relay refl;
            })
            good)
  ]
  merge-AllOf records (from_local l) stable good =
      elim (Bool-cases (is_any_local query.source.authority)) [
        | inr foreign ↦ rw foreign good
        | inl qualifies ↦
            let held =
              held_or_fresh records l.id (fresh l.event) (record { event = stable; relay = refl })
                good in
            rw qualifies (
              inserted-AllOf records l.id _
                (record {
                  event = signed_first_id l.id l.event _ stable held.event;
                  relay = held.relay;
                })
                good)
      ]

  merge_all-AllOf :
      (records : Candidates) (contributions : List SourceEvent)
      → ((x : SourceEvent) → In x contributions → IsStable x)
      → AllOf records
      → AllOf (merge_all query records contributions)
  unfolding merge_all
  merge_all-AllOf records [] stable good = good
  merge_all-AllOf records (x ∷ contributions) stable good =
      merge_all-AllOf (merge_qualifying_contribution query records x) contributions
        (λ y i. stable y (inr i)) (merge-AllOf records x (stable x (inl refl)) good)

  abbrev pub AllStable : List SourceSnapshot → Type 0
  AllStable sources =
      (source : SourceSnapshot) (x : SourceEvent)
      → In source sources
      → In x source.events
      → IsStable x

  pub merge_sources-AllOf :
      (records : Candidates) (sources : List SourceSnapshot)
      → AllStable sources
      → AllOf records
      → AllOf (merge_sources query records sources)
  unfolding merge_sources
  merge_sources-AllOf records [] stable good = good
  merge_sources-AllOf records (source ∷ sources) stable good =
      merge_sources-AllOf (merge_all query records source.events) sources
        (λ s x i. stable s x (inr i))
        (merge_all-AllOf records source.events (λ x i. stable source x (inl refl) i) good)

  -- The relay contribution is among those of its candidate.
  abbrev pub Noted : Candidates → RelayEvent → Type 0
  Noted records r = (c : Candidate) × (get r.event.id records ≡ some c) × In r c.relay

  joined-Noted :
      (records : Candidates) (id : EventId) (more : Candidate) (r : RelayEvent)
      → ((c : Candidate) → get id records ≡ some c → In r c.relay → In r more.relay)
      → Noted records r
      → Noted (insert id more records) r
  joined-Noted records id more r keeps (c, held, i) = elim (Bool-cases (id == r.event.id)) [
    | inr other ↦ (c, get-insert id r.event.id more records ∙ rw other held, i)
    | inl same ↦ (
      more,
      get-insert id r.event.id more records ∙ rw same refl,
      keeps c (ground (arith, held, same)) i,
    )
  ]

  merge-Noted :
      (records : Candidates) (contribution : SourceEvent) (r : RelayEvent)
      → Noted records r
      → Noted (merge_qualifying_contribution query records contribution) r
  unfolding merge_qualifying_contribution join_relay join_local
  merge-Noted records (from_relay x) r noted = elim (Bool-cases (relay_qualifies query x)) [
    | inr foreign ↦ rw foreign noted
    | inl qualifies ↦ rw qualifies (
        joined-Noted records x.event.id _ r (λ c held i. rw held (append_left r c.relay _ i)) noted)
  ]
  merge-Noted records (from_local l) r noted =
      elim (Bool-cases (is_any_local query.source.authority)) [
        | inr foreign ↦ rw foreign noted
        | inl qualifies ↦ rw qualifies (joined-Noted records l.id _ r (λ c held i. rw held i) noted)
      ]

  merge-notes :
      (records : Candidates) (r : RelayEvent)
      → relay_qualifies query r ≡ true
      → Noted (merge_qualifying_contribution query records (from_relay r)) r
  unfolding merge_qualifying_contribution join_relay
  merge-notes records r qualifies = rw qualifies (
    join_relay r (candidate_or (fresh (signed r.event)) (get r.event.id records)),
    get-insert r.event.id r.event.id
          (join_relay r (candidate_or (fresh (signed r.event)) (get r.event.id records))) records
        ∙ rw (==_refl r.event.id) refl,
    append_right r (candidate_or (fresh (signed r.event)) (get r.event.id records)).relay _
        (inl refl),
  )

  merge_all-Noted :
      (records : Candidates) (contributions : List SourceEvent) (r : RelayEvent)
      → relay_qualifies query r ≡ true
      → Noted records r ⊎ In (from_relay r) contributions
      → Noted (merge_all query records contributions) r
  unfolding merge_all
  merge_all-Noted records [] r qualifies (inl noted) = noted
  merge_all-Noted records [] r qualifies (inr i) = elim i [ ]
  merge_all-Noted records (x ∷ contributions) r qualifies h =
      merge_all-Noted (merge_qualifying_contribution query records x) contributions r qualifies
        (elim h [
          | inl noted ↦ inl (merge-Noted records x r noted)
          | inr (inr i) ↦ inr i
          | inr (inl e) ↦ inl (
              subst (λ (y : SourceEvent). Noted (merge_qualifying_contribution query records y) r)
                (sym e) (merge-notes records r qualifies))
        ])

  pub merge_sources-Noted :
      (records : Candidates) (sources : List SourceSnapshot) (r : RelayEvent)
      → relay_qualifies query r ≡ true
      → Noted records r
        ⊎ ((source : SourceSnapshot) × In source sources × In (from_relay r) source.events)
      → Noted (merge_sources query records sources) r
  unfolding merge_sources
  merge_sources-Noted records [] r qualifies (inl noted) = noted
  merge_sources-Noted records [] r qualifies (inr (source, i, j)) = elim i [ ]
  merge_sources-Noted records (source ∷ sources) r qualifies h =
      merge_sources-Noted (merge_all query records source.events) sources r qualifies (elim h [
        | inl noted ↦ inl (merge_all-Noted records source.events r qualifies (inl noted))
        | inr (s, inr i, j) ↦ inr (s, i, j)
        | inr (s, inl e, j) ↦ inl (
            merge_all-Noted records source.events r qualifies
              (inr (subst (λ (s : SourceSnapshot). In (from_relay r) s.events) (sym e) j)))
      ])
