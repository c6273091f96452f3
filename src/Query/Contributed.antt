-- ===== src/Query/Contributed.antt =====
-- crates/fava-query-standard/src/lib.rs: the evaluation never refuses sources whose events have
-- their identities, and misses no contribution of a relay that qualifies.
use fava.Base.{◌≡◌, refl, true, List, [], ◌∷◌, some, In, inl, inr, ok, ==_refl, subst}
use fava.BTreeMap.{nat_key, In-get}
use fava.Nostr.{EventId}
use fava.State.Contribution.{RelayEvent, RelayOccurrences, relay_occurrences_for_event}
use fava.Query.Types.{Query, from_relay, SourceSnapshot, EventRecord, new_record}
use fava.Query.Evaluate.{
  Candidate, Candidates, relay_qualifies, merge_sources, into_record, into_records,
}
use fava.Query.Merged.{IsOf, AllOf, AllStable, merge_sources-AllOf, merge_sources-Noted}

-- The record of a candidate.
pub record IsRecordOf (id : EventId) (relay : List RelayEvent) (r : EventRecord) : Type 0 where
  pub same : r.id ≡ id
  pub occurrences : relay_occurrences_for_event id relay ≡ some r.relay_occurrences

into_record-IsRecordOf :
    (id : EventId) (c : Candidate)
    → IsOf id c
    → (r : EventRecord) × (into_record id c ≡ ok r) × IsRecordOf id c.relay r
unfolding into_record relay_occurrences_for_event new_record
into_record-IsRecordOf id c is =
    let r : EventRecord = record {
      id = id;
      event = c.event;
      relay_occurrences = occurrences;
      publication = c.publication;
    } in
    (
      r,
      rw (agree, into_record) (rw (is.event, new_record) (rw (==_refl id) refl)),
      record { same = refl; occurrences = agree },
    )
  where
    occurrences : RelayOccurrences
    occurrences = record {
      event_id = id;
      occurrences = fava.State.Contribution.note_all [] c.relay;
    }

    agree : relay_occurrences_for_event id c.relay ≡ some occurrences
    agree = rw is.relay refl

into_records-total :
    (candidates : Candidates)
    → AllOf candidates
    → (records : List EventRecord) × (into_records candidates ≡ ok records)
      × ((id : EventId) (c : Candidate)
          → In (id, c) candidates
          → (r : EventRecord) × In r records × IsRecordOf id c.relay r)
unfolding into_records
into_records-total [] good = ([], refl, λ id c i. elim i [ ])
into_records-total ((id, c) ∷ candidates) good =
    let (r, made, is) = into_record-IsRecordOf id c (good (id, c) (inl refl)) in
    let (records, all_made, each) = into_records-total candidates (λ e i. good e (inr i)) in
    (
      r ∷ records,
      rw (made, all_made) refl,
      λ j d i. elim i [
        | inl e ↦
            (r, inl refl, subst (λ (e : EventId × Candidate). IsRecordOf e.0 e.1.relay r) e is)
        | inr k ↦ let (x, at, is_x) = each j d k in (x, inr at, is_x)
      ],
    )

module _ (query : Query) where
  -- The sources of a query make records, if their local events have the identities under which they
  -- are written. Each contribution of a relay that qualifies, from whatever source, is in one of
  -- the records: that of its event, whose occurrences are made of it among others.
  pub sources-records :
      (sources : List SourceSnapshot)
      → AllStable query sources
      → (records : List EventRecord) × (into_records (merge_sources query [] sources) ≡ ok records)
        × ((source : SourceSnapshot) (x : RelayEvent)
            → In source sources
            → In (from_relay x) source.events
            → relay_qualifies query x ≡ true
            → (r : EventRecord) × In r records
              × (r.id ≡ x.event.id)
              × ((relay : List RelayEvent) × In x relay
                  × (relay_occurrences_for_event x.event.id relay ≡ some r.relay_occurrences)))
  sources-records sources stable =
      let (records, made, each) =
        into_records-total (merge_sources query [] sources)
          (merge_sources-AllOf query [] sources stable (λ e i. elim i [ ])) in
      (
        records,
        made,
        λ source x i j qualifies.
            let (c, held, k) =
              merge_sources-Noted query [] sources x qualifies (inr (source, i, j)) in
            let (r, at, is) = each x.event.id c (In-get x.event.id _ held) in
            (r, at, is.same, (c.relay, k, is.occurrences)),
      )
