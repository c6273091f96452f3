-- ===== src/Query/Winners.antt =====
-- crates/fava-query-standard/src/lib.rs, `coordinate_winners`: one record stays at each coordinate,
-- and no record there is newer.
use fava.Base.{
  ◌≡◌, refl, arith, true, false, none, some, List, [], ◌∷◌, In, inl, inr, ◌⊎◌, Bool-cases,
  Option-cases, In-map, map_of_In, subst, ◌∙◌,
}
use fava.BTreeMap.{BTreeMap, nat_key, get, insert, get-insert, In-insert, In-get}
use fava.BTreeMap.Distinct.{Distinct, get_of_In, Distinct-insert}
use fava.Nostr.{Nostr}
use fava.State.Coordinate.{
  EventCoordinate, coordinate_key, coordinate_eq, coordinate_eq_iff, event_is_newer,
}
use fava.Query.Types.{EventRecord}
use fava.Query.Evaluate.{
  TagReader, stamp, insert_newest, record_coordinate, winners_among, coordinate_winners,
}

abbrev pub NotNewer : EventRecord → EventRecord → Type 0
NotNewer r w = event_is_newer (stamp r) (stamp w) ≡ false

not_newer_self : (r : EventRecord) → NotNewer r r
unfolding event_is_newer
not_newer_self r = ground arith

not_newer_trans : (a b c : EventRecord) → NotNewer a b → NotNewer b c → NotNewer a c
unfolding event_is_newer
not_newer_trans a b c h k = ground arith

not_newer_of_newer : (a b : EventRecord) → event_is_newer (stamp a) (stamp b) ≡ true → NotNewer b a
unfolding event_is_newer
not_newer_of_newer a b h = ground arith

abbrev Winners : Type 0
Winners = BTreeMap EventCoordinate EventRecord

-- A record at the coordinate that this one is not newer than.
abbrev Beaten : Winners → EventCoordinate → EventRecord → Type 0
Beaten found k r = (w : EventRecord) × (get k found ≡ some w) × NotNewer r w

insert_newest-incoming :
    (found : Winners) (k : EventCoordinate) (r : EventRecord) → Beaten (insert_newest found k r) k r
unfolding insert_newest
insert_newest-incoming found k r = elim (Option-cases (get k found)) [
  | inl missing ↦
      rw (missing, insert_newest)
        (r, get-insert k k r found ∙ rw ((coordinate_eq_iff k k).1 refl) refl, not_newer_self r)
  | inr (w, held) ↦ elim (Bool-cases (event_is_newer (stamp r) (stamp w))) [
    | inl newer ↦
        rw (held, insert_newest)
          (rw newer (
            r,
            get-insert k k r found ∙ rw ((coordinate_eq_iff k k).1 refl) refl,
            not_newer_self r,
          ))
    | inr older ↦ rw (held, insert_newest) (rw older (w, held, older))
  ]
]

insert_newest-Beaten :
    (found : Winners) (k j : EventCoordinate) (r x : EventRecord)
    → Beaten found j x
    → Beaten (insert_newest found k r) j x
unfolding insert_newest
insert_newest-Beaten found k j r x (w, there, beaten) = elim (Option-cases (get k found)) [
  | inl missing ↦
      rw (missing, insert_newest) (w, get-insert k j r found ∙ rw (apart missing) there, beaten)
  | inr (v, held) ↦ elim (Bool-cases (event_is_newer (stamp r) (stamp v))) [
    | inr older ↦ rw (held, insert_newest) (rw older (w, there, beaten))
    | inl newer ↦ elim (Bool-cases (coordinate_eq k j)) [
      | inr other ↦
          rw (held, insert_newest) (rw newer (w, get-insert k j r found ∙ rw other there, beaten))
      | inl same ↦
          let is_v : w ≡ v = ground (arith, there, held, (coordinate_eq_iff k j).0 same) in
          rw (held, insert_newest)
            (rw newer (
              r,
              get-insert k j r found ∙ rw same refl,
              not_newer_trans x w r beaten (rw is_v (not_newer_of_newer r v newer)),
            ))
    ]
  ]
]
  where
    apart : get k found ≡ none → coordinate_eq k j ≡ false
    apart missing = ground (arith, there, missing, coordinate_eq_iff k j)

module _ (nostr : Nostr) (reader : TagReader) where
  abbrev pub at : EventRecord → EventCoordinate
  at = record_coordinate nostr reader

  winners_among-Beaten :
      (found : Winners) (records : List EventRecord) (r : EventRecord)
      → In r records ⊎ Beaten found (at r) r
      → Beaten (winners_among nostr reader found records) (at r) r
  unfolding winners_among
  winners_among-Beaten found [] r (inl i) = elim i [ ]
  winners_among-Beaten found [] r (inr beaten) = beaten
  winners_among-Beaten found (x ∷ records) r h =
      winners_among-Beaten (insert_newest found (at x) x) records r (elim h [
        | inl (inl e) ↦ inr (
            subst (λ (y : EventRecord). Beaten (insert_newest found (at x) x) (at y) y) e
              (insert_newest-incoming found (at x) x))
        | inl (inr i) ↦ inl i
        | inr beaten ↦ inr (insert_newest-Beaten found (at x) (at r) x r beaten)
      ])

  -- The entries stand at their coordinates and come from the records.
  record IsFrom (records : List EventRecord) (found : Winners) : Type 0 where
    distinct : Distinct found
    entries : (e : EventCoordinate × EventRecord) → In e found → (at e.1 ≡ e.0) × In e.1 records

  insert_newest-IsFrom :
      (records : List EventRecord) (found : Winners) (r : EventRecord)
      → In r records
      → IsFrom records found
      → IsFrom records (insert_newest found (at r) r)
  unfolding insert_newest
  insert_newest-IsFrom records found r i from = elim (Option-cases (get (at r) found)) [
    | inl missing ↦ rw (missing, insert_newest) inserted
    | inr (w, held) ↦ elim (Bool-cases (event_is_newer (stamp r) (stamp w))) [
      | inl newer ↦ rw (held, insert_newest) (rw newer inserted)
      | inr older ↦ rw (held, insert_newest) (rw older from)
    ]
  ]
    where
      inserted : IsFrom records (insert (at r) r found)
      inserted = record {
        distinct = Distinct-insert (at r) r found from.distinct;
        entries = λ e j. elim (In-insert e (at r) r found j) [
          | inl new ↦
              subst (λ (e : EventCoordinate × EventRecord). (at e.1 ≡ e.0) × In e.1 records) new
                (refl, i)
          | inr old ↦ from.entries e old
        ];
      }

  winners_among-IsFrom :
      (all_records : List EventRecord) (found : Winners) (records : List EventRecord)
      → ((r : EventRecord) → In r records → In r all_records)
      → IsFrom all_records found
      → IsFrom all_records (winners_among nostr reader found records)
  unfolding winners_among
  winners_among-IsFrom all_records found [] of from = from
  winners_among-IsFrom all_records found (r ∷ records) of from =
      winners_among-IsFrom all_records (insert_newest found (at r) r) records (λ x i. of x (inr i))
        (insert_newest-IsFrom all_records found r (of r (inl refl)) from)

  -- What `coordinate_winners` promises.
  pub record IsWinners (records winners : List EventRecord) : Type 0 where
    pub from : (w : EventRecord) → In w winners → In w records
    pub one_each : (v w : EventRecord) → In v winners → In w winners → at v ≡ at w → v ≡ w
    pub newest :
        (r : EventRecord)
        → In r records
        → (w : EventRecord) × In w winners × (at w ≡ at r) × NotNewer r w

  pub coordinate_winners-IsWinners :
      (records : List EventRecord) → IsWinners records (coordinate_winners nostr reader records)
  unfolding coordinate_winners
  coordinate_winners-IsWinners records = record {
    from = λ w i.
        let (e, j, is_w) = In-map w second_of found i in
        subst (λ (x : EventRecord). In x records) is_w (good.entries e j).1;
    one_each = λ v w i j same.
        let (d, k, is_v) = In-map v second_of found i in
        let (e, l, is_w) = In-map w second_of found j in
        cc (
          get_of_In d found good.distinct k,
          get_of_In e found good.distinct l,
          (good.entries d k).0,
          (good.entries e l).0,
          is_v,
          is_w,
          same,
        );
    newest = λ r i.
        let (w, there, beaten) = winners_among-Beaten [] records r (inl i) in
        let held = In-get (at r) found there in
        (w, map_of_In (at r, w) second_of found held, (good.entries (at r, w) held).0, beaten);
  }
    where
      found : Winners
      found = winners_among nostr reader [] records

      second_of : EventCoordinate × EventRecord → EventRecord
      second_of e = e.1

      good : IsFrom records found
      good =
          winners_among-IsFrom records [] records (λ r i. i)
            (record { distinct = tt; entries = λ e i. elim i [ ] })
