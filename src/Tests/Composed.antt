-- ===== src/Tests/Composed.antt =====
-- crates/fava-event-cache-memory with crates/fava-query-standard: a query over a cache, and the
-- theorem at it.
use fava.Base.{ℕ, ◌≡◌, refl, true, false, none, List, [], ◌∷◌, In, inl, ok, ◌==◌}
use fava.Query.Types.{Query, any_local, EventRecord, QuerySnapshot, matches_nothing}
use fava.Query.Evaluate.{evaluate, merge_sources, into_records, relay_qualifies}
use fava.Query.Cached.{open_cache, IsAnswered, cached-IsAnswered}
use fava.Tests.Crate.{crate, delivered}
use fava.Tests.Caches.{after_6, reached_6}
use fava.Tests.Queries.{reader, query}

-- All events, from wherever they are.
abbrev everything : Query
everything = record query {
  selection = record (query.selection) { kinds = none };
  source = record (query.source) { authority = any_local };
  limit = none;
}

everything_can_match : matches_nothing everything ≡ false
unfolding matches_nothing
everything_can_match = refl

delivered_qualifies : relay_qualifies everything (delivered 6) ≡ true
unfolding relay_qualifies
delivered_qualifies = refl

cached-IsAnswered_example :
    (out : QuerySnapshot) × (records : List EventRecord) × (r : EventRecord) × (evaluate crate
        reader everything
        (open_cache after_6 ∷ [])
      ≡ ok out)
    × (into_records (merge_sources everything [] (open_cache after_6 ∷ [])) ≡ ok records)
    × In r records
    × ◌≡◌ {A = ℕ} r.id 6
    × IsAnswered crate reader everything out.events r
cached-IsAnswered_example =
    cached-IsAnswered crate reader everything {Filter = ℕ} ◌==◌ 2 [] (6, 1) (delivered 6) reached_6
      (λ source x i. elim i [ ]) everything_can_match (inl refl) delivered_qualifies
