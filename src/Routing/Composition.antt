-- ===== src/Routing/Composition.antt =====
-- crates/fava-routing/src/chain.rs: what holds of a composer, whatever the routers contribute.
use fava.Base.{
  ℕ, ◌≤◌, ◌≡◌, refl, arith, Bool, true, false, String, some, List, [], ◌∷◌, ltb, length,
  length-append, is_none, ok, Result-cases, Option-cases, Bool-cases, inl, inr, In, suc, zero,
  subst,
}
use fava.BTreeMap.{BTreeMap, nat_key, get, insert, values, In-insert}
use fava.BTreeSet.{BTreeSet}
use fava.Routing.Plan.{
  RouteTarget, target_key, CoverageState, covered, unresolved, settled_absent, RouteContribution,
}
use fava.Routing.Contribution.{
  RouterError, validate_bounds, validate_covered, validate_reasons, validate_shortfalls, bounded,
}
use fava.Routing.Validated.{IsBounded, validate_bounds-IsBounded}
use fava.Routing.Composer.{
  Composer, new_composer, no_contribution, repeated, record_shortfall, record_error, bounded_error,
  merged, combine, combine_onto, merge_entries, complete_target, complete_targets,
  settle_acceptance, accept_contribution, replaced, max_shortfalls,
}

-- The merged contribution is within the bounds, and the shortfalls are no more than theirs.
pub record IsWithin (composer : Composer) : Type 0 where
  pub bounds : IsBounded (merged composer)
  pub few : length composer.shortfalls ≤ 256

-- The merged contribution passes the check of its bounds.
record IsChecked (composer : Composer) : Type 0 where
  bounds : validate_bounds (merged composer) ≡ ok tt
  few : length composer.shortfalls ≤ 256

IsChecked-IsWithin : (composer : Composer) → IsChecked composer → IsWithin composer
IsChecked-IsWithin composer good = record {
  bounds = validate_bounds-IsBounded (merged composer) good.bounds;
  few = good.few;
}

-- Without a covered target.
abbrev is_covered : CoverageState → Bool
is_covered (covered _) = true
is_covered _ = false

abbrev Uncovered : BTreeMap RouteTarget CoverageState → Type 0
Uncovered m = (e : RouteTarget × CoverageState) → In e m → is_covered e.1 ≡ false

Uncovered-insert :
    (t : RouteTarget) (state : CoverageState) (m : BTreeMap RouteTarget CoverageState)
    → is_covered state ≡ false
    → Uncovered m
    → Uncovered (insert t state m)
Uncovered-insert t state m bare all_bare e i = elim (In-insert e t state m i) [
  | inl is_new ↦ subst (λ (e : RouteTarget × CoverageState). is_covered e.1 ≡ false) is_new bare
  | inr old ↦ all_bare e old
]

Uncovered-valid :
    (m : BTreeMap RouteTarget CoverageState) → Uncovered m → validate_covered (values m) ≡ ok tt
unfolding validate_covered
Uncovered-valid [] all_bare = refl
Uncovered-valid ((t, covered s) ∷ m) all_bare =
    absurd (ground (arith, all_bare (t, covered s) (inl refl)))
Uncovered-valid ((t, unresolved) ∷ m) all_bare = Uncovered-valid m (λ e i. all_bare e (inr i))
Uncovered-valid ((t, settled_absent) ∷ m) all_bare = Uncovered-valid m (λ e i. all_bare e (inr i))

-- A contribution that asks for nothing, whatever targets are completed in it.
record IsBare (c : RouteContribution) : Type 0 where
  destinations : c.destinations ≡ []
  shortfalls : c.shortfalls ≡ []
  coverage : Uncovered c.coverage

complete_targets-IsBare :
    (answered : Bool) (targets : List RouteTarget) (c : RouteContribution)
    → IsBare c
    → IsBare (complete_targets answered targets c)
unfolding complete_targets complete_target
complete_targets-IsBare answered [] c bare = bare
complete_targets-IsBare answered (t ∷ targets) c bare =
    complete_targets-IsBare answered targets (complete_target answered t c)
      (elim (Bool-cases (is_none (get t c.coverage))) [
        | inr held ↦ rw (held, complete_target) bare
        | inl missing ↦ elim (Bool-cases answered) [
          | inl yes_answered ↦
              rw (missing, yes_answered, complete_target)
                (record {
                  destinations = bare.destinations;
                  shortfalls = bare.shortfalls;
                  coverage = Uncovered-insert t settled_absent c.coverage refl bare.coverage;
                })
          | inr not_answered ↦
              rw (missing, not_answered, complete_target)
                (record {
                  destinations = bare.destinations;
                  shortfalls = bare.shortfalls;
                  coverage = Uncovered-insert t unresolved c.coverage refl bare.coverage;
                })
        ]
      ])

IsBare-valid : (c : RouteContribution) → IsBare c → validate_bounds c ≡ ok tt
unfolding validate_bounds validate_reasons validate_shortfalls bounded fava.BTreeSet.extend
IsBare-valid c bare =
    rw (bare.destinations, bare.shortfalls, Uncovered-valid c.coverage bare.coverage) refl

combine-repeated :
    (n : ℕ) → combine_onto no_contribution (repeated n no_contribution) ≡ no_contribution
unfolding combine_onto merge_entries fava.BTreeSet.extend
combine-repeated zero = refl
combine-repeated (suc n) = combine-repeated n

new_composer-IsChecked :
    (routers : ℕ) (targets : BTreeSet RouteTarget) → IsChecked (new_composer routers targets)
unfolding new_composer merged combine
new_composer-IsChecked routers targets = record {
  bounds = IsBare-valid _ (
      complete_targets-IsBare _ targets _ (
        rw (combine-repeated routers)
          (record { destinations = refl; shortfalls = refl; coverage = λ e i. elim i [ ] })));
  few = omega arith;
}

module _ (describe : String → RouterError → String) where
  -- What the routers of a chain make of its composer.
  pub data ComposerTrail (routers : ℕ) (targets : BTreeSet RouteTarget) : Composer → Type 0 where
    start : ComposerTrail routers targets (new_composer routers targets)
    accepts :
        {composer after : Composer} (index : ℕ) (router : String) (contribution : RouteContribution)
        → ComposerTrail routers targets composer
        → accept_contribution describe composer index router contribution ≡ some after
        → ComposerTrail routers targets after
    records :
        {composer after : Composer} (router : String) (error : RouterError)
        → ComposerTrail routers targets composer
        → record_error describe router error composer ≡ some after
        → ComposerTrail routers targets after

  record_shortfall-IsChecked :
      (composer : Composer) (text : String)
      → IsChecked composer
      → IsChecked (record_shortfall composer text)
  unfolding record_shortfall merged
  record_shortfall-IsChecked composer text good =
      elim (Bool-cases (ltb (length composer.shortfalls) max_shortfalls)) [
        | inl room ↦
            rw (room, record_shortfall)
              (record {
                bounds = good.bounds;
                few = rw (length-append composer.shortfalls (text ∷ [])) (ground (arith, room));
              })
        | inr full ↦ rw (full, record_shortfall) (record { bounds = good.bounds; few = good.few })
      ]

  record_error-IsChecked :
      (router : String) (error : RouterError) (composer : Composer) {after : Composer}
      → record_error describe router error composer ≡ some after
      → IsChecked composer
      → IsChecked after
  unfolding record_error
  record_error-IsChecked router error composer {after} h good =
      elim (Option-cases (bounded_error describe router error)) [
        | inl panics ↦ absurd (ground (arith, panics))
        | inr (text, made) ↦
            let e : record_shortfall composer text ≡ after = ground (arith, made) in
            subst IsChecked e (record_shortfall-IsChecked composer text good)
      ]

  settle-IsChecked :
      (router : String) (composer changed : Composer) {after : Composer}
      → settle_acceptance describe router composer changed ≡ some after
      → length changed.shortfalls ≤ 256
      → IsChecked composer
      → IsChecked after
  unfolding settle_acceptance
  settle-IsChecked router composer changed {after} h few good =
      elim (Result-cases (validate_bounds (merged changed))) [
        | inl (u, valid) ↦
            let e : changed ≡ after = ground (arith, valid) in
            subst IsChecked e (record { bounds = valid; few = few })
        | inr (error, refused) ↦
            record_error-IsChecked router error composer (rw (refused, settle_acceptance) at h) good
      ]

  accept-IsChecked :
      (composer : Composer) (index : ℕ) (router : String) (contribution : RouteContribution)
      {after : Composer}
      → accept_contribution describe composer index router contribution ≡ some after
      → IsChecked composer
      → IsChecked after
  unfolding accept_contribution
  accept-IsChecked composer index router contribution h good =
      elim (Option-cases (replaced index contribution composer.contributions)) [
        | inl panics ↦ absurd (ground (arith, panics))
        | inr (contributions, p) ↦ elim (Option-cases (replaced index true composer.answered)) [
          | inl panics ↦ absurd (ground (arith, p, panics))
          | inr (answered, q) ↦
              settle-IsChecked router composer
                (record composer { contributions = contributions; answered = answered })
                (rw (p, q, accept_contribution) at h) good.few good
        ]
      ]

  trail-IsChecked :
      (routers : ℕ) (targets : BTreeSet RouteTarget) {composer : Composer}
      → ComposerTrail routers targets composer
      → IsChecked composer
  trail-IsChecked routers targets start = new_composer-IsChecked routers targets
  trail-IsChecked routers targets (accepts {composer} index router contribution trail h) =
      accept-IsChecked composer index router contribution h (trail-IsChecked routers targets trail)
  trail-IsChecked routers targets (records {composer} router error trail h) =
      record_error-IsChecked router error composer h (trail-IsChecked routers targets trail)

  -- Whatever the routers of a chain contribute or refuse, and as long as no call panics, the whole
  -- that they have contributed has destinations in at most 256 sessions, no reason or shortfall of
  -- more than 4096 bytes, and no target that more than 256 sessions cover; and at most 256
  -- shortfalls are recorded beside it.
  pub trail-IsWithin :
      (routers : ℕ) (targets : BTreeSet RouteTarget) {composer : Composer}
      → ComposerTrail routers targets composer
      → IsWithin composer
  trail-IsWithin routers targets {composer} trail =
      IsChecked-IsWithin composer (trail-IsChecked routers targets trail)
