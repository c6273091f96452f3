-- ===== src/Routing/Coverage.antt =====
-- crates/fava-routing/src/lib.rs, `from_contribution`: what a plan says of relays and targets.
use fava.Base.{
  ℕ, ◌≡◌, ◌∙◌, arith, Bool, false, ◌&&◌, ◌||◌, List, [], ◌∷◌, if◌then◌else◌, any, ok, is_some_and,
  Option-cases, inl, inr, ◌==◌, Result-cases,
}
use fava.BTreeMap.{BTreeMap, nat_key, get, insert, get-insert}
use fava.BTreeSet.{contains, contains-extend}
use fava.Nostr.{RelayUrl}
use fava.Routing.Plan.{
  RouteTarget, target_eq, target_eq_iff, target_key, CoverageState, covered, unresolved,
  settled_absent, RouteDestination, RouteContribution, PlannedRelay, RoutePlan,
}
use fava.Routing.Contribution.{
  merge_coverage, or_unresolved, merge_entry, planned_or_new, plan_destination, cover_targets,
  Planned, plan_all, from_contribution, validate_bounds, text_pair_key,
}

-- One of the destinations is the relay with the target.
abbrev pub lists : RelayUrl → RouteTarget → List RouteDestination → Bool
lists session target = any (λ d. d.session == session && contains target d.targets)

-- The plan sends the target to the relay; the coverage has the relay for the target.
abbrev pub plans : RelayUrl → RouteTarget → BTreeMap RelayUrl PlannedRelay → Bool
plans session target destinations =
    is_some_and (get session destinations) (λ planned. contains target planned.targets)

abbrev pub includes : RelayUrl → CoverageState → Bool
includes session (covered sessions) = contains session sessions
includes session _ = false

abbrev pub covers : RelayUrl → RouteTarget → BTreeMap RouteTarget CoverageState → Bool
covers session target coverage = is_some_and (get target coverage) (includes session)

module _ (session : RelayUrl) (target : RouteTarget) where
  plans-insert :
      (relay : RelayUrl) (p : PlannedRelay) (destinations : BTreeMap RelayUrl PlannedRelay)
      → plans session target (insert relay p destinations) ≡ (
          if relay == session then contains target p.targets else plans session target destinations)
  plans-insert relay p destinations = ground (arith, get-insert relay session p destinations)

  planned-targets :
      (relay : RelayUrl) (destinations : BTreeMap RelayUrl PlannedRelay)
      → contains target (planned_or_new relay (get relay destinations)).targets
        ≡ plans relay target destinations
  unfolding contains
  planned-targets relay destinations = elim (Option-cases (get relay destinations)) [
    | inl missing ↦ ground (arith, missing)
    | inr (p, found) ↦ ground (arith, found)
  ]

  plans-plan_destination :
      (d : RouteDestination) (destinations : BTreeMap RelayUrl PlannedRelay)
      → plans session target (plan_destination d destinations)
        ≡ (plans session target destinations || (d.session == session && contains target d.targets))
  unfolding plan_destination
  plans-plan_destination d destinations =
      let planned = planned_or_new d.session (get d.session destinations) in
      plans-insert d.session _ destinations
      ∙ ground (
        arith,
        contains-extend target planned.targets d.targets,
        planned-targets d.session destinations,
      )

  includes-merge :
      (relay : RelayUrl) (state : CoverageState)
      → includes session (merge_coverage state (covered (relay ∷ [])))
        ≡ (includes session state || relay == session)
  unfolding merge_coverage contains
  includes-merge relay (covered sessions) =
      ground (arith, contains-extend session sessions (relay ∷ []))
  includes-merge relay unresolved = ground arith
  includes-merge relay settled_absent = ground arith

  includes-or_unresolved :
      (other : RouteTarget) (coverage : BTreeMap RouteTarget CoverageState)
      → includes session (or_unresolved (get other coverage)) ≡ covers session other coverage
  includes-or_unresolved other coverage = elim (Option-cases (get other coverage)) [
    | inl missing ↦ ground (arith, missing)
    | inr (state, found) ↦ ground (arith, found)
  ]

  covers-merge_entry :
      (relay : RelayUrl) (other : RouteTarget) (coverage : BTreeMap RouteTarget CoverageState)
      → covers session target (merge_entry other (covered (relay ∷ [])) coverage)
        ≡ (covers session target coverage || (relay == session && target_eq other target))
  unfolding merge_entry
  covers-merge_entry relay other coverage = ground (
    arith,
    get-insert other target
        (merge_coverage (or_unresolved (get other coverage)) (covered (relay ∷ []))) coverage,
    includes-merge relay (or_unresolved (get other coverage)),
    includes-or_unresolved other coverage,
    target_eq_iff other target,
  )

  covers-cover_targets :
      (relay : RelayUrl) (targets : List RouteTarget)
      (coverage : BTreeMap RouteTarget CoverageState)
      → covers session target (cover_targets relay targets coverage)
        ≡ (covers session target coverage || (relay == session && contains target targets))
  unfolding cover_targets contains
  covers-cover_targets relay [] coverage = ground arith
  covers-cover_targets relay (other ∷ targets) coverage = ground (
    arith,
    covers-cover_targets relay targets (merge_entry other (covered (relay ∷ [])) coverage),
    covers-merge_entry relay other coverage,
  )

  plans-plan_all :
      (ds : List RouteDestination) (planned : Planned)
      → (plans session target (plan_all ds planned).0
          ≡ (plans session target planned.0 || lists session target ds))
        × (covers session target (plan_all ds planned).1
            ≡ (covers session target planned.1 || lists session target ds))
  unfolding plan_all
  plans-plan_all [] planned = (ground arith, ground arith)
  plans-plan_all (d ∷ ds) (destinations, coverage) =
      let next : Planned =
        (plan_destination d destinations, cover_targets d.session d.targets coverage) in
      let (p, c) = plans-plan_all ds next in
      (
        ground (arith, p, plans-plan_destination d destinations),
        ground (arith, c, covers-cover_targets d.session d.targets coverage),
      )

  -- A plan made of a contribution sends a target to a relay exactly if one of the contribution's
  -- destinations does; it has the relay in the target's coverage exactly if that is so, or the
  -- contribution's coverage had it there already.
  pub from_contribution-covers :
      (revision : ℕ) (c : RouteContribution) {plan : RoutePlan}
      → from_contribution revision c ≡ ok plan
      → (plans session target plan.destinations ≡ lists session target c.destinations)
        × (covers session target plan.coverage
            ≡ (covers session target c.coverage || lists session target c.destinations))
  unfolding from_contribution get
  from_contribution-covers revision c {plan} h = elim (Result-cases (validate_bounds c)) [
    | inr (e, refused) ↦ absurd (ground (arith, refused))
    | inl (u, valid) ↦
        let (p, q) = plans-plan_all c.destinations ([], c.coverage) in
        (ground (arith, valid, p), ground (arith, valid, q))
  ]
