-- ===== src/Write/Replay.antt =====
-- crates/fava-write-store/src/receipt.rs, `apply_route_to_receipt`: a route applied a second time.
use fava.Base.{ℕ, ◌<◌, ◌≡◌, refl, true, String, List, [], ◌∷◌, arith, ok, eq_iff, ap, sym, ◌∙◌}
use fava.BTreeMap.{BTreeMap, nat_key}
use fava.BTreeSet.{set_eq_iff}
use fava.Nostr.{RelayUrl}
use fava.Routing.Plan.{RouteTarget, RoutePlan}
use fava.Write.Receipt.{Receipt, outcome_eq_iff, destinations}
use fava.Write.Routes.{
  Outcome, outcomes_eq, attempts_eq, texts_eq, same_route_effect, reset_route, routed, settle_route,
  apply_newer_route_to_receipt, persisted_route_effect_matches, apply_route_to_receipt,
  is_automatic,
}

outcomes_eq_refl : (d : BTreeMap RelayUrl Outcome) → outcomes_eq d d ≡ true
unfolding outcomes_eq
outcomes_eq_refl [] = refl
outcomes_eq_refl ((s, a) ∷ d) = ground (arith, outcome_eq_iff a a, outcomes_eq_refl d)

attempts_eq_refl : (d : BTreeMap RelayUrl ℕ) → attempts_eq d d ≡ true
unfolding attempts_eq
attempts_eq_refl [] = refl
attempts_eq_refl ((s, a) ∷ d) = ground (arith, attempts_eq_refl d)

texts_eq_refl : (t : List String) → texts_eq t t ≡ true
unfolding texts_eq
texts_eq_refl [] = refl
texts_eq_refl (a ∷ t) = ground (arith, eq_iff a a, texts_eq_refl t)

same_route_effect_refl : (r : Receipt) → same_route_effect r r ≡ true
unfolding same_route_effect
same_route_effect_refl r = ground (
  arith,
  texts_eq_refl r.route_shortfalls,
  (set_eq_iff r.desired_destinations r.desired_destinations).1 refl,
  attempts_eq_refl r.attempts,
  outcomes_eq_refl (destinations r),
)

reset_revision : (r : Receipt) → (reset_route r).route_revision ≡ 0
unfolding reset_route
reset_revision r = refl

module _ (describe : RouteTarget → String) (plan : RoutePlan) (r : Receipt) where
  reset_route-routed : reset_route (routed describe plan r) ≡ reset_route r
  unfolding reset_route routed settle_route
  reset_route-routed = ground arith

  routed_fields :
      ((routed describe plan r).route_revision ≡ plan.revision)
      × ((routed describe plan r).routing ≡ r.routing)
  unfolding routed settle_route
  routed_fields = (ground arith, ground arith)

  accepted :
      {after : Receipt}
      → r.route_revision ≡ 0
      → 0 < plan.revision
      → apply_route_to_receipt describe r plan ≡ ok after
      → (apply_newer_route_to_receipt describe r plan ≡ ok after) × (is_automatic r.routing ≡ true)
  unfolding apply_route_to_receipt
  accepted zero_r positive h = ground arith

  newer-routed :
      {after : Receipt}
      → apply_newer_route_to_receipt describe r plan ≡ ok after
      → routed describe plan r ≡ after
  unfolding apply_newer_route_to_receipt
  newer-routed h = ground arith

  matches_again :
      {after : Receipt}
      → reset_route r ≡ r
      → apply_newer_route_to_receipt describe r plan ≡ ok after
      → persisted_route_effect_matches describe after plan ≡ true
  unfolding persisted_route_effect_matches
  matches_again {after} fresh h =
      let e : reset_route after ≡ r = rw (← newer-routed h) (reset_route-routed ∙ fresh) in
      rw (e, h, persisted_route_effect_matches) (same_route_effect_refl after)

  -- A route that a receipt without any route accepts may be applied again: the second application
  -- is accepted and changes nothing.
  pub apply_route_replay :
      {after : Receipt}
      → reset_route r ≡ r
      → 0 < plan.revision
      → apply_route_to_receipt describe r plan ≡ ok after
      → apply_route_to_receipt describe after plan ≡ ok after
  unfolding apply_route_to_receipt
  apply_route_replay {after} fresh positive h =
      let zero_r : r.route_revision ≡ 0 =
        sym (ap (λ (x : Receipt). x.route_revision) fresh) ∙ reset_revision r in
      let (newer, auto) = accepted zero_r positive h in
      let e = newer-routed newer in
      let (revision, routing) = routed_fields in
      ground (arith, matches_again fresh newer, e, revision, routing, auto)
