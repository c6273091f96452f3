-- ===== src/Delivery/Ceiling.antt =====
-- crates/fava-delivery-standard with crates/fava-write-store-memory: the number of attempts.
use fava.Base.{ok, ℕ, ◌≤◌, ◌<◌, ◌≡◌, inl, inr, arith, String, max, some, List, [], ◌∷◌}
use fava.BTreeMap.{nat_key, get, get-insert, get-remove, keys}
use fava.BTreeSet.{difference}
use fava.Nostr.{RelayUrl}
use fava.Routing.Plan.{RouteTarget, RoutePlan}
use fava.Write.Receipt.{RelayDeliveryOutcome, Receipt, destinations}
use fava.Write.Routes.{Lanes, withdraw, withdraw_all, routed, settle_route}
use fava.Write.Lanes.{apply_route-cases}
use fava.Write.Store.{settle}
use fava.Write.Lifecycle.{changed, Claim, count_or_zero, begin_attempt, record_outcome, apply_route}
use fava.Write.Steps.{begin_attempt-Begun, record_outcome-Recorded, apply_route-applied}
use fava.Delivery.Policy.{attempt_now, decide}

-- The attempts at one destination so far.
abbrev pub attempts_at : RelayUrl → Receipt → ℕ
attempts_at session r = count_or_zero (get session r.attempts)

-- A run in which attempts begin only where the policy says so. What is recorded and routed is free.
pub data PolicyTrail (describe : RouteTarget → String) (maximum : ℕ) (r : Receipt)
    : Receipt → Type 0 where
  start : PolicyTrail describe maximum r r
  begins :
      {mid after : Receipt} (claim : Claim) (session : RelayUrl) (attempt : ℕ)
      (o : RelayDeliveryOutcome)
      → PolicyTrail describe maximum r mid
      → get session (destinations mid) ≡ some o
      → decide maximum (record { attempts = attempts_at session mid; outcome = o }) ≡ attempt_now
      → begin_attempt claim session attempt mid ≡ ok (changed after)
      → PolicyTrail describe maximum r after
  records :
      {mid after : Receipt} (claim : Claim) (session : RelayUrl) (attempt : ℕ)
      (o : RelayDeliveryOutcome)
      → PolicyTrail describe maximum r mid
      → record_outcome claim session attempt o mid ≡ ok (changed after)
      → PolicyTrail describe maximum r after
  routes :
      {mid after : Receipt} (claim : Claim) (plan : RoutePlan)
      → PolicyTrail describe maximum r mid
      → apply_route describe claim plan mid ≡ ok (changed after)
      → PolicyTrail describe maximum r after

decide-below :
    (maximum attempts : ℕ) (o : RelayDeliveryOutcome)
    → decide maximum (record { attempts = attempts; outcome = o }) ≡ attempt_now
    → attempts < maximum
unfolding decide
decide-below maximum attempts o h = ground arith

withdraw-attempts :
    (s t : RelayUrl) (l : Lanes)
    → count_or_zero (get s (withdraw t l).1) ≤ count_or_zero (get s l.1)
unfolding withdraw
withdraw-attempts s t l = ground (arith, get-remove t s l.1)

withdraw_all-attempts :
    (s : RelayUrl) (ts : List RelayUrl) (l : Lanes)
    → count_or_zero (get s (withdraw_all ts l).1) ≤ count_or_zero (get s l.1)
unfolding withdraw_all
withdraw_all-attempts s [] l = omega arith
withdraw_all-attempts s (t ∷ ts) l =
    omega (arith, withdraw_all-attempts s ts (withdraw t l), withdraw-attempts s t l)

settle-attempts : (r : Receipt) → (settle r).attempts ≡ r.attempts
unfolding settle
settle-attempts r = ground arith

routed-attempts :
    (describe : RouteTarget → String) (plan : RoutePlan) (r : Receipt) (s : RelayUrl)
    → attempts_at s (routed describe plan r) ≤ attempts_at s r
unfolding routed settle_route
routed-attempts describe plan r s = ground (
  arith,
  withdraw_all-attempts s (difference r.desired_destinations (keys plan.destinations))
      (destinations r, r.attempts),
)

module _ (describe : RouteTarget → String) (maximum : ℕ) (r : Receipt) (s : RelayUrl) where
  -- Where the standard policy decides when to begin an attempt, the attempts that are counted at a
  -- destination are never more than the policy's ceiling or the count at the start, whichever is
  -- more.
  pub attempts-ceiling :
      {after : Receipt}
      → PolicyTrail describe maximum r after
      → attempts_at s after ≤ max maximum (attempts_at s r)
  attempts-ceiling start = omega arith
  attempts-ceiling (begins {mid} claim session attempt o trail found now step) =
      let b = begin_attempt-Begun claim session attempt mid step in
      rw (← b.result) (
        ground (
          arith,
          b.counted,
          get-insert session s attempt mid.attempts,
          decide-below maximum (attempts_at session mid) o now,
          attempts-ceiling trail,
        ))
  attempts-ceiling (records {mid} claim session attempt o trail step) =
      let b = record_outcome-Recorded claim session attempt mid o step in
      rw (← b.result) (rw settle-attempts (attempts-ceiling trail))
  attempts-ceiling (routes {mid} claim plan trail step) =
      let bound = attempts-ceiling trail in
      elim (apply_route-cases describe plan mid
        (apply_route-applied claim 0 0 mid describe plan step).0) [
          | inl same ↦ rw (← same) bound
          | inr e ↦ rw (← e) (omega (arith, bound, routed-attempts describe plan mid s))
        ]
