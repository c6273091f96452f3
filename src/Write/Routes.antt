-- ===== src/Write/Routes.antt =====
-- crates/fava-write-store/src/receipt.rs: the bounds of a receipt, and how a route changes it.
use Prim.Native.String.{len}
use fava.Base.{
  is_empty, ℕ, Bool, true, false, not, ◌&&◌, ◌||◌, String, Option, some, List, [], ◌∷◌, ◌++◌, map,
  ltb, leb, ◌==◌, if◌then◌else◌, Result, ok, err, ◌>>=◌, length, any, keep, str_eq, is_none,
}
use fava.BTreeMap.{BTreeMap, nat_key, get, insert, remove, keys, values}
use fava.BTreeSet.{difference, set_eq}
use fava.Nostr.{EventId, RelayUrl}
use fava.Routing.Plan.{RouteTarget, CoverageState, settled_absent, RoutePlan, settled}
use fava.Write.Receipt.{
  RelayDeliveryOutcome, pending, attempting, retryable, acknowledged, rejected,
  authentication_denied, given_up, unknown, cancelled_before_handoff, is_terminal_outcome,
  outcome_eq, Receipt, ReceiptOutcome, opened, complete, no_destination, cancelled, is_terminal,
  destinations, with_destinations, WriteRouting, automatic, explicit,
}

-- The messages of `WriteStoreError::Refused`, and an event without identity.
pub data WriteStoreError : Type 0 where
  text_exceeds_bound revision_not_current route_of_explicit route_stale route_zero route_differs :
      WriteStoreError
  fan_out_exceeds_bound shortfalls_exceed_bound : WriteStoreError
  receipt_missing signed_differently signature_mismatch completion_unauthorized invalid_event :
      WriteStoreError
  refusal_unauthorized refusal_not_current already_signed authorization_not_current :
      WriteStoreError
  retryable_not_current successor_missing custody_missing revision_exhausted : WriteStoreError
  attempts_exhausted attempt_not_current destination_missing destination_not_pending :
      WriteStoreError
  outcome_not_final source_revision_exhausted identity_exhausted capacity_reached : WriteStoreError
  edit_requires_revision not_cancellable active_receipt missing_id : WriteStoreError
  coordinate_reserved durable_successor reservation_exhausted reservation_not_current :
      WriteStoreError

abbrev pub Outcome : Type 0
Outcome = RelayDeliveryOutcome

abbrev pub max_receipt_text_bytes : ℕ
max_receipt_text_bytes = 4096

abbrev pub destination_evidence_capacity : ℕ
destination_evidence_capacity = 256

unfoldable pub validate_receipt_text : String → Result WriteStoreError (Unit {0})
validate_receipt_text value =
    if leb (len value) max_receipt_text_bytes then ok tt else err text_exceeds_bound

unfoldable pub validate_delivery_outcome : Outcome → Result WriteStoreError (Unit {0})
unfolding validate_receipt_text
validate_delivery_outcome (retryable reason) = validate_receipt_text reason
validate_delivery_outcome (authentication_denied reason) = validate_receipt_text reason
validate_delivery_outcome (given_up reason) = validate_receipt_text reason
validate_delivery_outcome (unknown reason) = validate_receipt_text reason
validate_delivery_outcome (acknowledged message) = validate_receipt_text message
validate_delivery_outcome (rejected message) = validate_receipt_text message
validate_delivery_outcome pending = ok tt
validate_delivery_outcome attempting = ok tt
validate_delivery_outcome cancelled_before_handoff = ok tt

unfoldable pub validate_current_revision :
    Receipt → ℕ → ℕ → EventId → Result WriteStoreError (Unit {0})
unfolding is_terminal
validate_current_revision receipt write_id revision_id event_id =
    if is_terminal receipt
      || not (receipt.write_id == write_id)
      || not (receipt.current.publication.revision_id == revision_id)
      || not (receipt.current.id == event_id)
    then err revision_not_current
    else ok tt

-- One round of the loop over the destinations that a route takes back.
abbrev pub Lanes : Type 0
Lanes = BTreeMap RelayUrl Outcome × BTreeMap RelayUrl ℕ

abbrev pub withdraw_outcome : RelayUrl → Option Outcome → Lanes → Lanes
withdraw_outcome session (some pending) (d, a) = (remove session d, remove session a)
withdraw_outcome session (some (retryable _)) (d, a) =
    (insert session cancelled_before_handoff d, a)
withdraw_outcome session _ lanes = lanes

unfoldable pub withdraw : RelayUrl → Lanes → Lanes
withdraw session lanes = withdraw_outcome session (get session lanes.0) lanes

unfoldable pub withdraw_all : List RelayUrl → Lanes → Lanes
withdraw_all [] lanes = lanes
withdraw_all (session ∷ sessions) lanes = withdraw_all sessions (withdraw session lanes)

-- `entry(session).or_insert(Pending)`.
unfoldable pub request : RelayUrl → BTreeMap RelayUrl Outcome → BTreeMap RelayUrl Outcome
request session d = if is_none (get session d) then insert session pending d else d

unfoldable pub request_all : List RelayUrl → BTreeMap RelayUrl Outcome → BTreeMap RelayUrl Outcome
request_all [] d = d
request_all (session ∷ sessions) d = request_all sessions (request session d)

unfoldable pub settle_route : Receipt → Receipt
settle_route receipt =
    if not receipt.route_settled
      || any (λ outcome. not (is_terminal_outcome outcome)) (values (destinations receipt))
    then record receipt { outcome = opened }
    else if is_empty receipt.desired_destinations
    then record receipt { outcome = no_destination }
    else record receipt { outcome = complete }

abbrev pub is_settled_absent : CoverageState → Bool
is_settled_absent settled_absent = true
is_settled_absent _ = false

unfoldable pub validate_texts : List String → Result WriteStoreError (Unit {0})
validate_texts [] = ok tt
validate_texts (text ∷ texts) = do _ ← validate_receipt_text text; validate_texts texts

-- The comparisons of the fields that a route changes.
unfoldable pub outcomes_eq : BTreeMap RelayUrl Outcome → BTreeMap RelayUrl Outcome → Bool
outcomes_eq [] [] = true
outcomes_eq ((s, a) ∷ d) ((t, b) ∷ e) = s == t && outcome_eq a b && outcomes_eq d e
outcomes_eq _ _ = false

unfoldable pub attempts_eq : BTreeMap RelayUrl ℕ → BTreeMap RelayUrl ℕ → Bool
attempts_eq [] [] = true
attempts_eq ((s, a) ∷ d) ((t, b) ∷ e) = s == t && a == b && attempts_eq d e
attempts_eq _ _ = false

unfoldable pub texts_eq : List String → List String → Bool
texts_eq [] [] = true
texts_eq (a ∷ s) (b ∷ t) = str_eq a b && texts_eq s t
texts_eq _ _ = false

abbrev pub receipt_outcome_rank : ReceiptOutcome → ℕ
receipt_outcome_rank opened = 0
receipt_outcome_rank cancelled = 1
receipt_outcome_rank complete = 2
receipt_outcome_rank no_destination = 3

abbrev pub bool_eq : Bool → Bool → Bool
bool_eq true b = b
bool_eq false b = not b

unfoldable pub same_route_effect : Receipt → Receipt → Bool
unfolding outcomes_eq attempts_eq texts_eq
same_route_effect a b =
    receipt_outcome_rank a.outcome == receipt_outcome_rank b.outcome
    && a.route_revision == b.route_revision
    && bool_eq a.route_settled b.route_settled
    && texts_eq a.route_shortfalls b.route_shortfalls
    && set_eq a.desired_destinations b.desired_destinations
    && attempts_eq a.attempts b.attempts
    && outcomes_eq (destinations a) (destinations b)

-- The receipt as if no route had ever been applied.
unfoldable pub reset_route : Receipt → Receipt
reset_route receipt = with_destinations [] (record receipt {
  outcome = opened;
  route_revision = 0;
  route_settled = false;
  route_shortfalls = [];
  desired_destinations = [];
  attempts = [];
})

abbrev pub is_automatic : WriteRouting → Bool
is_automatic automatic = true
is_automatic (explicit _) = false

-- `describe` is the text that the program derives for an absent target.
module _ (describe : RouteTarget → String) where
  unfoldable pub route_shortfalls : RoutePlan → List String
  route_shortfalls plan =
      plan.shortfalls ++ map (λ e. describe e.0) (keep (λ e. is_settled_absent e.1) plan.coverage)

  -- The receipt with the route in it, all bounds being met.
  unfoldable pub routed : RoutePlan → Receipt → Receipt
  unfolding settle_route route_shortfalls
  routed plan receipt =
      let desired = keys plan.destinations in
      let removed = difference receipt.desired_destinations desired in
      let lanes = withdraw_all removed (destinations receipt, receipt.attempts) in
      settle_route (
        with_destinations (request_all desired lanes.0) (record receipt {
          attempts = lanes.1;
          route_revision = plan.revision;
          route_settled = settled plan;
          route_shortfalls = route_shortfalls plan;
          desired_destinations = desired;
        }))

  unfoldable pub apply_newer_route_to_receipt : Receipt → RoutePlan → Result WriteStoreError Receipt
  apply_newer_route_to_receipt receipt plan =
      if ltb destination_evidence_capacity (length plan.destinations)
      then err fan_out_exceeds_bound
      else if ltb destination_evidence_capacity (length (route_shortfalls plan))
      then err shortfalls_exceed_bound
      else do _ ← validate_texts (route_shortfalls plan); ok (routed plan receipt)

  unfoldable pub persisted_route_effect_matches : Receipt → RoutePlan → Bool
  persisted_route_effect_matches receipt plan =
      elim (apply_newer_route_to_receipt (reset_route receipt) plan) [
        | ok candidate ↦ same_route_effect candidate receipt
        | err _ ↦ false
      ]

  unfoldable pub apply_route_to_receipt : Receipt → RoutePlan → Result WriteStoreError Receipt
  apply_route_to_receipt receipt plan =
      if not (is_automatic receipt.routing)
      then err route_of_explicit
      else if ltb plan.revision receipt.route_revision
      then err route_stale
      else if plan.revision == receipt.route_revision
      then (if plan.revision == 0
          then err route_zero
          else if persisted_route_effect_matches receipt plan
          then ok receipt
          else err route_differs)
      else apply_newer_route_to_receipt receipt plan
