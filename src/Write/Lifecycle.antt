-- ===== src/Write/Lifecycle.antt =====
-- crates/fava-write-store-memory/src/lifecycle.rs: attempts, outcomes, routes and signatures of an
-- accepted write.
use fava.Base.{
  ℕ, Bool, true, false, not, ◌&&◌, String, Option, none, some, List, [], ◌∷◌, ◌==◌, if◌then◌else◌,
  Result, ok, err, ◌>>=◌, any, is_some_and, str_eq,
}
use fava.BTreeMap.{nat_key, get, insert, values}
use fava.Nostr.{EventId, RelayUrl, Event, Nostr, Tag}
use fava.State.Coordinate.{coordinate_eq, coordinate_key}
use fava.Routing.Plan.{RouteTarget, RoutePlan}
use fava.Write.Receipt.{
  UnsignedEvent, EventValue, SignatureState, RelayDeliveryOutcome, attempting, retryable, given_up,
  outcome_eq, Receipt, is_terminal, destinations, with_destinations,
}
use fava.Write.Routes.{
  WriteStoreError, attempt_not_current, attempts_exhausted, destination_missing,
  destination_not_pending, signed_differently, signature_mismatch, completion_unauthorized,
  refusal_unauthorized, refusal_not_current, already_signed, authorization_not_current,
  retryable_not_current, validate_current_revision, apply_route_to_receipt, same_route_effect,
  texts_eq,
}
use fava.Write.Store.{
  WriteState, checked_next, or_error, release_semantic, settle, last, edit_coordinate,
  is_before_handoff,
}

-- What a handler decides of the receipt, before the state changes: nothing, a new receipt, or a new
-- receipt unless a semantic successor waits for this moment.
pub data Change : Type 0 where
  unchanged : Change
  changed : Receipt → Change
  changed_or_promoted : Receipt → Change

abbrev pub Reply : Type 0
Reply = WriteState × Result WriteStoreError Receipt

-- The identity by which a caller names the revision that it means.
pub record Claim : Type 0 where
  pub write_id : ℕ
  pub receipt_id : ℕ
  pub revision_id : ℕ
  pub event_id : EventId

unfoldable pub require_current : Receipt → Claim → Result WriteStoreError (Unit {0})
require_current receipt claim =
    validate_current_revision receipt claim.write_id claim.revision_id claim.event_id

-- The new receipt in its place; a closed one gives up its semantic custody if the handler says so.
unfoldable pub install : Bool → WriteState → ℕ → ℕ → Receipt → WriteState
install releases s receipt_id next receipt =
    let stored = record s { writes = insert receipt_id receipt s.writes; revision = next } in
    if releases && is_terminal receipt then release_semantic receipt_id stored else stored

-- `begin_attempt_current`.
abbrev pub is_attempting : Option RelayDeliveryOutcome → Bool
is_attempting (some attempting) = true
is_attempting _ = false

abbrev pub count_or_zero : Option ℕ → ℕ
count_or_zero none = 0
count_or_zero (some n) = n

unfoldable pub begin_attempt : Claim → RelayUrl → ℕ → Receipt → Result WriteStoreError Change
begin_attempt claim session attempt receipt = do
  _ ← require_current receipt claim
  let current = count_or_zero (get session receipt.attempts)
  let outcome = get session (destinations receipt)
  if current == attempt && is_attempting outcome then ok unchanged else do
    expected ← or_error (checked_next 32 current) attempts_exhausted
    if not (attempt == expected) then err attempt_not_current else do
      found ← or_error outcome destination_missing
      if not (is_before_handoff found)
          then err destination_not_pending
          else ok (
              changed (
                with_destinations (insert session attempting (destinations receipt))
                  (record receipt { attempts = insert session attempt receipt.attempts })))

-- `record_outcome_current`.
abbrev pub is_retryable : RelayDeliveryOutcome → Bool
is_retryable (retryable _) = true
is_retryable _ = false

abbrev pub may_transition : RelayDeliveryOutcome → RelayDeliveryOutcome → Bool
may_transition attempting outcome = true
may_transition (retryable _) (given_up _) = true
may_transition _ _ = false

abbrev pub is_attempt : ℕ → Option ℕ → Bool
is_attempt attempt none = false
is_attempt attempt (some n) = n == attempt

unfoldable pub record_outcome :
    Claim → RelayUrl → ℕ → RelayDeliveryOutcome → Receipt → Result WriteStoreError Change
record_outcome claim session attempt outcome receipt = do
  _ ← require_current receipt claim
  if not (is_attempt attempt (get session receipt.attempts)) then err attempt_not_current else do
    current ← or_error (get session (destinations receipt)) destination_missing
    if outcome_eq current outcome
        then ok unchanged
        else if not (may_transition current outcome)
        then err attempt_not_current
        else ok (
            changed
              (settle (with_destinations (insert session outcome (destinations receipt)) receipt)))

-- `apply_route_current`; the fields that a route leaves alone are those of the same receipt.
unfoldable pub apply_route :
    (RouteTarget → String) → Claim → RoutePlan → Receipt → Result WriteStoreError Change
apply_route describe claim plan receipt = do
  _ ← require_current receipt claim
  updated ← apply_route_to_receipt describe receipt plan
  if same_route_effect updated receipt then ok unchanged else ok (changed updated)

-- `UnsignedEventView`, by which a signed event is compared with the event that was to be signed.
abbrev pub id_eq : Option EventId → EventId → Bool
id_eq none id = false
id_eq (some a) id = a == id

abbrev pub tags_eq : List Tag → List Tag → Bool
tags_eq [] [] = true
tags_eq (a ∷ s) (b ∷ t) = texts_eq a b && tags_eq s t
tags_eq _ _ = false

unfoldable pub is_signature_of : UnsignedEvent → Event → Bool
is_signature_of unsigned event =
    id_eq unsigned.id event.id
    && unsigned.pubkey == event.pubkey
    && unsigned.created_at == event.created_at
    && unsigned.kind == event.kind
    && tags_eq unsigned.tags event.tags
    && str_eq unsigned.content event.content

-- A receipt with another signature state, and with another event.
abbrev pub with_signature : SignatureState → Receipt → Receipt
with_signature signature receipt =
    let current = receipt.current in
    let publication = current.publication in
    record receipt {
      current = record current { publication = record publication { signature = signature } };
    }

abbrev pub with_event : EventValue → Receipt → Receipt
with_event event receipt =
    let current = receipt.current in record receipt { current = record current { event = event } }

abbrev pub signature_of : Receipt → SignatureState
signature_of receipt = receipt.current.publication.signature

abbrev pub may_complete : SignatureState → Bool
may_complete SignatureState.authorized = true
may_complete SignatureState.signed = true
may_complete _ = false

module _ (nostr : Nostr) where
  -- The comparison of the event that is there with the signed one: nothing to do, or to go on.
  unfoldable pub match_signed : EventValue → Event → Result WriteStoreError Bool
  match_signed (EventValue.signed current) event =
      if nostr.same current event then ok false else err signed_differently
  match_signed (EventValue.unsigned unsigned) event =
      if is_signature_of unsigned event then ok true else err signature_mismatch

  unfoldable pub install_signed : Claim → Event → Receipt → Result WriteStoreError Change
  install_signed claim event receipt = do
    _ ← require_current receipt claim
    goes_on ← match_signed receipt.current.event event
    if not goes_on
        then ok unchanged
        else if not (may_complete (signature_of receipt))
        then err completion_unauthorized
        else ok (
            changed_or_promoted
              (with_signature SignatureState.signed (with_event (EventValue.signed event) receipt)))

-- `record_signer_refusal_current`.
unfoldable pub refuse_signature : String → SignatureState → Receipt → Result WriteStoreError Change
refuse_signature reason (SignatureState.refused current) receipt =
    if str_eq current reason then ok unchanged else err refusal_not_current
refuse_signature reason SignatureState.authorized receipt =
    ok (changed_or_promoted (with_signature (SignatureState.refused reason) receipt))
refuse_signature reason SignatureState.signed receipt = err refusal_not_current
refuse_signature reason SignatureState.unsigned receipt = err refusal_unauthorized
refuse_signature reason (SignatureState.retryable _) receipt = err refusal_unauthorized

unfoldable pub record_signer_refusal : Claim → String → Receipt → Result WriteStoreError Change
record_signer_refusal claim reason receipt = do
  _ ← require_current receipt claim
  refuse_signature reason (signature_of receipt) receipt

-- `record_signer_retryable_current`.
unfoldable pub retry_signature : String → SignatureState → Receipt → Result WriteStoreError Change
retry_signature reason SignatureState.authorized receipt =
    ok (changed_or_promoted (with_signature (SignatureState.retryable reason) receipt))
retry_signature reason SignatureState.unsigned receipt =
    ok (changed (with_signature (SignatureState.retryable reason) receipt))
retry_signature reason (SignatureState.retryable _) receipt =
    ok (changed (with_signature (SignatureState.retryable reason) receipt))
retry_signature reason SignatureState.signed receipt = err retryable_not_current
retry_signature reason (SignatureState.refused _) receipt = err retryable_not_current

unfoldable pub record_signer_retryable : Claim → String → Receipt → Result WriteStoreError Change
record_signer_retryable claim reason receipt = do
  _ ← require_current receipt claim
  retry_signature reason (signature_of receipt) receipt

-- `authorize_signing_current`: an authorization is deferred while the coordinate of the last edit
-- is reserved. `deferred` is the text of the deferral.
abbrev pub is_unsigned_value : EventValue → Bool
is_unsigned_value (EventValue.unsigned _) = true
is_unsigned_value (EventValue.signed _) = false

unfoldable pub is_reserved : WriteState → ℕ → Bool
is_reserved s receipt_id = is_some_and (get receipt_id s.edits) (λ custody.
    is_some_and (last custody.edits)
      (λ edit. any (coordinate_eq (edit_coordinate edit custody.author)) (values s.reservations)))

abbrev pub deferral : Bool → String → SignatureState
deferral true deferred = SignatureState.retryable deferred
deferral false deferred = SignatureState.authorized

unfoldable pub authorize_signature :
    Bool → String → SignatureState → Receipt → Result WriteStoreError Change
authorize_signature reserved deferred SignatureState.authorized receipt = ok unchanged
authorize_signature reserved deferred SignatureState.unsigned receipt =
    ok (changed (with_signature (deferral reserved deferred) receipt))
authorize_signature reserved deferred (SignatureState.retryable reason) receipt =
    if reserved && str_eq reason deferred
    then ok unchanged
    else ok (changed (with_signature (deferral reserved deferred) receipt))
authorize_signature reserved deferred SignatureState.signed receipt = err authorization_not_current
authorize_signature reserved deferred (SignatureState.refused _) receipt =
    err authorization_not_current

unfoldable pub authorize_signing :
    WriteState → Claim → String → Receipt → Result WriteStoreError Change
authorize_signing s claim deferred receipt = do
  _ ← require_current receipt claim
  if not (is_unsigned_value receipt.current.event)
      then err already_signed
      else authorize_signature (is_reserved s claim.receipt_id) deferred (signature_of receipt)
          receipt
