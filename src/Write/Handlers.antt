-- ===== src/Write/Handlers.antt =====
-- crates/fava-write-store-memory/src/lifecycle.rs: the frame that the handlers share, and the
-- promotion of a semantic successor.
use fava.Base.{
  ℕ, Bool, true, false, not, ◌||◌, String, Option, none, some, List, [], ◌∷◌, ◌++◌, if◌then◌else◌,
  Result, ok, err, ◌>>=◌, is_none,
}
use fava.BTreeMap.{BTreeMap, nat_key, get, insert, remove, keys}
use fava.BTreeSet.{extend}
use fava.Nostr.{EventId, RelayUrl, Timestamp, Event, Nostr}
use fava.Routing.Plan.{RouteTarget, RoutePlan}
use fava.Write.Receipt.{
  EventValue, EventEdit, SignatureState, RelayDeliveryOutcome, RetiredRevision, Receipt, opened,
  destinations, is_terminal_outcome,
}
use fava.Write.Routes.{
  WriteStoreError, receipt_missing, outcome_not_final, invalid_event, successor_missing,
  custody_missing, revision_exhausted, missing_id, validate_receipt_text, validate_delivery_outcome,
  apply_route_to_receipt, is_automatic,
}
use fava.Write.Store.{
  WriteState, Successor, next_revision, checked_next, or_error, routing_destinations, pending_lanes,
  flag,
}
use fava.Write.Lifecycle.{
  Change, unchanged, changed, changed_or_promoted, Reply, Claim, require_current, install,
  begin_attempt, record_outcome, apply_route, install_signed, record_signer_refusal,
  record_signer_retryable, authorize_signing, is_retryable,
}

-- The source of a successor, without its time.
abbrev pub source_id : Option (EventId × Timestamp) → Option EventId
source_id none = none
source_id (some (id, _)) = some id

abbrev pub add_edit : Option EventEdit → List EventEdit → List EventEdit
add_edit none edits = edits
add_edit (some edit) edits = edits ++ edit ∷ []

-- A successor without an edit of its own corrects the source, and goes wherever the receipt went.
unfoldable pub successor_destinations : Successor → Receipt → BTreeMap RelayUrl RelayDeliveryOutcome
successor_destinations successor receipt =
    if is_none successor.edit
    then pending_lanes (extend receipt.desired_destinations (keys (destinations receipt)))
    else routing_destinations receipt.routing

abbrev pub retire : Receipt → RetiredRevision
retire receipt = record {
  revision_id = receipt.current.publication.revision_id;
  event_id = receipt.current.id;
  source = receipt.current.publication.revision_source;
  failure = receipt.current.publication.revision_failure;
}

abbrev pub is_final : RelayDeliveryOutcome → Bool
is_final outcome = is_terminal_outcome outcome || is_retryable outcome

module _ (describe : RouteTarget → String) where
  abbrev pub route_successor : Option RoutePlan → Receipt → Result WriteStoreError Receipt
  route_successor none receipt = ok receipt
  route_successor (some plan) receipt = apply_route_to_receipt describe receipt plan

  -- The receipt of the promoted successor.
  unfoldable pub successor_receipt : Receipt → Successor → Result WriteStoreError Receipt
  successor_receipt receipt successor = do
    revision_id ←
        or_error (checked_next 64 receipt.current.publication.revision_id) revision_exhausted
    id ← or_error successor.event.id missing_id
    let lanes = successor_destinations successor receipt
    let fixed = not (is_automatic receipt.routing)
    route_successor successor.route (record receipt {
      current = record {
        id = id;
        event = EventValue.unsigned successor.event;
        publication = record {
          receipt_id = receipt.receipt_id;
          write_id = receipt.write_id;
          revision_id = revision_id;
          revision_source = source_id successor.source;
          revision_failure = none;
          retired_revisions = receipt.current.publication.retired_revisions ++ retire receipt ∷ [];
          signature = SignatureState.unsigned;
          destinations = lanes;
        };
      };
      outcome = opened;
      route_revision = flag fixed;
      route_settled = fixed;
      route_shortfalls = [];
      desired_destinations = keys lanes;
      attempts = [];
    })

  -- The custody and the receipt are read after the successor has left the map.
  unfoldable pub promote_removed : WriteState → ℕ → ℕ → Successor → Reply
  promote_removed s receipt_id next successor = elim (get receipt_id s.writes) [
    | none ↦ (s, err receipt_missing)
    | some receipt ↦ elim (get receipt_id s.edits) [
      | none ↦ (s, err custody_missing)
      | some custody ↦ elim (successor_receipt receipt successor) [
        | err e ↦ (s, err e)
        | ok updated ↦ (
          record s {
            edits =
                insert receipt_id
                  (record {
                    edits = add_edit successor.edit custody.edits;
                    author = custody.author;
                    source = successor.source;
                    failed_source = none;
                  })
                  s.edits;
            writes = insert receipt_id updated s.writes;
            revision = next;
          },
          ok updated,
        )
      ]
    ]
  ]

  unfoldable pub promote_authorized_successor : WriteState → ℕ → ℕ → Reply
  unfolding promote_removed
  promote_authorized_successor s receipt_id next = elim (get receipt_id s.successors) [
    | none ↦ (s, err successor_missing)
    | some successor ↦
        promote_removed (record s { successors = remove receipt_id s.successors }) receipt_id next
          successor
  ]

  -- Ends a handler: the next revision is drawn after every check of the receipt.
  unfoldable pub conclude : Bool → WriteState → ℕ → Receipt → Change → Reply
  conclude releases s receipt_id receipt unchanged = (s, ok receipt)
  conclude releases s receipt_id receipt (changed updated) = elim (next_revision s) [
    | err e ↦ (s, err e)
    | ok next ↦ (install releases s receipt_id next updated, ok updated)
  ]
  conclude releases s receipt_id receipt (changed_or_promoted updated) = elim (next_revision s) [
    | err e ↦ (s, err e)
    | ok next ↦
        if is_none (get receipt_id s.successors)
        then (install releases s receipt_id next updated, ok updated)
        else promote_authorized_successor s receipt_id next
  ]

  unfoldable pub handle : Bool → WriteState → ℕ → (Receipt → Result WriteStoreError Change) → Reply
  unfolding conclude
  handle releases s receipt_id decide = elim (get receipt_id s.writes) [
    | none ↦ (s, err receipt_missing)
    | some receipt ↦ elim (decide receipt) [
      | err e ↦ (s, err e)
      | ok change ↦ conclude releases s receipt_id receipt change
    ]
  ]

  unfoldable pub begin_attempt_current : WriteState → Claim → RelayUrl → ℕ → Reply
  begin_attempt_current s claim session attempt =
      handle false s claim.receipt_id (begin_attempt claim session attempt)

  unfoldable pub record_outcome_current :
      WriteState → Claim → RelayUrl → ℕ → RelayDeliveryOutcome → Reply
  record_outcome_current s claim session attempt outcome =
      elim (validate_delivery_outcome outcome) [
        | err e ↦ (s, err e)
        | ok _ ↦
            if not (is_final outcome)
            then (s, err outcome_not_final)
            else handle true s claim.receipt_id (record_outcome claim session attempt outcome)
      ]

  unfoldable pub apply_route_current : WriteState → Claim → RoutePlan → Reply
  apply_route_current s claim plan =
      handle true s claim.receipt_id (apply_route describe claim plan)

  unfoldable pub install_signed_current : Nostr → WriteState → Claim → Event → Reply
  install_signed_current nostr s claim event =
      if not (nostr.verify event)
      then (s, err invalid_event)
      else handle false s claim.receipt_id (install_signed nostr claim event)

  unfoldable pub record_signer_refusal_current : WriteState → Claim → String → Reply
  record_signer_refusal_current s claim reason = elim (validate_receipt_text reason) [
    | err e ↦ (s, err e)
    | ok _ ↦ handle false s claim.receipt_id (record_signer_refusal claim reason)
  ]

  unfoldable pub record_signer_retryable_current : WriteState → Claim → String → Reply
  record_signer_retryable_current s claim reason = elim (validate_receipt_text reason) [
    | err e ↦ (s, err e)
    | ok _ ↦ handle false s claim.receipt_id (record_signer_retryable claim reason)
  ]

  unfoldable pub authorize_signing_current : WriteState → Claim → String → Reply
  authorize_signing_current s claim deferred =
      handle false s claim.receipt_id (authorize_signing s claim deferred)

unfoldable pub has_signing_successor : WriteState → Claim → Result WriteStoreError Bool
has_signing_successor s claim = do
  receipt ← or_error (get claim.receipt_id s.writes) receipt_missing
  _ ← require_current receipt claim
  ok (not (is_none (get claim.receipt_id s.successors)))
