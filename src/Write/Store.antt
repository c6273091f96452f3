-- ===== src/Write/Store.antt =====
-- crates/fava-write-store-memory/src/lib.rs, state.rs, model.rs and semantic_reservation.rs: the
-- state of the store, and acceptance, cancellation and removal. A function answers the new state
-- beside its result, since a refusal may come after a change.
use fava.Base.{
  is_empty, ℕ, ◌+◌, ◌^◌, Bool, true, false, not, ◌&&◌, ◌||◌, Option, none, some, List, [], ◌∷◌, map,
  ltb, leb, if◌then◌else◌, Result, ok, err, ◌>>=◌, length, any, all, keep, is_none,
}
use fava.BTreeMap.{BTreeMap, nat_key, get, insert, remove, keys, values}
use fava.Nostr.{EventId, PublicKey, RelayUrl, Timestamp, Event}
use fava.State.Contribution.{Authority}
use fava.State.Coordinate.{EventCoordinate, replaceable, coordinate_key}
use fava.Routing.Plan.{RoutePlan}
use fava.Write.Receipt.{
  UnsignedEvent, EventValue, value_id, EventEdit, WriteRouting, automatic, explicit, SignatureState,
  RelayDeliveryOutcome, pending, retryable, cancelled_before_handoff, is_terminal_outcome, Receipt,
  opened, cancelled, complete, no_destination, is_terminal, destinations, with_destinations,
}
use fava.Write.Routes.{
  WriteStoreError, source_revision_exhausted, identity_exhausted, capacity_reached,
  edit_requires_revision, not_cancellable, active_receipt, missing_id, is_automatic,
}

-- A semantic successor, and the custody of a receipt's edits.
pub record Successor : Type 0 where
  pub edit : Option EventEdit
  pub event : UnsignedEvent
  pub source : Option (EventId × Timestamp)
  pub route : Option RoutePlan

pub record Custody : Type 0 where
  pub edits : List EventEdit
  pub author : PublicKey
  pub source : Option (EventId × Timestamp)
  pub failed_source : Option EventId

pub record WriteState : Type 0 where
  pub revision : ℕ
  pub next_identity : ℕ
  pub next_reservation : ℕ
  pub reservations : BTreeMap ℕ EventCoordinate
  pub writes : BTreeMap ℕ Receipt
  pub coordinates : BTreeMap EventCoordinate ℕ
  pub successors : BTreeMap ℕ Successor
  pub edits : BTreeMap ℕ Custody

abbrev pub initial_state : WriteState
initial_state = record {
  revision = 0;
  next_identity = 1;
  next_reservation = 1;
  reservations = [];
  writes = [];
  coordinates = [];
  successors = [];
  edits = [];
}

-- `checked_add(1)` on a word of w bits.
abbrev pub checked_next : ℕ → ℕ → Option ℕ
checked_next w n = if ltb (n + 1) (2 ^ w) then some (n + 1) else none

abbrev pub or_error {ℓ} : {A : Type ℓ} {E : Type ℓ} → Option A → E → Result E A
or_error none e = err e
or_error (some a) e = ok a

unfoldable pub next_revision : WriteState → Result WriteStoreError ℕ
next_revision s = or_error (checked_next 64 s.revision) source_revision_exhausted

unfoldable pub next_identity : ℕ → Result WriteStoreError ℕ
next_identity current = or_error (checked_next 64 current) identity_exhausted

unfoldable pub edit_coordinate : EventEdit → PublicKey → EventCoordinate
edit_coordinate edit author = replaceable author edit.kind edit.identifier

abbrev pub last {ℓ} : {A : Type ℓ} → List A → Option A
last [] = none
last (x ∷ []) = some x
last (x ∷ y ∷ xs) = last (y ∷ xs)

unfoldable pub active_count : BTreeMap ℕ Receipt → ℕ
active_count writes = length (keep (λ receipt. not (is_terminal receipt)) (values writes))

unfoldable pub reserved_new_coordinates : WriteState → ℕ
reserved_new_coordinates s =
    length (keep (λ coordinate. is_none (get coordinate s.coordinates)) (values s.reservations))

-- `checked_add` on a `usize` of 64 bits: a sum that does not fit counts as reached.
unfoldable pub is_capacity_reached : WriteState → ℕ → Bool
unfolding reserved_new_coordinates
is_capacity_reached s capacity =
    let used = active_count s.writes + reserved_new_coordinates s in
    if ltb used (2 ^ 64) then leb capacity used else true

abbrev pub release_coordinate :
    Option EventEdit → PublicKey → BTreeMap EventCoordinate ℕ → BTreeMap EventCoordinate ℕ
release_coordinate none author coordinates = coordinates
release_coordinate (some edit) author coordinates = remove (edit_coordinate edit author) coordinates

unfoldable pub release_semantic : ℕ → WriteState → WriteState
release_semantic receipt_id s = elim (get receipt_id s.edits) [
  | none ↦ record s { successors = remove receipt_id s.successors }
  | some custody ↦ record s {
    successors = remove receipt_id s.successors;
    edits = remove receipt_id s.edits;
    coordinates = release_coordinate (last custody.edits) custody.author s.coordinates;
  }
]

-- crates/fava-write-store-memory/src/model.rs
unfoldable pub pending_lanes : List RelayUrl → BTreeMap RelayUrl RelayDeliveryOutcome
pending_lanes [] = []
pending_lanes (relay ∷ relays) = insert relay pending (pending_lanes relays)

unfoldable pub routing_destinations : WriteRouting → BTreeMap RelayUrl RelayDeliveryOutcome
routing_destinations automatic = []
routing_destinations (explicit relays) = pending_lanes relays

unfoldable pub settle : Receipt → Receipt
settle receipt =
    if receipt.route_settled && all is_terminal_outcome (values (destinations receipt))
    then record receipt {
      outcome = if is_empty receipt.desired_destinations then no_destination else complete;
    }
    else receipt

abbrev pub flag : Bool → ℕ
flag true = 1
flag false = 0

pub data WritePayload : Type 0 where
  event : UnsignedEvent → WritePayload
  edit : EventEdit → PublicKey → WritePayload
  presigned : Event → WritePayload

pub record WriteIntent : Type 0 where
  pub payload : WritePayload
  pub routing : WriteRouting
  pub access : Authority

-- The event and the signature that a payload starts with.
unfoldable pub accepted_payload :
    WritePayload → Result WriteStoreError (EventValue × SignatureState)
accepted_payload (event e) = ok (EventValue.unsigned e, SignatureState.unsigned)
accepted_payload (edit _ _) = err edit_requires_revision
accepted_payload (presigned e) = ok (EventValue.signed e, SignatureState.signed)

unfoldable pub new_receipt : ℕ → WriteIntent → EventId → EventValue → SignatureState → Receipt
new_receipt identity intent id value signature =
    let lanes = routing_destinations intent.routing in
    record {
      write_id = identity;
      receipt_id = identity;
      current = record {
        id = id;
        event = value;
        publication = record {
          receipt_id = identity;
          write_id = identity;
          revision_id = 1;
          revision_source = none;
          revision_failure = none;
          retired_revisions = [];
          signature = signature;
          destinations = lanes;
        };
      };
      routing = intent.routing;
      access = intent.access;
      outcome = opened;
      route_revision = flag (not (is_automatic intent.routing));
      route_settled = not (is_automatic intent.routing);
      route_shortfalls = [];
      desired_destinations = keys lanes;
      attempts = [];
    }

-- Every check of `accept` comes before its first change.
unfoldable pub accept : ℕ → WriteState → WriteIntent → Result WriteStoreError (WriteState × Receipt)
accept capacity s intent = if is_capacity_reached s capacity then err capacity_reached else do
  next_id ← next_identity s.next_identity
  (value, signature) ← accepted_payload intent.payload
  id ← or_error (value_id value) missing_id
  next ← next_revision s
  let receipt = new_receipt s.next_identity intent id value signature
  ok (
    record s {
      next_identity = next_id;
      revision = next;
      writes = insert s.next_identity receipt s.writes;
    },
    receipt,
  )

abbrev pub is_before_handoff : RelayDeliveryOutcome → Bool
is_before_handoff pending = true
is_before_handoff (retryable _) = true
is_before_handoff _ = false

abbrev pub is_cancelled : Receipt → Bool
is_cancelled receipt = elim receipt.outcome [ cancelled ↦ true | _ ↦ false ]

unfoldable pub cancel_receipt : Receipt → Receipt
cancel_receipt receipt =
    record (with_destinations (map (λ e. (e.0, cancelled_before_handoff)) (destinations receipt))
      receipt) { outcome = cancelled }

unfoldable pub cancel_found :
    WriteState → ℕ → ℕ → Receipt → Result WriteStoreError (WriteState × Option Receipt)
unfolding cancel_receipt
cancel_found s receipt_id next receipt =
    if is_cancelled receipt
    then ok (s, some receipt)
    else if is_terminal receipt
        || any (λ outcome. not (is_before_handoff outcome)) (values (destinations receipt))
    then err not_cancellable
    else (let current = cancel_receipt receipt in
        ok (
          release_semantic receipt_id
              (record s { writes = insert receipt_id current s.writes; revision = next }),
          some current,
        ))

unfoldable pub cancel : WriteState → ℕ → Result WriteStoreError (WriteState × Option Receipt)
cancel s receipt_id = do
  next ← next_revision s
  elim (get receipt_id s.writes) [
    | none ↦ ok (s, none)
    | some receipt ↦ cancel_found s receipt_id next receipt
  ]

unfoldable pub remove_receipt : WriteState → ℕ → Result WriteStoreError (WriteState × Bool)
remove_receipt s receipt_id = elim (get receipt_id s.writes) [
  | none ↦ ok (s, false)
  | some receipt ↦ if not (is_terminal receipt) then err active_receipt else do
    next ← next_revision s
    let released = release_semantic receipt_id s
    ok (record released { writes = remove receipt_id released.writes; revision = next }, true)
]

unfoldable pub recover_open : WriteState → List Receipt
recover_open s = keep (λ receipt. not (is_terminal receipt)) (values s.writes)

unfoldable pub store_len : WriteState → ℕ
store_len s = length (keep (λ receipt. not (is_cancelled receipt)) (values s.writes))
