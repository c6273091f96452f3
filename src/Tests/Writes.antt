-- ===== src/Tests/Writes.antt =====
-- crates/fava-write-store-memory: refused calls, and the theorems at them.
use fava.Base.{All, ◌≡◌, ◌⊎◌, refl, some, none, [], ◌∷◌, ok, err}
use fava.BTreeMap.{nat_key, get, remove, values}
use fava.Write.Routes.{
  WriteStoreError, missing_id, attempts_exhausted, destination_missing, capacity_reached,
}
use fava.Write.Store.{
  WriteState, Successor, Custody, initial_state, WriteIntent, WritePayload, accept, cancel,
  cancel_receipt, is_before_handoff,
}
use fava.Write.Atomic.{
  begins_attempt, records_refusal, call, call-refusal_unchanged, call-refusal_keeps_writes,
}
use fava.State.Coordinate.{EventCoordinate}
use fava.State.Contribution.{unauthenticated}
use fava.Write.Receipt.{
  EventEdit, Receipt, SignatureState, automatic, ReceiptOutcome, opened, destinations,
}
use fava.Write.Reservations.{reserve_active_slot}
use fava.Write.Capacity.{IsBounded, start, next, accepts, reserves, trail-IsBounded}
use fava.Write.Cancellation.{IsWaiting, IsCancelled, cancel_lem}
use fava.Tests.Receipts.{routed_1, describe, note_event, fresh, claim}
use fava.Tests.Crate.{crate}

-- One write without a route.
abbrev one_write : WriteState
one_write = record initial_state { revision = 1; next_identity = 2; writes = (1, fresh) ∷ [] }

alone : get 1 one_write.successors ≡ none
unfolding get
alone = refl

no_destination_yet :
    (call crate describe one_write claim (begins_attempt 1 1)).1 ≡ err destination_missing
unfolding call fava.Write.Handlers.begin_attempt_current fava.Write.Handlers.handle get
    fava.Write.Lifecycle.begin_attempt fava.Write.Lifecycle.require_current
    fava.Write.Routes.validate_current_revision
no_destination_yet = refl

call-refusal_unchanged_example :
    (call crate describe one_write claim (begins_attempt 1 1)).0 ≡ one_write
call-refusal_unchanged_example =
    call-refusal_unchanged crate describe one_write claim (begins_attempt 1 1) alone
      no_destination_yet

-- A successor whose event has no identity.
abbrev custody : Custody
custody = record { edits = []; author = 7; source = none; failed_source = none }

abbrev successor : Successor
successor = record { edit = none; event = note_event none; source = none; route = none }

-- The write whose signature is asked for, while the successor waits.
abbrev authorized : Receipt
authorized = record fresh {
  current = record (fresh.current) {
    publication = record (fresh.current.publication) { signature = SignatureState.authorized };
  };
}

abbrev waiting : WriteState
waiting = record one_write {
  writes = (1, authorized) ∷ [];
  successors = (1, successor) ∷ [];
  edits = (1, custody) ∷ [];
}

no_identity : (call crate describe waiting claim (records_refusal "no")).1 ≡ err missing_id
unfolding call fava.Write.Handlers.record_signer_refusal_current
    fava.Write.Routes.validate_receipt_text fava.Write.Handlers.handle get
    fava.Write.Lifecycle.record_signer_refusal fava.Write.Lifecycle.require_current
    fava.Write.Routes.validate_current_revision fava.Write.Lifecycle.refuse_signature
    fava.Write.Store.next_revision fava.Write.Handlers.promote_authorized_successor
    fava.Write.Handlers.successor_receipt
no_identity = refl

call-refusal_keeps_writes_example :
    ((call crate describe waiting claim (records_refusal "no")).0 ≡ waiting)
    ⊎ ((call crate describe waiting claim (records_refusal "no")).0
        ≡ record waiting { successors = remove 1 waiting.successors })
call-refusal_keeps_writes_example =
    call-refusal_keeps_writes crate describe waiting claim (records_refusal "no") no_identity

-- The refusal that the successor does not outlive.
is_dropped :
    (call crate describe waiting claim (records_refusal "no")).0
    ≡ record one_write { writes = (1, authorized) ∷ []; edits = (1, custody) ∷ [] }
unfolding call fava.Write.Handlers.record_signer_refusal_current
    fava.Write.Routes.validate_receipt_text fava.Write.Handlers.handle get
    fava.Write.Lifecycle.record_signer_refusal fava.Write.Lifecycle.require_current
    fava.Write.Routes.validate_current_revision fava.Write.Lifecycle.refuse_signature
    fava.Write.Store.next_revision fava.Write.Handlers.promote_authorized_successor
    fava.Write.Handlers.successor_receipt remove
is_dropped = refl

-- A store of two, which accepts a write and reserves a coordinate, and is full then.
abbrev intent : WriteIntent
intent = record {
  payload = WritePayload.event (note_event (some 4));
  routing = automatic;
  access = unauthenticated;
}

abbrev edit : EventEdit
edit = record { kind = 10002; identifier = none; change = [] }

abbrev reserved : WriteState
reserved = record one_write {
  next_reservation = 2;
  reservations = (1, EventCoordinate.replaceable 7 10002 none) ∷ [];
}

accepted : accept 2 initial_state intent ≡ ok (one_write, fresh)
unfolding accept fava.Write.Store.is_capacity_reached fava.Write.Store.active_count
    fava.Write.Store.next_identity fava.Write.Store.accepted_payload fava.Write.Store.next_revision
    fava.BTreeMap.insert fava.Write.Store.new_receipt fava.Write.Store.routing_destinations
accepted = refl

reserves_one : reserve_active_slot 2 one_write edit 7 ≡ ok (reserved, 1)
unfolding reserve_active_slot get fava.Write.Store.is_capacity_reached fava.Write.Store.active_count
    fava.Write.Receipt.is_terminal fava.BTreeMap.insert fava.Write.Store.edit_coordinate
reserves_one = refl

is_full : accept 2 reserved intent ≡ err capacity_reached
unfolding accept fava.Write.Store.is_capacity_reached fava.Write.Store.active_count
    fava.Write.Receipt.is_terminal get
is_full = refl

trail-IsBounded_example : IsBounded 2 reserved
trail-IsBounded_example =
    trail-IsBounded 2 (next (next start (accepts intent accepted)) (reserves edit 7 reserves_one))

-- A cancellation while both destinations are pending.
abbrev routed_write : WriteState
routed_write = record initial_state { revision = 1; next_identity = 2; writes = (1, routed_1) ∷ [] }

abbrev cancelled_write : WriteState
cancelled_write = record routed_write { revision = 2; writes = (1, cancel_receipt routed_1) ∷ [] }

has_routed : get 1 routed_write.writes ≡ some routed_1
unfolding get
has_routed = refl

cancels : cancel routed_write 1 ≡ ok (cancelled_write, some (cancel_receipt routed_1))
unfolding cancel fava.Write.Store.next_revision get fava.Write.Store.cancel_found
    fava.Write.Receipt.is_terminal fava.Write.Store.release_semantic fava.BTreeMap.insert remove
cancels = refl

cancel_lem_example :
    ◌≡◌ {A = ReceiptOutcome} routed_1.outcome opened
    × All IsWaiting (values (destinations routed_1))
    × (get 1 cancelled_write.writes ≡ some (cancel_receipt routed_1))
    × IsCancelled routed_1 (cancel_receipt routed_1)
    × (get 1 cancelled_write.successors ≡ none)
cancel_lem_example = cancel_lem routed_write 1 routed_1 1 has_routed refl cancels
