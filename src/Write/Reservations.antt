-- ===== src/Write/Reservations.antt =====
-- crates/fava-write-store-memory/src/semantic_reservation.rs: room that is kept for a coordinate.
use fava.Base.{
  ℕ, not, ◌&&◌, none, some, if◌then◌else◌, Result, ok, err, ◌>>=◌, any, is_none, is_some_and,
}
use fava.BTreeMap.{nat_key, get, insert, remove, values}
use fava.Nostr.{PublicKey}
use fava.State.Coordinate.{EventCoordinate, coordinate_eq, coordinate_key}
use fava.Write.Receipt.{EventEdit}
use fava.Write.Routes.{
  WriteStoreError, coordinate_reserved, durable_successor, capacity_reached, reservation_exhausted,
  reservation_not_current,
}
use fava.Write.Store.{WriteState, edit_coordinate, is_capacity_reached, checked_next, or_error}

unfoldable pub reserve_coordinate :
    ℕ → WriteState → EventCoordinate → Result WriteStoreError (WriteState × ℕ)
reserve_coordinate capacity s coordinate =
    if any (λ reserved. coordinate_eq reserved coordinate) (values s.reservations)
    then err coordinate_reserved
    else if is_some_and (get coordinate s.coordinates)
        (λ receipt_id. not (is_none (get receipt_id s.successors)))
    then err durable_successor
    else if is_none (get coordinate s.coordinates) && is_capacity_reached s capacity
    then err capacity_reached
    else do
      next ← or_error (checked_next 64 s.next_reservation) reservation_exhausted
      ok (
        record s {
          next_reservation = next;
          reservations = insert s.next_reservation coordinate s.reservations;
        },
        s.next_reservation,
      )

unfoldable pub reserve_active_slot :
    ℕ → WriteState → EventEdit → PublicKey → Result WriteStoreError (WriteState × ℕ)
unfolding reserve_coordinate
reserve_active_slot capacity s edit author =
    reserve_coordinate capacity s (edit_coordinate edit author)

-- The receipt at the coordinate, if any, is published once more; the state beside it is what counts.
unfoldable pub release_active_slot : WriteState → ℕ → Result WriteStoreError WriteState
release_active_slot s reservation = elim (get reservation s.reservations) [
  | none ↦ err reservation_not_current
  | some _ ↦ ok (record s { reservations = remove reservation s.reservations })
]
