-- ===== src/Write/Capacity.antt =====
-- crates/fava-write-store-memory: acceptance and reservations stay within the capacity.
use fava.Base.{
  ℕ, ◌+◌, ◌≤◌, ◌<◌, ◌≡◌, ◌≢◌, refl, arith, Bool, false, not, none, ok, is_none, Bool-cases,
  Option-cases, Result-cases, ◌⊎◌, inl, inr,
}
use fava.BTreeMap.{BTreeMap, nat_key, get, insert, remove, get-insert, get-remove}
use fava.BTreeMap.Count.{count, count-insert, count-remove}
use fava.Nostr.{PublicKey}
use fava.State.Coordinate.{EventCoordinate, coordinate_key}
use fava.Write.Receipt.{EventEdit, Receipt, is_terminal, value_id}
use fava.Write.Store.{
  WriteState, initial_state, WriteIntent, accept, active_count, reserved_new_coordinates,
  is_capacity_reached, next_identity, next_revision, accepted_payload, edit_coordinate,
}
use fava.Write.Reservations.{reserve_coordinate, reserve_active_slot, release_active_slot}

-- The open receipts, and the room reserved for coordinates that no receipt holds.
abbrev pub load : WriteState → ℕ
load s = active_count s.writes + reserved_new_coordinates s

-- The load is within the capacity, and the next identities are new.
pub record IsBounded (capacity : ℕ) (s : WriteState) : Type 0 where
  pub within : load s ≤ capacity
  pub new_writes : (id : ℕ) → get id s.writes ≢ none → id < s.next_identity
  pub new_reservations : (id : ℕ) → get id s.reservations ≢ none → id < s.next_reservation

pub data AdmissionStep (capacity : ℕ) (s : WriteState) : WriteState → Type 0 where
  accepts :
      (intent : WriteIntent) {after : WriteState} {receipt : Receipt}
      → accept capacity s intent ≡ ok (after, receipt)
      → AdmissionStep capacity s after
  reserves :
      (edit : EventEdit) (author : PublicKey) {after : WriteState} {reservation : ℕ}
      → reserve_active_slot capacity s edit author ≡ ok (after, reservation)
      → AdmissionStep capacity s after
  releases :
      (reservation : ℕ) {after : WriteState}
      → release_active_slot s reservation ≡ ok after
      → AdmissionStep capacity s after

unused :
    {V : Type 0} (next : ℕ) (m : BTreeMap ℕ V)
    → ((id : ℕ) → get id m ≢ none → id < next)
    → get next m ≡ none
unused next m below = elim (Option-cases (get next m)) [
  | inl miss ↦ miss
  | inr (v, hit) ↦ absurd (ground (arith, below next (λ miss. ground (arith, hit, miss))))
]

active-insert :
    (id : ℕ) (receipt : Receipt) (writes : BTreeMap ℕ Receipt)
    → get id writes ≡ none
    → active_count (insert id receipt writes) ≤ active_count writes + 1
unfolding active_count count
active-insert id receipt writes miss =
    ground (arith, count-insert (λ receipt. not (is_terminal receipt)) id receipt writes miss)

module _ (capacity : ℕ) (s : WriteState) where
  room : is_capacity_reached s capacity ≡ false → load s + 1 ≤ capacity
  unfolding is_capacity_reached
  room h = ground arith

  next_identity-suc :
      {next : ℕ} → next_identity s.next_identity ≡ ok next → next ≡ s.next_identity + 1
  unfolding next_identity
  next_identity-suc h = ground arith

  -- What an acceptance leaves.
  accept-parts :
      (intent : WriteIntent) {after : WriteState} {receipt : Receipt}
      → accept capacity s intent ≡ ok (after, receipt)
      → (is_capacity_reached s capacity ≡ false)
        × (after.next_identity ≡ s.next_identity + 1)
        × (insert s.next_identity receipt s.writes ≡ after.writes)
        × (s.reservations ≡ after.reservations)
        × (s.coordinates ≡ after.coordinates)
        × (s.next_reservation ≡ after.next_reservation)
  unfolding accept
  accept-parts intent {after} {receipt} h = elim (Result-cases (next_identity s.next_identity)) [
    | inr (e, refused) ↦ absurd (ground (arith, refused))
    | inl (next_id, p) ↦ elim (Result-cases (accepted_payload intent.payload)) [
      | inr (e, refused) ↦ absurd (ground (arith, p, refused))
      | inl (payload, q) ↦ elim (Option-cases (value_id payload.0)) [
        | inl missing ↦ absurd (ground (arith, p, q, missing))
        | inr (id, r) ↦ elim (Result-cases (next_revision s)) [
          | inr (e, refused) ↦ absurd (ground (arith, p, q, r, refused))
          | inl (next, t) ↦ ground (arith, p, q, r, t, next_identity-suc p)
        ]
      ]
    ]
  ]

  accept-IsBounded :
      (intent : WriteIntent) {after : WriteState} {receipt : Receipt}
      → accept capacity s intent ≡ ok (after, receipt)
      → IsBounded capacity s
      → IsBounded capacity after
  unfolding reserved_new_coordinates
  accept-IsBounded intent {after} {receipt} h bounded =
      let (open_room, next, writes, reservations, coordinates, next_reservation) =
        accept-parts intent h in
      let new = unused s.next_identity s.writes bounded.new_writes in
      record {
        within =
            rw (← writes, ← reservations, ← coordinates)
              (omega (arith, room open_room, active-insert s.next_identity receipt s.writes new));
        new_writes = λ id held. ground (
          arith,
          next,
          writes,
          get-insert s.next_identity id receipt s.writes,
          bounded.new_writes id,
          held,
        );
        new_reservations = λ id held.
            rw (← next_reservation) (bounded.new_reservations id (rw (reservations) held));
      }

  -- A reservation at a coordinate takes room only where no receipt holds the coordinate.
  reserve-parts :
      (coordinate : EventCoordinate) {after : WriteState} {reservation : ℕ}
      → reserve_coordinate capacity s coordinate ≡ ok (after, reservation)
      → ((is_none (get coordinate s.coordinates) ≡ false)
          ⊎ (is_capacity_reached s capacity ≡ false))
        × (record s {
          next_reservation = s.next_reservation + 1;
          reservations = insert s.next_reservation coordinate s.reservations;
        }
            ≡ after)
  unfolding reserve_coordinate
  reserve-parts coordinate h = (
    elim (Bool-cases (is_none (get coordinate s.coordinates))) [
      | inr held ↦ inl held
      | inl new ↦ inr (ground (arith, new))
    ],
    ground arith,
  )

  reserve-IsBounded :
      (coordinate : EventCoordinate) {after : WriteState} {reservation : ℕ}
      → reserve_coordinate capacity s coordinate ≡ ok (after, reservation)
      → IsBounded capacity s
      → IsBounded capacity after
  unfolding reserved_new_coordinates count
  reserve-IsBounded coordinate h bounded =
      let (spare, result) = reserve-parts coordinate h in
      let unheld : EventCoordinate → Bool = λ c. is_none (get c s.coordinates) in
      let new = unused s.next_reservation s.reservations bounded.new_reservations in
      let grown = count-insert unheld s.next_reservation coordinate s.reservations new in
      rw (← result) (record {
        within = elim spare [
          | inl held ↦ ground (arith, grown, held, bounded.within)
          | inr open_room ↦ ground (arith, grown, room open_room)
        ];
        new_writes = bounded.new_writes;
        new_reservations = λ id held. ground (
          arith,
          get-insert s.next_reservation id coordinate s.reservations,
          bounded.new_reservations id,
          held,
        );
      })

  release-IsBounded :
      (reservation : ℕ) {after : WriteState}
      → release_active_slot s reservation ≡ ok after
      → IsBounded capacity s
      → IsBounded capacity after
  unfolding release_active_slot reserved_new_coordinates count
  release-IsBounded reservation {after} h bounded =
      elim (Option-cases (get reservation s.reservations)) [
        | inl missing ↦ absurd (ground (arith, missing))
        | inr (c, held) ↦
            let result : record s { reservations = remove reservation s.reservations } ≡ after =
              ground (arith, held) in
            let fewer =
              count-remove (λ c. is_none (get c s.coordinates)) reservation s.reservations in
            rw (← result) (record {
              within = omega (arith, fewer, bounded.within);
              new_writes = bounded.new_writes;
              new_reservations = λ id there. ground (
                arith,
                get-remove reservation id s.reservations,
                bounded.new_reservations id,
                there,
              );
            })
      ]

  step-IsBounded :
      {after : WriteState}
      → IsBounded capacity s
      → AdmissionStep capacity s after
      → IsBounded capacity after
  unfolding reserve_active_slot
  step-IsBounded bounded (accepts intent h) = accept-IsBounded intent h bounded
  step-IsBounded bounded (reserves edit author h) =
      reserve-IsBounded (edit_coordinate edit author) h bounded
  step-IsBounded bounded (releases reservation h) = release-IsBounded reservation h bounded

-- The stores that acceptance, reservations and releases reach from the empty one.
pub data AdmissionTrail (capacity : ℕ) : WriteState → Type 0 where
  start : AdmissionTrail capacity initial_state
  next :
      {s after : WriteState}
      → AdmissionTrail capacity s
      → AdmissionStep capacity s after
      → AdmissionTrail capacity after

initial-IsBounded : (capacity : ℕ) → IsBounded capacity initial_state
unfolding active_count reserved_new_coordinates get
initial-IsBounded capacity = record {
  within = omega arith;
  new_writes = λ id held. absurd (held refl);
  new_reservations = λ id held. absurd (held refl);
}

-- Every store that acceptance, reservations and releases reach from the empty store is within its
-- capacity: the open receipts, and the room reserved for coordinates that no receipt holds, are
-- together no more than the capacity. The identities of the next write and of the next reservation
-- are new in it.
pub trail-IsBounded :
    (capacity : ℕ) {s : WriteState} → AdmissionTrail capacity s → IsBounded capacity s
trail-IsBounded capacity start = initial-IsBounded capacity
trail-IsBounded capacity (next {s} trail step) =
    step-IsBounded capacity s (trail-IsBounded capacity trail) step
