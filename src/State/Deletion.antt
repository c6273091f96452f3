-- ===== src/State/Deletion.antt =====
-- crates/fava-state/src/lib.rs: NIP-09 deletion and NIP-40 expiration.
use Prim.Native.Char.{code}
use fava.Base.{
  ℕ, ◌+◌, ◌-◌, ◌*◌, ◌^◌, String, Bool, true, false, not, ◌&&◌, Option, none, some, List, [], ◌∷◌,
  ltb, leb, ◌==◌, if◌then◌else◌, any, is_some_and,
}
use fava.Nostr.{EventId, Timestamp, Tag, Event, Coordinate, Nostr, first_is, second}
use fava.State.Coordinate.{
  EventCoordinate, replaceable, coordinate_eq, is_addressable_kind, event_coordinate,
}

-- `str::parse::<u64>`: an optional plus sign, then digits only, at least one, without overflow.
abbrev pub codes : String → List ℕ
codes (String.◌∷◌ first rest) = code first ∷ codes rest
codes String.[] = []

unfoldable pub read_digits : ℕ → List ℕ → Option ℕ
read_digits value [] = some value
read_digits value (c ∷ cs) =
    let next = value * 10 + (c - b'0') in
    if leb b'0' c && leb c b'9' && ltb next (2 ^ 64) then read_digits next cs else none

unfoldable pub read_u64 : List ℕ → Option ℕ
unfolding read_digits
read_u64 [] = none
read_u64 (c ∷ []) = if c == b'+' then none else read_digits 0 (c ∷ [])
read_u64 (c ∷ d ∷ cs) = if c == b'+' then read_digits 0 (d ∷ cs) else read_digits 0 (c ∷ d ∷ cs)

unfoldable pub parse_u64 : String → Option ℕ
unfolding read_u64
parse_u64 s = read_u64 (codes s)

-- The due test of one tag.
abbrev pub expiration_due : Timestamp → Tag → Bool
expiration_due now tag =
    first_is "expiration" tag
    && is_some_and (second tag) (λ value. is_some_and (parse_u64 value) (λ expiry. leb expiry now))

unfoldable pub event_is_expired : List Tag → Timestamp → Bool
event_is_expired tags now = any (expiration_due now) tags

module _ (nostr : Nostr) where
  -- An `e` tag that names the target.
  abbrev pub names_event : EventId → Tag → Bool
  names_event id tag =
      first_is "e" tag
      && is_some_and (second tag)
          (λ value. is_some_and (nostr.from_hex value) (λ named. named == id))

  -- The coordinate that an `a` tag stands for.
  abbrev pub addressed : Coordinate → EventCoordinate
  addressed c =
      replaceable c.public_key c.kind
        (if is_addressable_kind c.kind then some c.identifier else none)

  abbrev pub names_coordinate : EventCoordinate → Tag → Bool
  names_coordinate target tag =
      first_is "a" tag
      && is_some_and (second tag) (λ value.
        is_some_and (nostr.parse_coordinate value) (λ c. coordinate_eq target (addressed c)))

  -- The guards of `deletion_applies`.
  abbrev pub is_authorized : Event → Event → Bool
  is_authorized deletion target =
      deletion.kind == nostr.event_deletion
      && not (target.kind == nostr.event_deletion)
      && deletion.pubkey == target.pubkey

  unfoldable pub deletion_applies : Event → Event → Bool
  deletion_applies deletion target =
      if not (is_authorized deletion target)
      then false
      else if any (names_event target.id) deletion.tags
      then true
      else if ltb deletion.created_at target.created_at
      then false
      else any
          (names_coordinate
            (event_coordinate nostr target.id target.pubkey target.kind target.tags))
          deletion.tags
