-- ===== src/State/Coordinate.antt =====
-- crates/fava-state/src/lib.rs: the coordinate that an event stands at, and which of two is newer.
use Prim.Native.Nat.{Ordering}
use Prim.Native.String.{compare}
use fava.Base.{
  String, Bool, true, false, ◌&&◌, ◌||◌, ◌≡◌, ◌↔◌, Option, none, some, List, [], ◌∷◌, arith, ltb,
  leb, ◌==◌, if◌then◌else◌, str_eq, eq_iff,
}
use fava.BTreeMap.{Key}
use fava.Nostr.{EventId, PublicKey, Kind, Timestamp, Tag, Event, Nostr, first_is, second}

pub data EventCoordinate : Type 0 where
  event : EventId → EventCoordinate
  replaceable : PublicKey → Kind → Option String → EventCoordinate

-- `PartialEq` as derived.
abbrev pub identifier_eq : Option String → Option String → Bool
identifier_eq none none = true
identifier_eq (some a) (some b) = str_eq a b
identifier_eq _ _ = false

unfoldable pub coordinate_eq : EventCoordinate → EventCoordinate → Bool
coordinate_eq (event a) (event b) = a == b
coordinate_eq (replaceable a k i) (replaceable b l j) = a == b && k == l && identifier_eq i j
coordinate_eq _ _ = false

abbrev pub is_addressable_kind : Kind → Bool
is_addressable_kind kind = leb 30000 kind && ltb kind 40000

-- `find_map(..).unwrap_or_default()`: the value of the first `d` tag, empty where it has none.
abbrev pub value_or_empty : Option String → String
value_or_empty none = ""
value_or_empty (some value) = value

unfoldable pub d_identifier : List Tag → String
d_identifier [] = ""
d_identifier (tag ∷ tags) =
    if first_is "d" tag then value_or_empty (second tag) else d_identifier tags

module _ (nostr : Nostr) where
  unfoldable pub event_coordinate : EventId → PublicKey → Kind → List Tag → EventCoordinate
  event_coordinate id author kind tags =
      if is_addressable_kind kind
      then replaceable author kind (some (d_identifier tags))
      else if nostr.is_replaceable kind
      then replaceable author kind none
      else event id

  unfoldable pub coordinate_of : Event → EventCoordinate
  unfolding event_coordinate
  coordinate_of e = event_coordinate e.id e.pubkey e.kind e.tags

unfoldable pub event_is_newer : Timestamp × EventId → Timestamp × EventId → Bool
event_is_newer candidate current =
    ltb current.0 candidate.0 || (candidate.0 == current.0 && ltb candidate.1 current.1)

abbrev pub is_replaceable_coordinate : EventCoordinate → Bool
is_replaceable_coordinate (replaceable _ _ _) = true
is_replaceable_coordinate (event _) = false

identifier_eq_iff : (i j : Option String) → (identifier_eq i j ≡ true) ↔ (i ≡ j)
identifier_eq_iff none none = ground arith
identifier_eq_iff none (some b) = ground arith
identifier_eq_iff (some a) none = ground arith
identifier_eq_iff (some a) (some b) = ground (arith, eq_iff a b)

pub coordinate_eq_iff : (a b : EventCoordinate) → (coordinate_eq a b ≡ true) ↔ (a ≡ b)
unfolding coordinate_eq
coordinate_eq_iff (event a) (event b) = ground arith
coordinate_eq_iff (replaceable a k i) (replaceable b l j) = ground (arith, identifier_eq_iff i j)
coordinate_eq_iff (event a) (replaceable b l j) = ground arith
coordinate_eq_iff (replaceable a k i) (event b) = ground arith

-- The derived order: by constructor, then by content.
abbrev text_less : String → String → Bool
text_less a b = elim (compare a b) [ Ordering.lt ↦ true | _ ↦ false ]

abbrev identifier_less : Option String → Option String → Bool
identifier_less _ none = false
identifier_less none (some _) = true
identifier_less (some a) (some b) = text_less a b

abbrev pub coordinate_less : EventCoordinate → EventCoordinate → Bool
coordinate_less (event a) (event b) = ltb a b
coordinate_less (event _) (replaceable _ _ _) = true
coordinate_less (replaceable _ _ _) (event _) = false
coordinate_less (replaceable a k i) (replaceable b l j) =
    ltb a b || (a == b && ltb k l) || (a == b && k == l && identifier_less i j)

instance abbrev pub coordinate_key : Key EventCoordinate
coordinate_key = record { beq = coordinate_eq; blt = coordinate_less; beq_iff = coordinate_eq_iff }
