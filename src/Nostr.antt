-- ===== src/Nostr.antt =====
-- The `nostr` crate, which the program only calls: its values as the program reads them, and its
-- functions as parameters.
use fava.Base.{◌≡◌, ◌<◌, true, ℕ, String, Bool, false, Option, none, some, List, [], ◌∷◌, str_eq}

-- An event identity or a public key is 32 bytes, read as one number, big end first: the order of
-- the bytes is the order of the numbers. A relay URL is known by its place among the URLs, and a
-- timestamp by its seconds.
abbrev pub EventId : Type 0
EventId = ℕ

abbrev pub PublicKey : Type 0
PublicKey = ℕ

abbrev pub RelayUrl : Type 0
RelayUrl = ℕ

abbrev pub Timestamp : Type 0
Timestamp = ℕ

abbrev pub Kind : Type 0
Kind = ℕ

-- `Tag::as_slice`.
abbrev pub Tag : Type 0
Tag = List String

pub record Event : Type 0 where
  pub id : EventId
  pub pubkey : PublicKey
  pub created_at : Timestamp
  pub kind : Kind
  pub tags : List Tag
  pub content : String
  pub sig : ℕ

-- `nostr::nips::nip01::Coordinate`.
pub record Coordinate : Type 0 where
  pub public_key : PublicKey
  pub kind : Kind
  pub identifier : String

-- What the program calls of the crate. `same` is `PartialEq` of its `Event`.
pub record Nostr : Type 0 where
  pub event_deletion : Kind
  pub is_replaceable : Kind → Bool
  pub from_hex : String → Option EventId
  pub parse_coordinate : String → Option Coordinate
  pub verify : Event → Bool
  pub same : Event → Event → Bool

-- `values.first() == Some(name)`, and `values.get(1)`.
abbrev pub first_is : String → Tag → Bool
first_is name [] = false
first_is name (value ∷ _) = str_eq value name

abbrev pub second : Tag → Option String
second (_ ∷ value ∷ _) = some value
second _ = none

-- What NIP-01 and NIP-09 say of these: the identity of a verified event is the hash of its other
-- fields, and kind 5 is a regular kind.
pub record IsNip01 (nostr : Nostr) : Type 0 where
  pub binds :
      (a b : Event)
      → nostr.verify a ≡ true
      → nostr.verify b ≡ true
      → a.id ≡ b.id
      → (a.pubkey ≡ b.pubkey)
        × (a.created_at ≡ b.created_at)
        × (a.kind ≡ b.kind)
        × (a.tags ≡ b.tags)
  pub deletion_not_replaceable : nostr.is_replaceable nostr.event_deletion ≡ false
  pub deletion_not_addressable : nostr.event_deletion < 30000
