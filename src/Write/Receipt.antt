-- ===== src/Write/Receipt.antt =====
-- crates/fava-write/src/receipt.rs, edit.rs, routing.rs and lib.rs: what is known of one accepted
-- write.
use fava.Base.{
  ℕ, ◌≡◌, ◌↔◌, Bool, true, false, not, ◌&&◌, String, Option, some, List, arith, ◌==◌, str_eq,
  eq_iff, length, keep,
}
use fava.BTreeMap.{BTreeMap, nat_key, values}
use fava.BTreeSet.{BTreeSet, contains}
use fava.Nostr.{EventId, PublicKey, RelayUrl, Timestamp, Kind, Tag, Event}
use fava.State.Contribution.{Authority}

-- An unsigned event of the `nostr` crate; its identity is there once it is computed.
pub record UnsignedEvent : Type 0 where
  pub id : Option EventId
  pub pubkey : PublicKey
  pub created_at : Timestamp
  pub kind : Kind
  pub tags : List Tag
  pub content : String

pub data EventValue : Type 0 where
  unsigned : UnsignedEvent → EventValue
  signed : Event → EventValue

abbrev pub value_id : EventValue → Option EventId
value_id (unsigned e) = e.id
value_id (signed e) = some e.id

pub record EventEdit : Type 0 where
  pub kind : Kind
  pub identifier : Option String
  pub change : List ℕ

pub data WriteRouting : Type 0 where
  automatic : WriteRouting
  explicit : List RelayUrl → WriteRouting

pub data SignatureState : Type 0 where
  unsigned authorized : SignatureState
  retryable : String → SignatureState
  signed : SignatureState
  refused : String → SignatureState

pub data RelayDeliveryOutcome : Type 0 where
  pending attempting : RelayDeliveryOutcome
  retryable acknowledged rejected authentication_denied given_up unknown :
      String → RelayDeliveryOutcome
  cancelled_before_handoff : RelayDeliveryOutcome

unfoldable pub is_terminal_outcome : RelayDeliveryOutcome → Bool
is_terminal_outcome pending = false
is_terminal_outcome attempting = false
is_terminal_outcome (retryable _) = false
is_terminal_outcome _ = true

-- `PartialEq` as derived: the constructor, then its text.
abbrev pub outcome_rank : RelayDeliveryOutcome → ℕ
outcome_rank pending = 0
outcome_rank attempting = 1
outcome_rank (retryable _) = 2
outcome_rank (acknowledged _) = 3
outcome_rank (rejected _) = 4
outcome_rank (authentication_denied _) = 5
outcome_rank (given_up _) = 6
outcome_rank (unknown _) = 7
outcome_rank cancelled_before_handoff = 8

abbrev pub outcome_text : RelayDeliveryOutcome → String
outcome_text pending = ""
outcome_text attempting = ""
outcome_text (retryable t) = t
outcome_text (acknowledged t) = t
outcome_text (rejected t) = t
outcome_text (authentication_denied t) = t
outcome_text (given_up t) = t
outcome_text (unknown t) = t
outcome_text cancelled_before_handoff = ""

unfoldable pub outcome_eq : RelayDeliveryOutcome → RelayDeliveryOutcome → Bool
outcome_eq a b = outcome_rank a == outcome_rank b && str_eq (outcome_text a) (outcome_text b)

pub record RetiredRevision : Type 0 where
  pub revision_id : ℕ
  pub event_id : EventId
  pub source : Option EventId
  pub failure : Option String

pub record PublicationEvidence : Type 0 where
  pub receipt_id : ℕ
  pub write_id : ℕ
  pub revision_id : ℕ
  pub revision_source : Option EventId
  pub revision_failure : Option String
  pub retired_revisions : List RetiredRevision
  pub signature : SignatureState
  pub destinations : BTreeMap RelayUrl RelayDeliveryOutcome

pub record LocalWriteEvent : Type 0 where
  pub id : EventId
  pub event : EventValue
  pub publication : PublicationEvidence

pub data ReceiptOutcome : Type 0 where
  opened cancelled complete no_destination : ReceiptOutcome

pub record Receipt : Type 0 where
  pub write_id : ℕ
  pub receipt_id : ℕ
  pub current : LocalWriteEvent
  pub routing : WriteRouting
  pub access : Authority
  pub outcome : ReceiptOutcome
  pub route_revision : ℕ
  pub route_settled : Bool
  pub route_shortfalls : List String
  pub desired_destinations : BTreeSet RelayUrl
  pub attempts : BTreeMap RelayUrl ℕ

abbrev pub is_open : ReceiptOutcome → Bool
is_open opened = true
is_open _ = false

unfoldable pub is_terminal : Receipt → Bool
is_terminal receipt = not (is_open receipt.outcome)

abbrev pub destinations : Receipt → BTreeMap RelayUrl RelayDeliveryOutcome
destinations receipt = receipt.current.publication.destinations

-- The receipt with other destinations.
abbrev pub with_destinations : BTreeMap RelayUrl RelayDeliveryOutcome → Receipt → Receipt
with_destinations d receipt =
    let current = receipt.current in
    let publication = current.publication in
    record receipt {
      current = record current { publication = record publication { destinations = d } };
    }

abbrev pub is_acknowledged : RelayDeliveryOutcome → Bool
is_acknowledged (acknowledged _) = true
is_acknowledged _ = false

abbrev pub is_rejected : RelayDeliveryOutcome → Bool
is_rejected (rejected _) = true
is_rejected _ = false

unfoldable pub acknowledged_count : Receipt → ℕ
acknowledged_count receipt = length (keep is_acknowledged (values (destinations receipt)))

unfoldable pub rejected_count : Receipt → ℕ
rejected_count receipt = length (keep is_rejected (values (destinations receipt)))

unfoldable pub desired : Receipt → ℕ
desired receipt = length receipt.desired_destinations

unfoldable pub desires : Receipt → RelayUrl → Bool
desires receipt session = contains session receipt.desired_destinations

pub outcome_eq_iff : (a b : RelayDeliveryOutcome) → (outcome_eq a b ≡ true) ↔ (a ≡ b)
unfolding outcome_eq
outcome_eq_iff a b = ground (arith, eq_iff (outcome_text a) (outcome_text b))
