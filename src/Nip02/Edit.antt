-- ===== src/Nip02/Edit.antt =====
-- crates/fava-nip02/src/edit.rs and crates/fava-write/src/edit.rs: the edits that follow and
-- unfollow make, and which edits the applier supports.
use fava.Base.{
  ℕ, ◌+◌, Bool, true, false, ◌&&◌, String, Option, none, some, List, [], ◌∷◌, ◌++◌, length, min,
  ltb, ◌==◌, if◌then◌else◌, is_none, Result, ok, err, ◌>>=◌,
}
use fava.Nostr.{PublicKey, RelayUrl, Kind}
use fava.Write.Receipt.{EventEdit}
use fava.Nip02.Text.{Bytes}
use fava.Nip02.Change.{
  Operation, add, add_with_metadata, remove, Change, WriteIntentError, too_large, invalid_event,
  Crate,
}
use fava.Nip02.Codec.{metadata_encoded_len, relay_text, encode, decode}

abbrev pub contact_list : Kind
contact_list = 3

abbrev pub max_event_bytes : ℕ
max_event_bytes = 131072

abbrev max_target_text_bytes : ℕ
max_target_text_bytes = 69

abbrev usize_max : ℕ
usize_max = 18446744073709551615

-- What a `Display` writes: its pieces, and whether it fails behind them.
pub record Display : Type 0 where
  pub pieces : List Bytes
  pub fails : Bool

-- `BoundedTargetText`: what is written, or the length that was attempted.
unfoldable pub write_pieces : Bytes → List Bytes → Result ℕ Bytes
write_pieces value [] = ok value
write_pieces value (piece ∷ pieces) =
    let attempted = min (length value + length piece) usize_max in
    let rest = write_pieces (value ++ piece) pieces in
    if ltb max_target_text_bytes attempted then err attempted else rest

module _ (crate : Crate) (parse_key : Bytes → Option PublicKey)
    (is_replaceable is_addressable : Kind → Bool) where
  abbrev key_of : Bytes → Result WriteIntentError PublicKey
  key_of text = elim (parse_key text) [
    | none ↦ err (invalid_event "invalid NIP-02 target public key")
    | some key ↦ ok key
  ]

  unfoldable pub parse_target : Display → Result WriteIntentError PublicKey
  unfolding write_pieces
  parse_target target = elim (write_pieces [] target.pieces) [
    | err attempted ↦ err (too_large attempted max_target_text_bytes)
    | ok text ↦
        if target.fails then err (invalid_event "invalid NIP-02 target public key") else key_of text
  ]

  abbrev coordinate_refusal : WriteIntentError
  coordinate_refusal =
      invalid_event "replaceable-event edit kind requires an addressable identifier"

  abbrev identifier_refusal : WriteIntentError
  identifier_refusal =
      invalid_event "replaceable-event edit identifier requires an addressable kind"

  unfoldable pub validate_coordinate : Kind → Option String → Option WriteIntentError
  validate_coordinate kind none = if is_replaceable kind then none else some coordinate_refusal
  validate_coordinate kind (some _) = if is_addressable kind then none else some identifier_refusal

  -- `EventEdit::new`.
  unfoldable pub new_edit : Kind → Option String → Bytes → Result WriteIntentError EventEdit
  unfolding validate_coordinate
  new_edit kind identifier change = elim (validate_coordinate kind identifier) [
    | some error ↦ err error
    | none ↦
        if ltb max_event_bytes (length change)
        then err (too_large (length change) max_event_bytes)
        else ok (record { kind = kind; identifier = identifier; change = change })
  ]

  unfoldable pub edit : PublicKey → Operation → Result WriteIntentError EventEdit
  unfolding encode new_edit
  edit target operation = do
    change ← encode crate (record { operation = operation; target = target })
    new_edit contact_list none change

  unfoldable pub follow : Display → Result WriteIntentError EventEdit
  unfolding parse_target edit
  follow target = do key ← parse_target target; edit key add

  unfoldable pub unfollow : Display → Result WriteIntentError EventEdit
  unfolding parse_target edit
  unfollow target = do key ← parse_target target; edit key remove

  -- `follow_with`, once the target is parsed.
  unfoldable pub follow_key_with :
      PublicKey → Option RelayUrl → Option Bytes → Result WriteIntentError EventEdit
  unfolding edit
  follow_key_with key relay petname =
      if is_none relay && is_none petname
      then edit key add
      else (metadata_encoded_len (relay_text crate relay) petname >>= λ len.
          edit key (add_with_metadata relay petname))

  unfoldable pub follow_with :
      Display → Option RelayUrl → Option Bytes → Result WriteIntentError EventEdit
  unfolding parse_target follow_key_with
  follow_with target relay petname = do key ← parse_target target; follow_key_with key relay petname

  -- `validate_coordinate` of the module, and `decode_edit`.
  unfoldable pub decode_edit : EventEdit → Result WriteIntentError Change
  decode_edit e =
      if e.kind == contact_list && is_none e.identifier
      then decode crate e.change
      else err (invalid_event "NIP-02 edit requires a non-addressable kind-3 coordinate")

  abbrev is_ok : Result WriteIntentError Change → Bool
  is_ok (ok _) = true
  is_ok (err _) = false

  unfoldable pub supports : EventEdit → Bool
  supports e = is_ok (decode_edit e)
