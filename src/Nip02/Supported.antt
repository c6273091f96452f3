-- ===== src/Nip02/Supported.antt =====
-- crates/fava-nip02/src/edit.rs: the applier understands every edit that the module makes.
use fava.Base.{◌≡◌, arith, Bool, Option, none, some, ok, ◌>>=◌, >>=-eq-ok}
use fava.Nostr.{PublicKey, RelayUrl, Kind}
use fava.Write.Receipt.{EventEdit}
use fava.Nip02.Text.{Bytes}
use fava.Nip02.Change.{Operation, add, add_with_metadata, Crate, IsDocumented}
use fava.Nip02.Codec.{metadata_encoded_len, relay_text, encode}
use fava.Nip02.RoundTrip.{IsText, decode-encode}
use fava.Nip02.Edit.{
  contact_list, Display, parse_target, validate_coordinate, new_edit, edit, follow_key_with,
  follow_with, decode_edit,
}

module _ (crate : Crate) (documented : IsDocumented crate) (parse_key : Bytes → Option PublicKey)
    (is_replaceable is_addressable : Kind → Bool) where
  new_edit-change :
      (change : Bytes) {e : EventEdit}
      → new_edit crate parse_key is_replaceable is_addressable contact_list none change ≡ ok e
      → (e.kind ≡ contact_list) × (e.identifier ≡ none) × (e.change ≡ change)
  unfolding new_edit validate_coordinate
  new_edit-change change h = ground arith

  edit-decodes :
      (target : PublicKey) (operation : Operation) {e : EventEdit}
      → IsText operation
      → edit crate parse_key is_replaceable is_addressable target operation ≡ ok e
      → decode_edit crate parse_key is_replaceable is_addressable e
        ≡ ok (record { operation = operation; target = target })
  unfolding edit decode_edit
  edit-decodes target operation text h =
      let (bytes, encoded, made) =
        >>=-eq-ok (encode crate (record { operation = operation; target = target })) _ h in
      let (k, i, c) = new_edit-change bytes made in
      rw (k, i, c) (decode-encode crate documented _ text encoded)

  abbrev pub asked : Option RelayUrl → Option Bytes → Operation
  asked none none = add
  asked (some url) petname = add_with_metadata (some url) petname
  asked none (some petname) = add_with_metadata none (some petname)

  with_metadata-decodes :
      (key : PublicKey) (relay : Option RelayUrl) (petname : Option Bytes) {e : EventEdit}
      → IsText (add_with_metadata relay petname)
      → (metadata_encoded_len (relay_text crate relay) petname >>= λ len.
          edit crate parse_key is_replaceable is_addressable key (add_with_metadata relay petname))
        ≡ ok e
      → decode_edit crate parse_key is_replaceable is_addressable e
        ≡ ok (record { operation = add_with_metadata relay petname; target = key })
  with_metadata-decodes key relay petname text h =
      let (len, sized, made) =
        >>=-eq-ok (metadata_encoded_len (relay_text crate relay) petname) _ h in
      edit-decodes key (add_with_metadata relay petname) text made

  follow_key_with-decodes :
      (key : PublicKey) (relay : Option RelayUrl) (petname : Option Bytes) {e : EventEdit}
      → IsText (asked relay petname)
      → follow_key_with crate parse_key is_replaceable is_addressable key relay petname ≡ ok e
      → decode_edit crate parse_key is_replaceable is_addressable e
        ≡ ok (record { operation = asked relay petname; target = key })
  unfolding follow_key_with
  follow_key_with-decodes key none none text h = edit-decodes key add text h
  follow_key_with-decodes key none (some petname) text h =
      with_metadata-decodes key none (some petname) text h
  follow_key_with-decodes key (some url) petname text h =
      with_metadata-decodes key (some url) petname text h

  -- An edit that follows somebody, with a petname that is text, is decoded to the change that it
  -- stands for, with the relay and the petname that were given.
  pub follow_with-decodes :
      (target : Display) (relay : Option RelayUrl) (petname : Option Bytes) {e : EventEdit}
      → IsText (asked relay petname)
      → follow_with crate parse_key is_replaceable is_addressable target relay petname ≡ ok e
      → (key : PublicKey) × (parse_target crate parse_key is_replaceable is_addressable target
          ≡ ok key)
        × (decode_edit crate parse_key is_replaceable is_addressable e
            ≡ ok (record { operation = asked relay petname; target = key }))
  unfolding follow_with
  follow_with-decodes target relay petname text h =
      let (key, parsed, made) =
        >>=-eq-ok (parse_target crate parse_key is_replaceable is_addressable target) _ h in
      (key, parsed, follow_key_with-decodes key relay petname text made)
