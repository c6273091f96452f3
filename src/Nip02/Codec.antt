-- ===== src/Nip02/Codec.antt =====
-- crates/fava-nip02/src/edit.rs: `encode` and `decode`. A `usize` has 64 bits.
use fava.Base.{
  drop, ℕ, suc, ◌+◌, ◌*◌, ◌/◌, ◌%◌, ◌&&◌, String, Option, none, some, [], ◌∷◌, ◌++◌, take, length,
  leb, ltb, ◌==◌, if◌then◌else◌, Result, ok, err, ◌>>=◌,
}
use fava.Nostr.{PublicKey, RelayUrl}
use fava.Nip02.Text.{Bytes, from_utf8}
use fava.Nip02.Change.{
  Operation, add, add_with_metadata, remove, Change, WriteIntentError, encoding, codec_len,
  max_edit_bytes, edit_too_large, Crate,
}

abbrev usize_limit : ℕ
usize_limit = 18446744073709551616

abbrev u32_limit : ℕ
u32_limit = 4294967296

abbrev overflow : WriteIntentError
overflow = encoding "NIP-02 edit size overflow"

-- `checked_add`, and `u32::try_from`.
abbrev checked_add : ℕ → ℕ → Result WriteIntentError ℕ
checked_add a b = if ltb (a + b) usize_limit then ok (a + b) else err overflow

abbrev pub u32_from : ℕ → Result WriteIntentError ℕ
u32_from n = if ltb n u32_limit then ok n else err (edit_too_large n)

-- `u32::to_be_bytes` and `from_be_bytes`.
abbrev pub to_be_bytes : ℕ → Bytes
to_be_bytes n = n / 0x1000000 % 0x100 ∷ n / 0x10000 % 0x100 ∷ n / 0x100 % 0x100 ∷ n % 0x100 ∷ []

abbrev pub from_be_bytes : ℕ → ℕ → ℕ → ℕ → ℕ
from_be_bytes a b c d = a * 0x1000000 + b * 0x10000 + c * 0x100 + d

abbrev pub petname_len : Option Bytes → ℕ
petname_len none = 0
petname_len (some petname) = length petname

abbrev pub petname_prefix : Option Bytes → ℕ
petname_prefix none = 0
petname_prefix (some _) = 4

unfoldable pub metadata_encoded_len : Bytes → Option Bytes → Result WriteIntentError ℕ
metadata_encoded_len relay petname = do
  len ← checked_add codec_len 4
  len ← checked_add len (length relay)
  len ← checked_add len 1
  len ← checked_add len (petname_prefix petname)
  len ← checked_add len (petname_len petname)
  if leb len max_edit_bytes then ok len else err (edit_too_large len)

abbrev pub petname_bytes : Option Bytes → ℕ → Bytes
petname_bytes none len = 0 ∷ []
petname_bytes (some petname) len = 1 ∷ to_be_bytes len ++ petname

-- `split_first` and `bytes.get(..)`, with what is left.
unfoldable pub take_length_prefixed : Bytes → Result WriteIntentError (Bytes × Bytes)
take_length_prefixed (a ∷ b ∷ c ∷ d ∷ rest) =
    if leb (from_be_bytes a b c d) (length rest)
    then ok (take (from_be_bytes a b c d) rest, drop (from_be_bytes a b c d) rest)
    else err (encoding "truncated NIP-02 metadata value")
take_length_prefixed _ = err (encoding "truncated NIP-02 metadata length")

abbrev pub text_or : String → Bytes → Result WriteIntentError Bytes
text_or reason bytes = elim (from_utf8 bytes) [ none ↦ err (encoding reason) | some text ↦ ok text ]

abbrev nothing_left : Bytes → Result WriteIntentError (Option Bytes)
nothing_left [] = ok none
nothing_left (_ ∷ _) = err (encoding "invalid NIP-02 petname presence")

abbrev pub whole_petname : Bytes × Bytes → Result WriteIntentError (Option Bytes)
whole_petname (petname, []) = do
  text ← text_or "invalid NIP-02 petname encoding" petname
  ok (some text)
whole_petname (petname, _ ∷ _) = err (encoding "trailing NIP-02 metadata edit bytes")

unfoldable pub decode_petname : Bytes → Result WriteIntentError (Option Bytes)
decode_petname [] = err (encoding "malformed NIP-02 metadata edit")
decode_petname (presence ∷ remaining) =
    if presence == 0
    then nothing_left remaining
    else if presence == 1
    then take_length_prefixed remaining >>= whole_petname
    else err (encoding "invalid NIP-02 petname presence")

module _ (crate : Crate) where
  abbrev pub relay_text : Option RelayUrl → Bytes
  relay_text none = []
  relay_text (some url) = crate.url_text url

  unfoldable pub encode_metadata :
      PublicKey → Option RelayUrl → Option Bytes → Result WriteIntentError Bytes
  unfolding metadata_encoded_len
  encode_metadata target relay petname = do
    len ← metadata_encoded_len (relay_text relay) petname
    relay_len ← u32_from (length (relay_text relay))
    name_len ← u32_from (petname_len petname)
    ok (
        3 ∷ crate.as_bytes target
        ++ (to_be_bytes relay_len ++ (relay_text relay ++ petname_bytes petname name_len)))

  -- `encode`, with the code of each operation.
  unfoldable pub encode_as : Operation → PublicKey → Result WriteIntentError Bytes
  encode_as add target = ok (1 ∷ crate.as_bytes target)
  encode_as remove target = ok (2 ∷ crate.as_bytes target)
  encode_as (add_with_metadata relay petname) target = encode_metadata target relay petname

  unfoldable pub encode : Change → Result WriteIntentError Bytes
  unfolding encode_as encode_metadata
  encode change = encode_as change.operation change.target

  abbrev pub decode_relay : Bytes → Result WriteIntentError (Option RelayUrl)
  decode_relay [] = ok none
  decode_relay (b ∷ text) = elim (crate.url_parse (b ∷ text)) [
    | none ↦ err (encoding "invalid NIP-02 relay hint")
    | some url ↦ ok (some url)
  ]

  unfoldable pub decode_metadata : Bytes → Result WriteIntentError Operation
  decode_metadata bytes = do
    parts ← take_length_prefixed bytes
    text ← text_or "invalid NIP-02 relay encoding" parts.0
    relay ← decode_relay text
    petname ← decode_petname parts.1
    ok (add_with_metadata relay petname)

  unfoldable pub decode_operation : ℕ → Bytes → Result WriteIntentError Operation
  decode_operation code rest =
      if code == 1 && length rest == 0
      then ok add
      else if code == 2 && length rest == 0
      then ok remove
      else if code == 3
      then decode_metadata rest
      else err (encoding "unknown NIP-02 edit operation")

  abbrev pub key_or : Bytes → Result WriteIntentError PublicKey
  key_or bytes = elim (crate.from_slice bytes) [
    | none ↦ err (encoding "invalid NIP-02 target public key")
    | some key ↦ ok key
  ]

  -- The first byte, and what stands behind it.
  unfoldable pub decode : Bytes → Result WriteIntentError Change
  decode [] = err (encoding "malformed NIP-02 edit")
  decode (code ∷ rest) =
      if ltb (suc (length rest)) codec_len then err (encoding "malformed NIP-02 edit") else do
        target ← key_or (take 32 rest)
        operation ← decode_operation code (drop 32 rest)
        ok (record { operation = operation; target = target })
