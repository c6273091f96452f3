-- ===== src/Nip02/Change.antt =====
-- crates/fava-nip02/src/edit.rs: changes, and what the module calls of the `nostr` crate.
use fava.Base.{ℕ, ◌≡◌, ◌≢◌, true, String, Option, some, List, [], ◌∷◌, length}
use fava.Nostr.{PublicKey, RelayUrl}
use fava.Nip02.Text.{Bytes, is_utf8}

-- A tag is the list of its texts.
abbrev pub Row : Type 0
Row = List Bytes

pub data Operation : Type 0 where
  add : Operation
  add_with_metadata : Option RelayUrl → Option Bytes → Operation
  remove : Operation

pub record Change : Type 0 where
  pub operation : Operation
  pub target : PublicKey

-- `WriteIntentError`, as far as this module makes it.
pub data WriteIntentError : Type 0 where
  too_large : ℕ → ℕ → WriteIntentError
  encoding : String → WriteIntentError
  invalid_event : String → WriteIntentError

abbrev pub codec_len : ℕ
codec_len = 33

abbrev pub max_edit_bytes : ℕ
max_edit_bytes = 131072

abbrev pub edit_too_large : ℕ → WriteIntentError
edit_too_large bytes = too_large bytes max_edit_bytes

-- `PublicKey`, `RelayUrl` and `Tag` of the crate.
pub record Crate : Type 0 where
  pub as_bytes : PublicKey → Bytes
  pub from_slice : Bytes → Option PublicKey
  pub to_hex : PublicKey → Bytes
  pub from_hex : Bytes → Option PublicKey
  pub url_text : RelayUrl → Bytes
  pub url_parse : Bytes → Option RelayUrl
  pub tag_parse : List Bytes → Option Row

-- What the crate documents of them.
pub record IsDocumented (crate : Crate) : Type 0 where
  pub key_length : (key : PublicKey) → length (crate.as_bytes key) ≡ 32
  pub key_again : (key : PublicKey) → crate.from_slice (crate.as_bytes key) ≡ some key
  pub hex_again : (key : PublicKey) → crate.from_hex (crate.to_hex key) ≡ some key
  pub url_again : (url : RelayUrl) → crate.url_parse (crate.url_text url) ≡ some url
  pub url_is_text : (url : RelayUrl) → is_utf8 (crate.url_text url) ≡ true
  pub url_not_empty : (url : RelayUrl) → crate.url_text url ≢ []
  pub tag_again :
      (first : Bytes) (rest : List Bytes) → crate.tag_parse (first ∷ rest) ≡ some (first ∷ rest)
