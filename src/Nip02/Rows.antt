-- ===== src/Nip02/Rows.antt =====
-- crates/fava-nip02/src/edit.rs: `apply`, what a change makes of the rows of a contact list.
use fava.Base.{
  Bool, true, false, not, ◌&&◌, ◌||◌, any, Option, none, some, List, [], ◌∷◌, ◌++◌, ◌==◌,
  if◌then◌else◌, Result, ok, err, ◌>>=◌,
}
use fava.Nostr.{PublicKey, RelayUrl}
use fava.Nip02.Text.{Bytes, text_beq}
use fava.Nip02.Change.{
  Row, Operation, add_with_metadata, remove, Change, WriteIntentError, encoding, Crate,
}

-- "p"
abbrev pub letter_p : Bytes
letter_p = 112 ∷ []

abbrev pub is_remove : Operation → Bool
is_remove remove = true
is_remove _ = false

abbrev key_is : PublicKey → Option PublicKey → Bool
key_is target none = false
key_is target (some key) = key == target

module _ (crate : Crate) where
  -- A row names the target if it starts with "p" and the target's key in hex.
  unfoldable pub tag_targets : PublicKey → Row → Bool
  tag_targets target (name ∷ value ∷ _) =
      text_beq name letter_p && key_is target (crate.from_hex value)
  tag_targets target _ = false

  abbrev url_or_empty : Option RelayUrl → Bytes
  url_or_empty none = []
  url_or_empty (some url) = crate.url_text url

  abbrev metadata_values : Option RelayUrl → Option Bytes → List Bytes
  metadata_values none none = []
  metadata_values relay none = url_or_empty relay ∷ []
  metadata_values relay (some petname) = url_or_empty relay ∷ petname ∷ []

  abbrev pub values_of : Operation → List Bytes
  values_of (add_with_metadata relay petname) = metadata_values relay petname
  values_of _ = []

  unfoldable pub canonical_row : Change → Result WriteIntentError Row
  canonical_row change =
      elim (crate.tag_parse (letter_p ∷ crate.to_hex change.target ∷ values_of change.operation)) [
        | none ↦ err (encoding "invalid NIP-02 contact row")
        | some row ↦ ok row
      ]

  -- The loop over the rows: the first row that names the target stays, unless it is to be removed.
  unfoldable pub keep_rows : Bool → PublicKey → Bool → List Row → List Row
  keep_rows removes target found [] = []
  keep_rows removes target found (row ∷ rows) =
      let next = keep_rows removes target (found || (not removes && tag_targets target row)) rows in
      if tag_targets target row && (removes || found) then next else row ∷ next

  unfoldable pub is_found : Bool → PublicKey → List Row → Bool
  is_found removes target rows = not removes && any (tag_targets target) rows

  unfoldable pub apply : List Row → Change → Result WriteIntentError (List Row)
  unfolding keep_rows is_found
  apply source change =
      let tags = keep_rows (is_remove change.operation) change.target false source in
      if not (is_remove change.operation)
        && not (is_found (is_remove change.operation) change.target source)
      then (canonical_row change >>= λ row. ok (tags ++ row ∷ []))
      else ok tags
