-- ===== src/Tests/Contacts.antt =====
-- crates/fava-nip02: edits of a contact list, and the theorems at them.
use fava.Base.{
  Bool, ℕ, zero, suc, ◌≡◌, refl, true, false, Option, none, some, List, [], ◌∷◌, ◌++◌, length,
  arith, ok, ◌==◌,
}
use fava.Nostr.{PublicKey, RelayUrl}
use fava.Nip02.Text.{Bytes, is_utf8, utf8_rest}
use fava.Nip02.Change.{Row, Operation, add_with_metadata, Crate, IsDocumented}
use fava.Nip02.Codec.{encode, decode}
use fava.Nip02.RoundTrip.{decode-encode}
use fava.Nip02.Rows.{apply, is_remove, letter_p}
use fava.Nip02.Contacts.{change_to, others, rows_of}
use fava.Nip02.Follow.{apply-decides, apply-again}
use fava.Nip02.Edit.{Display, follow_with, parse_target, decode_edit, contact_list}
use fava.Nip02.Supported.{follow_with-decodes}

abbrev copies : ℕ → ℕ → Bytes
copies zero b = []
copies (suc n) b = b ∷ copies n b

abbrev counted : Bytes → Option RelayUrl
counted [] = none
counted (_ ∷ text) = some (length text)

abbrev first : Bytes → Option PublicKey
first [] = none
first (b ∷ _) = some b

abbrev as_row : List Bytes → Option Row
as_row [] = none
as_row (value ∷ values) = some (value ∷ values)

-- A crate whose URLs are spelled by their number of letters.
abbrev crate : Crate
crate = record {
  as_bytes = λ key. key ∷ copies 31 0;
  from_slice = first;
  to_hex = λ key. key ∷ [];
  from_hex = first;
  url_text = λ url. copies (suc url) 97;
  url_parse = counted;
  tag_parse = as_row;
}

length-copies : (n b : ℕ) → length (copies n b) ≡ n
length-copies zero b = refl
length-copies (suc n) b = omega (arith, length-copies n b)

copies_are_text : (n : ℕ) → is_utf8 (copies n 97) ≡ true
unfolding is_utf8 utf8_rest
copies_are_text zero = refl
copies_are_text (suc n) = copies_are_text n

crate-IsDocumented : IsDocumented crate
crate-IsDocumented = record {
  key_length = λ key. refl;
  key_again = λ key. refl;
  hex_again = λ key. refl;
  url_again = λ url. rw (length-copies url 97) refl;
  url_is_text = λ url. copies_are_text (suc url);
  url_not_empty = λ url e. cc;
  tag_again = λ value values. refl;
}

abbrev petname : Bytes
petname = 98 ∷ 111 ∷ 98 ∷ []

abbrev bob : Operation
bob = add_with_metadata (some 1) (some petname)

abbrev bob_bytes : Bytes
bob_bytes =
    (3 ∷ 7 ∷ copies 31 0) ++ (0 ∷ 0 ∷ 0 ∷ 2 ∷ 97 ∷ 97 ∷ 1 ∷ 0 ∷ 0 ∷ 0 ∷ 3 ∷ 98 ∷ 111 ∷ 98 ∷ [])

encoded : encode crate (record { operation = bob; target = 7 }) ≡ ok bob_bytes
unfolding encode
encoded = refl

petname_is_text : is_utf8 petname ≡ true
unfolding is_utf8
petname_is_text = refl

decode-encode_example : decode crate bob_bytes ≡ ok (record { operation = bob; target = 7 })
decode-encode_example =
    decode-encode crate crate-IsDocumented (record { operation = bob; target = 7 }) petname_is_text
      encoded

-- A row for key 9, two for key 7 and a tag of another name.
abbrev other_row : Row
other_row = letter_p ∷ (9 ∷ []) ∷ []

abbrev tag_row : Row
tag_row = (116 ∷ []) ∷ (7 ∷ []) ∷ []

abbrev seven_row : Row
seven_row = letter_p ∷ (7 ∷ []) ∷ (97 ∷ []) ∷ []

abbrev rows : List Row
rows = other_row ∷ seven_row ∷ tag_row ∷ (letter_p ∷ (7 ∷ []) ∷ []) ∷ []

followed :
    apply crate rows (change_to crate crate-IsDocumented 7 bob)
    ≡ ok (other_row ∷ seven_row ∷ tag_row ∷ [])
unfolding apply fava.Nip02.Rows.tag_targets fava.Nip02.Text.text_beq
followed = refl

new_row :
    apply crate (other_row ∷ []) (change_to crate crate-IsDocumented 7 bob)
    ≡ ok (other_row ∷ (letter_p ∷ (7 ∷ []) ∷ (97 ∷ 97 ∷ []) ∷ petname ∷ []) ∷ [])
unfolding apply fava.Nip02.Rows.tag_targets fava.Nip02.Text.text_beq fava.Nip02.Rows.canonical_row
new_row = refl

apply-decides_example :
    (others crate crate-IsDocumented 7 (other_row ∷ seven_row ∷ tag_row ∷ [])
      ≡ others crate crate-IsDocumented 7 rows)
    × (length (rows_of crate crate-IsDocumented 7 (other_row ∷ seven_row ∷ tag_row ∷ [])) ≡ 1)
apply-decides_example = apply-decides crate crate-IsDocumented 7 rows _ bob followed

apply-again_example :
    apply crate (other_row ∷ seven_row ∷ tag_row ∷ []) (change_to crate crate-IsDocumented 7 bob)
    ≡ ok (other_row ∷ seven_row ∷ tag_row ∷ [])
apply-again_example = apply-again crate crate-IsDocumented 7 rows _ bob followed

-- A display that writes the key in two pieces.
abbrev shown : Display
shown = record { pieces = (7 ∷ []) ∷ (48 ∷ []) ∷ []; fails = false }

abbrev is_replaceable : ℕ → Bool
is_replaceable kind = kind == 3

abbrev is_addressable : ℕ → Bool
is_addressable kind = false

following :
    follow_with crate first is_replaceable is_addressable shown (some 1) (some petname)
    ≡ ok (record { kind = contact_list; identifier = none; change = bob_bytes })
unfolding follow_with
following = refl

follow_with-decodes_example :
    (key : PublicKey) × (parse_target crate first is_replaceable is_addressable shown ≡ ok key)
    × (decode_edit crate first is_replaceable is_addressable
          (record { kind = contact_list; identifier = none; change = bob_bytes })
        ≡ ok (record { operation = bob; target = key }))
follow_with-decodes_example =
    follow_with-decodes crate crate-IsDocumented first is_replaceable is_addressable shown (some 1)
      (some petname) petname_is_text following
