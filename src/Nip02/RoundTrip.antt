-- ===== src/Nip02/RoundTrip.antt =====
-- crates/fava-nip02/src/edit.rs: `decode` reads back what `encode` writes.
use fava.Base.{
  drop, String, ℕ, zero, suc, ◌+◌, ◌/◌, ◌%◌, ◌≤◌, ◌<◌, ◌≡◌, refl, arith, true, false, Option, none,
  some, List, [], ◌∷◌, ◌++◌, take, length, leb, ltb, ok, >>=-eq-ok, ok_injective, length-append, ap,
  subst,
}
use mathlib.Core.List.{append-nil}
use fava.Nostr.{PublicKey, RelayUrl}
use fava.Nip02.Text.{Bytes, is_utf8}
use fava.Nip02.Change.{
  Operation, add, add_with_metadata, remove, Change, Crate, IsDocumented, max_edit_bytes,
}
use fava.Nip02.Codec.{
  to_be_bytes, from_be_bytes, take_length_prefixed, decode_petname, petname_bytes, petname_len,
  metadata_encoded_len, relay_text, petname_prefix, decode_relay, key_or, text_or, encode_metadata,
  encode, encode_as, decode_metadata, decode_operation, decode, u32_from,
}

take-append : {A : Type 0} (n : ℕ) (xs ys : List A) → length xs ≡ n → take n (xs ++ ys) ≡ xs
take-append zero [] ys h = refl
take-append zero (x ∷ xs) ys h = absurd (omega arith)
take-append (suc n) [] ys h = absurd (omega arith)
take-append (suc n) (x ∷ xs) ys h = ap (λ l. x ∷ l) (take-append n xs ys (omega arith))

drop-append : {A : Type 0} (n : ℕ) (xs ys : List A) → length xs ≡ n → drop n (xs ++ ys) ≡ ys
drop-append zero [] ys h = refl
drop-append zero (x ∷ xs) ys h = absurd (omega arith)
drop-append (suc n) [] ys h = absurd (omega arith)
drop-append (suc n) (x ∷ xs) ys h = drop-append n xs ys (omega arith)

-- The bytes of a 32-bit number.
be_again :
    (n : ℕ)
    → n < 4294967296
    → from_be_bytes (n / 0x1000000 % 0x100) (n / 0x10000 % 0x100) (n / 0x100 % 0x100) (n % 0x100)
      ≡ n
be_again n h = omega arith

take_length_prefixed-again :
    (text rest : Bytes)
    → length text < 4294967296
    → take_length_prefixed (to_be_bytes (length text) ++ (text ++ rest)) ≡ ok (text, rest)
unfolding take_length_prefixed
take_length_prefixed-again text rest h = rw (be_again (length text) h) (
    rw (fits, take-append (length text) text rest refl, drop-append (length text) text rest refl)
      refl)
  where
    fits : leb (length text) (length (text ++ rest)) ≡ true
    fits = ground (arith, length-append text rest)

-- The texts of a change are texts.
abbrev pub IsText : Operation → Type 0
IsText add = Unit
IsText remove = Unit
IsText (add_with_metadata relay none) = Unit
IsText (add_with_metadata relay (some petname)) = is_utf8 petname ≡ true

text_or-text :
    (reason : String) (text : Bytes) → is_utf8 text ≡ true → text_or reason text ≡ ok text
text_or-text reason text h = rw (h, text_or) refl

decode_petname-again :
    (petname : Option Bytes) (relay : Option RelayUrl)
    → IsText (add_with_metadata relay petname)
    → petname_len petname < 4294967296
    → decode_petname (petname_bytes petname (petname_len petname)) ≡ ok petname
unfolding decode_petname
decode_petname-again none relay text h = refl
decode_petname-again (some petname) relay text h = rw at (rw (text_or-text _ petname text) refl)
  where
    at : take_length_prefixed (to_be_bytes (length petname) ++ petname) ≡ ok (petname, [])
    at =
        subst
          (λ (name : Bytes).
            take_length_prefixed (to_be_bytes (length petname) ++ name) ≡ ok (petname, []))
          (append-nil petname) (take_length_prefixed-again petname [] h)

metadata_encoded_len-bounds :
    (relay : Bytes) (petname : Option Bytes) {n : ℕ}
    → metadata_encoded_len relay petname ≡ ok n
    → (n ≡ 38 + length relay + petname_prefix petname + petname_len petname) × (n ≤ max_edit_bytes)
unfolding metadata_encoded_len
metadata_encoded_len-bounds relay petname h = ground arith

length-petname :
    (petname : Option Bytes)
    → length (petname_bytes petname (petname_len petname))
      ≡ 1 + petname_prefix petname + petname_len petname
length-petname none = refl
length-petname (some petname) = omega arith

module _ (crate : Crate) (documented : IsDocumented crate) where
  decode_relay-again :
      (relay : Option RelayUrl) → decode_relay crate (relay_text crate relay) ≡ ok relay
  decode_relay-again none = refl
  decode_relay-again (some url) = go (crate.url_text url) refl
    where
      go :
          (text : Bytes)
          → crate.url_text url ≡ text
          → decode_relay crate (crate.url_text url) ≡ ok (some url)
      go [] e = absurd (documented.url_not_empty url e)
      go (b ∷ text) e = rw (e, decode_relay) (rw (← e) (rw (documented.url_again url) refl))

  relay_is_text : (relay : Option RelayUrl) → is_utf8 (relay_text crate relay) ≡ true
  unfolding is_utf8
  relay_is_text none = refl
  relay_is_text (some url) = documented.url_is_text url

  decode_metadata-again :
      (relay : Option RelayUrl) (petname : Option Bytes)
      → IsText (add_with_metadata relay petname)
      → length (relay_text crate relay) < 4294967296
      → petname_len petname < 4294967296
      → decode_metadata crate (
          to_be_bytes (length (relay_text crate relay))
          ++ (relay_text crate relay ++ petname_bytes petname (petname_len petname)))
        ≡ ok (add_with_metadata relay petname)
  unfolding decode_metadata
  decode_metadata-again relay petname text r p =
      rw
        (take_length_prefixed-again (relay_text crate relay)
          (petname_bytes petname (petname_len petname)) r)
        (rw (text_or-text _ (relay_text crate relay) (relay_is_text relay))
          (rw (decode_relay-again relay) (rw (decode_petname-again petname relay text p) refl)))

  u32_from-same : (n : ℕ) {m : ℕ} → u32_from n ≡ ok m → (m ≡ n) × (n < 4294967296)
  u32_from-same n h = ground arith

  abbrev metadata_bytes : PublicKey → Option RelayUrl → Option Bytes → Bytes
  metadata_bytes target relay petname =
      3 ∷ crate.as_bytes target
      ++ (to_be_bytes (length (relay_text crate relay))
          ++ (relay_text crate relay ++ petname_bytes petname (petname_len petname)))

  encode_metadata-bytes :
      (target : PublicKey) (relay : Option RelayUrl) (petname : Option Bytes) {bytes : Bytes}
      → encode_metadata crate target relay petname ≡ ok bytes
      → (metadata_bytes target relay petname ≡ bytes)
        × (length (relay_text crate relay) < 4294967296)
        × (petname_len petname < 4294967296)
        × (38 + length (relay_text crate relay) + petname_prefix petname + petname_len petname
            ≤ max_edit_bytes)
  unfolding encode_metadata
  encode_metadata-bytes target relay petname h =
      let (n, sized, h) = >>=-eq-ok (metadata_encoded_len (relay_text crate relay) petname) _ h in
      let (r, relay_len, h) = >>=-eq-ok (u32_from (length (relay_text crate relay))) _ h in
      let (p, name_len, h) = >>=-eq-ok (u32_from (petname_len petname)) _ h in
      let (r_same, r_small) = u32_from-same (length (relay_text crate relay)) relay_len in
      let (p_same, p_small) = u32_from-same (petname_len petname) name_len in
      (
        rw (← r_same, ← p_same) (ok_injective h),
        r_small,
        p_small,
        omega (arith, metadata_encoded_len-bounds (relay_text crate relay) petname sized),
      )

  key_or-key : (target : PublicKey) → key_or crate (crate.as_bytes target) ≡ ok target
  key_or-key target = rw (documented.key_again target, key_or) refl

  decode-behind_key :
      (code : ℕ) (target : PublicKey) (rest : Bytes) (operation : Operation)
      → decode_operation crate code rest ≡ ok operation
      → decode crate (code ∷ crate.as_bytes target ++ rest)
        ≡ ok (record { operation = operation; target = target })
  unfolding decode
  decode-behind_key code target rest operation h = rw long (
      rw
        (
          take-append 32 (crate.as_bytes target) rest (documented.key_length target),
          drop-append 32 (crate.as_bytes target) rest (documented.key_length target),
        )
        (rw (key_or-key target) (rw h refl)))
    where
      long : ltb (suc (length (crate.as_bytes target ++ rest))) 33 ≡ false
      long =
          ground (arith, length-append (crate.as_bytes target) rest, documented.key_length target)

  decode-bare :
      (code : ℕ) (target : PublicKey) (operation : Operation)
      → decode_operation crate code [] ≡ ok operation
      → decode crate (code ∷ crate.as_bytes target)
        ≡ ok (record { operation = operation; target = target })
  decode-bare code target operation h =
      subst
        (λ (key : Bytes).
          decode crate (code ∷ key) ≡ ok (record { operation = operation; target = target }))
        (append-nil (crate.as_bytes target)) (decode-behind_key code target [] operation h)

  encode_as-again :
      (operation : Operation) (target : PublicKey) {bytes : Bytes}
      → IsText operation
      → encode_as crate operation target ≡ ok bytes
      → decode crate bytes ≡ ok (record { operation = operation; target = target })
  unfolding encode_as decode_operation
  encode_as-again add target text h = rw (← ok_injective h) (decode-bare 1 target add refl)
  encode_as-again remove target text h = rw (← ok_injective h) (decode-bare 2 target remove refl)
  encode_as-again (add_with_metadata relay petname) target text h =
      let (e, r, p, _) = encode_metadata-bytes target relay petname h in
      rw (← e) (
        decode-behind_key 3 target _ (add_with_metadata relay petname)
          (decode_metadata-again relay petname text r p))

  -- Whatever `encode` writes of a change whose petname is text, `decode` reads back: the operation,
  -- the target, the relay and the petname.
  pub decode-encode :
      (change : Change) {bytes : Bytes}
      → IsText change.operation
      → encode crate change ≡ ok bytes
      → decode crate bytes ≡ ok change
  unfolding encode
  decode-encode change text h = encode_as-again change.operation change.target text h

  encode_as-bound :
      (operation : Operation) (target : PublicKey) {bytes : Bytes}
      → encode_as crate operation target ≡ ok bytes
      → length bytes ≤ max_edit_bytes
  unfolding encode_as
  encode_as-bound add target h = rw (← ok_injective h) (omega (arith, documented.key_length target))
  encode_as-bound remove target h =
      rw (← ok_injective h) (omega (arith, documented.key_length target))
  encode_as-bound (add_with_metadata relay petname) target h =
      let (e, r, p, sized) = encode_metadata-bytes target relay petname h in
      rw (← e) (
        omega (
          arith,
          documented.key_length target,
          sized,
          length-petname petname,
          length-append (crate.as_bytes target) (
              to_be_bytes (length (relay_text crate relay))
              ++ (relay_text crate relay ++ petname_bytes petname (petname_len petname))),
          length-append (relay_text crate relay) (petname_bytes petname (petname_len petname)),
        ))

  -- An edit is never longer than its bound.
  pub encode-bound :
      (change : Change) {bytes : Bytes}
      → encode crate change ≡ ok bytes
      → length bytes ≤ max_edit_bytes
  unfolding encode
  encode-bound change h = encode_as-bound change.operation change.target h
