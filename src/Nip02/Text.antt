-- ===== src/Nip02/Text.antt =====
-- Texts of Rust: bytes that are well-formed UTF-8.
use fava.Base.{
  ℕ, zero, suc, Bool, true, false, ◌&&◌, Option, none, some, List, [], ◌∷◌, leb, ltb, ◌==◌,
  if◌then◌else◌,
}

abbrev pub Bytes : Type 0
Bytes = List ℕ

-- What a first byte asks of the bytes behind it: how many follow, and the range of the next.
abbrev pub lead : ℕ → Option (ℕ × ℕ × ℕ)
lead b =
    if ltb b 0x80
    then some (0, 0x80, 0xBF)
    else if ltb b 0xC2
    then none
    else if ltb b 0xE0
    then some (1, 0x80, 0xBF)
    else if b == 0xE0
    then some (2, 0xA0, 0xBF)
    else if b == 0xED
    then some (2, 0x80, 0x9F)
    else if ltb b 0xF0
    then some (2, 0x80, 0xBF)
    else if b == 0xF0
    then some (3, 0x90, 0xBF)
    else if ltb b 0xF4
    then some (3, 0x80, 0xBF)
    else if b == 0xF4
    then some (3, 0x80, 0x8F)
    else none

unfoldable pub utf8_rest : ℕ → ℕ → ℕ → Bytes → Bool
utf8_rest zero lo hi [] = true
utf8_rest (suc n) lo hi [] = false
utf8_rest zero lo hi (b ∷ bytes) = elim (lead b) [
  | none ↦ false
  | some (n, lo', hi') ↦ utf8_rest n lo' hi' bytes
]
utf8_rest (suc n) lo hi (b ∷ bytes) = leb lo b && leb b hi && utf8_rest n 0x80 0xBF bytes

unfoldable pub is_utf8 : Bytes → Bool
unfolding utf8_rest
is_utf8 bytes = utf8_rest 0 0x80 0xBF bytes

-- `str::from_utf8`.
abbrev pub from_utf8 : Bytes → Option Bytes
from_utf8 bytes = if is_utf8 bytes then some bytes else none

unfoldable pub text_beq : Bytes → Bytes → Bool
text_beq [] [] = true
text_beq (a ∷ s) (b ∷ t) = a == b && text_beq s t
text_beq _ _ = false
