-- ===== src/Pkcs12/BigEndian.antt =====
-- Text in UTF-16 with the high byte of each unit first, and `decodeUTF16BE` of
-- internal/scanner/pkcs12.go after it.
use certfinder.Base.{
  ℕ, ◌/◌, ◌%◌, ◌≡◌, ◌∙◌, refl, List, [], ◌∷◌, ◌++◌, All, Bytes, Result, length, arith,
}
use certfinder.Base.Bits.{bit_or-eq-add}
use certfinder.Pkcs12.{units_of, decode_utf16_be}
use certfinder.Utf16.Spell.{IsCharacter, IsEnding, utf16, units_to_string-utf16}
use certfinder.Utf16.{units_to_string}

abbrev pub encode_be : List ℕ → Bytes
encode_be [] = []
encode_be (u ∷ us) = u / 256 ∷ u % 256 ∷ encode_be us

units_of-encode_be : (us : List ℕ) → units_of (encode_be us) ≡ us
unfolding units_of
units_of-encode_be [] = refl
units_of-encode_be (u ∷ us) =
    ground (arith, bit_or-eq-add 8 (u / 256) (u % 256) (omega arith), units_of-encode_be us)

even : (us : List ℕ) → length (encode_be us) % 2 ≡ 0
even [] = refl
even (u ∷ us) = omega (arith, even us)

decode_utf16_be-units : (us : List ℕ) → decode_utf16_be (encode_be us) ≡ units_to_string us
unfolding decode_utf16_be
decode_utf16_be-units us = rw (even us, units_of-encode_be us) refl

-- `decodeUTF16BE` of the UTF-16 code units of any characters, with the high byte of each first, is the
-- UTF-8 of these characters. Where a surrogate without its partner follows them, with any units after
-- it, the result is the error that names the surrogate's kind and its place among the units.
pub decode_utf16_be-encode_be :
    (rs tail : List ℕ) (r : Result Bytes)
    → All IsCharacter rs
    → IsEnding rs tail r
    → decode_utf16_be (encode_be (utf16 rs ++ tail)) ≡ r
decode_utf16_be-encode_be rs tail r h e =
    decode_utf16_be-units (utf16 rs ++ tail) ∙ units_to_string-utf16 rs tail r h e
