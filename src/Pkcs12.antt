-- ===== src/Pkcs12.antt =====
-- Names in PKCS#12 files: `decodeUTF16BE` of internal/scanner/pkcs12.go.
pub mod Asn1
pub mod Oids
pub mod Strings
pub mod Bag
pub mod Encrypted
pub mod Contents
pub mod Detect
pub mod BigEndian
mod Tests
use certfinder.Base.{
  ℕ, ◌*◌, ◌^◌, ◌%◌, bit_or, Bool, not, List, [], ◌∷◌, Bytes, length, ◌==◌, if◌then◌else◌, errorf,
  Result, ok, err,
}
use certfinder.Utf16.{units_to_string}

-- The code units of the byte pairs; a last odd byte is not read.
unfoldable pub units_of : Bytes → List ℕ
units_of [] = []
units_of (a ∷ []) = []
units_of (a ∷ b ∷ s) = bit_or (a * 2 ^ 8) b ∷ units_of s

unfoldable pub decode_utf16_be : Bytes → Result Bytes
unfolding units_of units_to_string
decode_utf16_be encoded =
    if not (length encoded % 2 == 0)
    then err (errorf "odd-length BMPString" [])
    else units_to_string (units_of encoded)
