-- ===== src/Pkcs12/Strings.antt =====
-- `decodePKCS12String` of internal/scanner/pkcs12.go.
use certfinder.Base.Utf8.{valid_utf8}
use certfinder.Base.{◌||◌, not, [], ◌∷◌, Bytes, ◌==◌, if◌then◌else◌, errorf, num, Result, ok, err}
use certfinder.Pkcs12.Asn1.{RawValue}
use certfinder.Pkcs12.{decode_utf16_be}

unfoldable pub decode_pkcs12_string : RawValue → Result Bytes
unfolding decode_utf16_be valid_utf8
decode_pkcs12_string v =
    if not (v.class == 0)
    then err (errorf "string uses a non-universal ASN.1 class" [])
    else if v.tag == 12
    then (if not (valid_utf8 v.bytes) then err (errorf "invalid UTF-8 string" []) else ok v.bytes)
    else if v.tag == 19 || v.tag == 22
    then ok v.bytes
    else if v.tag == 30
    then decode_utf16_be v.bytes
    else err (errorf "unsupported ASN.1 string tag %d" (num v.tag ∷ []))
