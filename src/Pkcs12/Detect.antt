-- ===== src/Pkcs12/Detect.antt =====
-- `detectPKCS12` of internal/scanner/pkcs12.go, which looks at the first headers only.
use certfinder.Base.{
  ◌-◌, Bool, false, ◌&&◌, ◌||◌, Option, none, some, Bytes, length, take, drop, get_or, leb, ◌==◌,
  Result, ok, err,
}
use certfinder.Base.Text.{bytes_eq}
use certfinder.Der.{DerElementHeader, read_der_element_header, max_int}
use certfinder.Pkcs12.Asn1.{Oid, Asn1, unmarshal_exact}
use certfinder.Pkcs12.Oids.{is_oid, oid_pkcs7_data, oid_pkcs7_signed_data}

abbrev pub on_header : Option DerElementHeader → (DerElementHeader → Bool) → Bool
on_header none f = false
on_header (some h) f = f h

abbrev pub on_oid : Result Oid → (Oid → Bool) → Bool
on_oid (err e) f = false
on_oid (ok oid) f = f oid

abbrev pub is_pkcs7 : Oid → Bool
unfolding bytes_eq
is_pkcs7 oid = is_oid oid oid_pkcs7_data || is_oid oid oid_pkcs7_signed_data

module _ (asn1 : Asn1) (bytes : Bytes) where
  abbrev pub is_version : DerElementHeader → Bool
  is_version v =
      v.tag == 0x02
      && leb v.end (length bytes)
      && v.end - v.content_offset == 1
      && get_or bytes v.content_offset 0 == 3

  -- `data[authSafe.contentOffset:contentType.end]`
  abbrev pub content_oid : DerElementHeader → DerElementHeader → Result Oid
  content_oid safe kind =
      unmarshal_exact (
        asn1.unmarshal_oid (take (kind.end - safe.content_offset) (drop safe.content_offset bytes)))

  abbrev pub is_content : DerElementHeader → Bool
  is_content content = content.tag == 0xa0

  abbrev pub is_content_type : DerElementHeader → DerElementHeader → Bool
  unfolding read_der_element_header bytes_eq
  is_content_type safe kind =
      kind.tag == 0x06
      && leb kind.end (length bytes)
      && on_oid (content_oid safe kind) is_pkcs7
      && on_header (read_der_element_header bytes kind.end safe.end) is_content

  abbrev pub is_auth_safe : DerElementHeader → Bool
  unfolding read_der_element_header bytes_eq
  is_auth_safe safe =
      safe.tag == 0x30
      && on_header (read_der_element_header bytes safe.content_offset safe.end)
          (is_content_type safe)

  abbrev pub is_pfx : DerElementHeader → Bool
  unfolding read_der_element_header bytes_eq
  is_pfx outer =
      outer.tag == 0x30
      && on_header (read_der_element_header bytes outer.content_offset outer.end) (λ version.
        is_version version
        && on_header (read_der_element_header bytes version.end outer.end) is_auth_safe)

  unfoldable pub detect_pkcs12 : Bool
  unfolding read_der_element_header bytes_eq
  detect_pkcs12 = on_header (read_der_element_header bytes 0 max_int) is_pfx
