-- ===== src/Pkcs12/Bag.antt =====
-- One bag of a PKCS#12 file: `parseSafeBag`, `parsePKCS12CertificateBag`, `parseFriendlyName` and
-- `decodePKCS12String` of internal/scanner/pkcs12.go.
use certfinder.Base.Text.{codes, bytes_eq}
use certfinder.Base.{
  ℕ, zero, suc, ◌+◌, not, Option, none, some, List, [], ◌∷◌, Bytes, length, if◌then◌else◌, errorf,
  wrap_err, num, text, Result, ok, err, ◌>>=◌,
}
use certfinder.Pkcs12.Asn1.{
  RawValue, Oid, Asn1, unmarshal_exact, is_set, is_explicit, raw_oid, raw_sequence_elements,
}
use certfinder.Pkcs12.Oids.{is_oid, oid_pkcs12_x509_certificate, oid_pkcs12_friendly_name}
use certfinder.Pkcs12.Strings.{decode_pkcs12_string}

-- What `parseSafeBag` returns; a nil pointer to the attributes is `none`.
pub record SafeBag : Type 0 where
  pub id : Oid
  pub value : RawValue
  pub attributes : Option RawValue

abbrev pub max_attributes : ℕ
max_attributes = 64

module _ (asn1 : Asn1) where
  abbrev pub bag_attributes : Oid → RawValue → Option RawValue → Result SafeBag
  bag_attributes id value none = ok (record { id = id; value = value; attributes = none })
  bag_attributes id value (some a) =
      if not (is_set a)
      then err (errorf "bag attributes are not a SET" [])
      else ok (record { id = id; value = value; attributes = some a })

  abbrev pub bag_value : RawValue → Option RawValue → Oid → Result SafeBag
  bag_value value attributes id =
      if not (is_explicit value)
      then err (errorf "bag value is not [0] EXPLICIT" [])
      else bag_attributes id value attributes

  -- Of two or three elements
  abbrev pub bag_of : RawValue → RawValue → Option RawValue → Result SafeBag
  unfolding raw_oid
  bag_of id value attributes =
      wrap_err "bag ID: %w" [] (raw_oid asn1 id) >>= bag_value value attributes

  abbrev pub safe_bag_elements : List RawValue → Result SafeBag
  unfolding raw_oid
  safe_bag_elements (id ∷ value ∷ []) = bag_of id value none
  safe_bag_elements (id ∷ value ∷ a ∷ []) = bag_of id value (some a)
  safe_bag_elements elements =
      err (errorf "has %d fields, want 2 or 3" (num (length elements) ∷ []))

  unfoldable pub parse_safe_bag : RawValue → Result SafeBag
  unfolding raw_sequence_elements raw_oid
  parse_safe_bag encoded =
      raw_sequence_elements asn1 encoded.full_bytes (codes "SafeBag") 3 >>= safe_bag_elements

  abbrev pub certificate_octets : RawValue → Oid → Result Bytes
  unfolding bytes_eq
  certificate_octets value kind =
      if not (is_oid kind oid_pkcs12_x509_certificate)
      then err (errorf "unsupported certificate type %s" (text (asn1.oid_text kind) ∷ []))
      else if not (is_explicit value)
      then err (errorf "certificate value is not [0] EXPLICIT" [])
      else wrap_err "certificate OCTET STRING: %w" []
          (unmarshal_exact (asn1.unmarshal_octets value.bytes))

  abbrev pub certificate_bag_elements : List RawValue → Result Bytes
  unfolding raw_oid bytes_eq
  certificate_bag_elements (kind ∷ value ∷ []) =
      wrap_err "certificate type: %w" [] (raw_oid asn1 kind) >>= certificate_octets value
  certificate_bag_elements elements =
      err (errorf "has %d fields, want 2" (num (length elements) ∷ []))

  unfoldable pub parse_pkcs12_certificate_bag : RawValue → Result Bytes
  unfolding raw_sequence_elements raw_oid bytes_eq
  parse_pkcs12_certificate_bag value =
      raw_sequence_elements asn1 value.bytes (codes "CertBag") 2 >>= certificate_bag_elements

  -- The value of a friendlyName attribute
  abbrev pub single_value : RawValue × Bytes → Result Bytes
  unfolding decode_pkcs12_string
  single_value (v, []) = decode_pkcs12_string v
  single_value (v, b ∷ rest) = err (errorf "friendlyName has multiple values" [])

  abbrev pub friendly_value : RawValue → Result Bytes
  unfolding decode_pkcs12_string
  friendly_value values =
      if not (is_set values)
      then err (errorf "friendlyName values are not a SET" [])
      else wrap_err "friendlyName value: %w" [] (asn1.unmarshal_raw values.bytes) >>= single_value

  -- An attribute's identifier and values
  abbrev pub attribute_fields : ℕ → List RawValue → Result (Oid × RawValue)
  unfolding raw_oid
  attribute_fields i (id ∷ values ∷ []) =
      wrap_err "attribute %d ID: %w" (num i ∷ []) (raw_oid asn1 id) >>= λ oid. ok (oid, values)
  attribute_fields i elements =
      err (errorf "attribute %d has %d fields, want 2" (num i ∷ num (length elements) ∷ []))

  unfoldable pub read_attribute : ℕ → Bytes → Result ((Oid × RawValue) × Bytes)
  unfolding raw_sequence_elements raw_oid
  read_attribute i rest =
      wrap_err "attribute %d: %w" (num i ∷ []) (asn1.unmarshal_raw rest) >>= λ p.
      wrap_err "attribute %d: %w" (num i ∷ [])
        (raw_sequence_elements asn1 p.0.full_bytes (codes "attribute") 2)
      >>= λ elements. attribute_fields i elements >>= λ a. ok (a, p.1)

  abbrev pub attribute_or : (Oid × RawValue) × Bytes → (Bytes → Result Bytes) → Result Bytes
  unfolding bytes_eq decode_pkcs12_string
  attribute_or ((id, values), remaining) go =
      let rest = go remaining in
      if is_oid id oid_pkcs12_friendly_name then friendly_value values else rest

  -- The loop over the attributes: number `i`, with `left` more allowed.
  unfoldable pub friendly_name_from : ℕ → ℕ → Bytes → Result Bytes
  unfolding read_attribute bytes_eq decode_pkcs12_string
  friendly_name_from left i [] = ok []
  friendly_name_from zero i (b ∷ rest) =
      err (errorf "attribute count exceeds %d" (num max_attributes ∷ []))
  friendly_name_from (suc left) i (b ∷ rest) = read_attribute i (b ∷ rest) >>= λ p.
      attribute_or p (λ remaining. friendly_name_from left (i + 1) remaining)

  unfoldable pub parse_friendly_name : Option RawValue → Result Bytes
  unfolding friendly_name_from
  parse_friendly_name none = ok []
  parse_friendly_name (some a) = friendly_name_from max_attributes 0 a.bytes
