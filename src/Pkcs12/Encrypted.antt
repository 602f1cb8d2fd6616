-- ===== src/Pkcs12/Encrypted.antt =====
-- `parseContentInfo` and `parseEncryptedContent` of internal/scanner/pkcs12.go.
pub mod Index
use certfinder.Base.Text.{codes, bytes_eq}
use certfinder.Base.{
  ℕ, Bool, true, false, ◌&&◌, not, Option, none, some, List, [], ◌∷◌, Bytes, length, ◌==◌,
  if◌then◌else◌, errorf, wrap_err, num, text, Result, ok, err, ◌>>=◌,
}
use certfinder.Model.{Pkcs12EncryptedContent}
use certfinder.Pkcs12.Asn1.{
  RawValue, Oid, Integer, from, below, Asn1, is_explicit, raw_oid, raw_integer,
  raw_sequence_elements,
}
use certfinder.Pkcs12.Oids.{is_oid, oid_pkcs7_data, pkcs12_algorithm_name}

abbrev pub is_integer : Integer → ℕ → Bool
is_integer (from n) k = n == k
is_integer (below n) k = false

module _ (asn1 : Asn1) where
  abbrev pub content_info_elements : List RawValue → Result (Oid × RawValue)
  unfolding raw_oid
  content_info_elements (kind ∷ content ∷ []) =
      wrap_err "content type: %w" [] (raw_oid asn1 kind) >>= λ oid.
      if not (is_explicit content)
      then err (errorf "content is not [0] EXPLICIT" [])
      else ok (oid, content)
  content_info_elements elements = err (errorf "has %d fields, want 2" (num (length elements) ∷ []))

  unfoldable pub parse_content_info : RawValue → Result (Oid × RawValue)
  unfolding raw_sequence_elements raw_oid
  parse_content_info encoded =
      raw_sequence_elements asn1 encoded.full_bytes (codes "ContentInfo") 2
      >>= content_info_elements

  abbrev pub finding_of : ℕ → Oid → Result Pkcs12EncryptedContent
  unfolding pkcs12_algorithm_name
  finding_of content_index oid = ok (record {
    path = [];
    archive_entries = [];
    content_index = content_index;
    algorithm = pkcs12_algorithm_name oid;
    algorithm_oid = asn1.oid_text oid;
    bag_count = none;
  })

  abbrev pub algorithm_finding : ℕ → RawValue → Result Pkcs12EncryptedContent
  unfolding raw_oid pkcs12_algorithm_name
  algorithm_finding i a = wrap_err "algorithm OID: %w" [] (raw_oid asn1 a) >>= finding_of i

  abbrev pub algorithm_elements : ℕ → List RawValue → Result Pkcs12EncryptedContent
  unfolding raw_oid pkcs12_algorithm_name
  algorithm_elements i (a ∷ []) = algorithm_finding i a
  algorithm_elements i (a ∷ parameters ∷ []) = algorithm_finding i a
  algorithm_elements i elements =
      err (errorf "algorithm identifier has %d fields" (num (length elements) ∷ []))

  -- The content, if it is there, is `[0] IMPLICIT`.
  abbrev pub is_implicit : Option RawValue → Bool
  is_implicit none = true
  is_implicit (some v) = v.class == 2 && v.tag == 0

  abbrev pub encrypted_content :
      ℕ → RawValue → RawValue → Option RawValue → Result Pkcs12EncryptedContent
  unfolding raw_oid raw_sequence_elements pkcs12_algorithm_name bytes_eq
  encrypted_content i kind algorithm content =
      wrap_err "encrypted content type: %w" [] (raw_oid asn1 kind) >>= λ oid.
      if not (is_oid oid oid_pkcs7_data)
      then err (errorf "unsupported encrypted content type %s" (text (asn1.oid_text oid) ∷ []))
      else if not (is_implicit content)
      then err (errorf "encrypted content is not [0] IMPLICIT" [])
      else raw_sequence_elements asn1 algorithm.full_bytes (codes "content encryption algorithm") 2
        >>= algorithm_elements i

  abbrev pub content_elements : ℕ → List RawValue → Result Pkcs12EncryptedContent
  unfolding raw_oid raw_sequence_elements pkcs12_algorithm_name bytes_eq
  content_elements i (kind ∷ algorithm ∷ []) = encrypted_content i kind algorithm none
  content_elements i (kind ∷ algorithm ∷ content ∷ []) =
      encrypted_content i kind algorithm (some content)
  content_elements i elements =
      err (errorf "EncryptedContentInfo has %d fields, want 2 or 3" (num (length elements) ∷ []))

  abbrev pub encrypted_version : ℕ → RawValue → Integer → Result Pkcs12EncryptedContent
  unfolding raw_oid raw_sequence_elements pkcs12_algorithm_name bytes_eq
  encrypted_version i info version =
      if not (is_integer version 0)
      then err (errorf "unsupported version %d" (text (asn1.integer_text version) ∷ []))
      else raw_sequence_elements asn1 info.full_bytes (codes "EncryptedContentInfo") 3
        >>= content_elements i

  abbrev pub encrypted_fields : ℕ → RawValue → RawValue → Result Pkcs12EncryptedContent
  unfolding raw_integer raw_oid raw_sequence_elements pkcs12_algorithm_name bytes_eq
  encrypted_fields i version info =
      wrap_err "version: %w" [] (raw_integer asn1 version) >>= encrypted_version i info

  abbrev pub encrypted_elements : ℕ → List RawValue → Result Pkcs12EncryptedContent
  unfolding raw_integer raw_oid raw_sequence_elements pkcs12_algorithm_name bytes_eq
  encrypted_elements i (version ∷ info ∷ []) = encrypted_fields i version info
  encrypted_elements i (version ∷ info ∷ attributes ∷ []) = encrypted_fields i version info
  encrypted_elements i elements =
      err (errorf "has %d fields, want 2 or 3" (num (length elements) ∷ []))

  unfoldable pub parse_encrypted_content : RawValue → ℕ → Result Pkcs12EncryptedContent
  unfolding raw_integer raw_oid raw_sequence_elements pkcs12_algorithm_name bytes_eq
  parse_encrypted_content value content_index =
      raw_sequence_elements asn1 value.bytes (codes "EncryptedData") 3
      >>= encrypted_elements content_index
