-- ===== src/Pkcs12/Encrypted/Index.antt =====
-- The content index of a finding of `parseEncryptedContent` of internal/scanner/pkcs12.go.
use certfinder.Base.{
  ℕ, ◌≡◌, refl, Option, none, some, List, [], ◌∷◌, Post, Post-after, Post-if, wrap_err, not,
}
use certfinder.Base.Text.{codes}
use certfinder.Model.{Pkcs12EncryptedContent}
use certfinder.Pkcs12.Asn1.{RawValue, Integer, Asn1, raw_oid, raw_integer, raw_sequence_elements}
use certfinder.Pkcs12.Encrypted.{
  is_integer, algorithm_finding, algorithm_elements, is_implicit, encrypted_content,
  content_elements, encrypted_version, encrypted_fields, encrypted_elements,
  parse_encrypted_content,
}
use certfinder.Pkcs12.Oids.{is_oid, oid_pkcs7_data}

module _ (asn1 : Asn1) (i : ℕ) where
  abbrev pub At : Pkcs12EncryptedContent → Type 0
  At f = f.content_index ≡ i

  algorithm_finding-At : (a : RawValue) → Post At (algorithm_finding asn1 i a)
  unfolding algorithm_finding
  algorithm_finding-At a =
      Post-after At (wrap_err "algorithm OID: %w" [] (raw_oid asn1 a)) _ (λ oid. refl)

  algorithm_elements-At : (es : List RawValue) → Post At (algorithm_elements asn1 i es)
  unfolding algorithm_elements
  algorithm_elements-At [] = tt
  algorithm_elements-At (a ∷ []) = algorithm_finding-At a
  algorithm_elements-At (a ∷ b ∷ []) = algorithm_finding-At a
  algorithm_elements-At (a ∷ b ∷ c ∷ es) = tt

  encrypted_content-At :
      (kind algorithm : RawValue) (content : Option RawValue)
      → Post At (encrypted_content asn1 i kind algorithm content)
  unfolding encrypted_content
  encrypted_content-At kind algorithm content =
      Post-after At (wrap_err "encrypted content type: %w" [] (raw_oid asn1 kind)) _ (λ oid.
        Post-if At (not (is_oid oid oid_pkcs7_data)) _ _ tt (
          Post-if At (not (is_implicit asn1 content)) _ _ tt (
            Post-after At
              (raw_sequence_elements asn1 algorithm.full_bytes
                (codes "content encryption algorithm") 2)
              _ algorithm_elements-At)))

  content_elements-At : (es : List RawValue) → Post At (content_elements asn1 i es)
  unfolding content_elements
  content_elements-At [] = tt
  content_elements-At (a ∷ []) = tt
  content_elements-At (a ∷ b ∷ []) = encrypted_content-At a b none
  content_elements-At (a ∷ b ∷ c ∷ []) = encrypted_content-At a b (some c)
  content_elements-At (a ∷ b ∷ c ∷ d ∷ es) = tt

  encrypted_version-At : (info : RawValue) (v : Integer) → Post At (encrypted_version asn1 i info v)
  unfolding encrypted_version
  encrypted_version-At info v = Post-if At (not (is_integer v 0)) _ _ tt (
      Post-after At (raw_sequence_elements asn1 info.full_bytes (codes "EncryptedContentInfo") 3) _
        content_elements-At)

  encrypted_fields-At : (version info : RawValue) → Post At (encrypted_fields asn1 i version info)
  unfolding encrypted_fields
  encrypted_fields-At version info =
      Post-after At (wrap_err "version: %w" [] (raw_integer asn1 version)) _
        (encrypted_version-At info)

  encrypted_elements-At : (es : List RawValue) → Post At (encrypted_elements asn1 i es)
  unfolding encrypted_elements
  encrypted_elements-At [] = tt
  encrypted_elements-At (a ∷ []) = tt
  encrypted_elements-At (a ∷ b ∷ []) = encrypted_fields-At a b
  encrypted_elements-At (a ∷ b ∷ c ∷ []) = encrypted_fields-At a b
  encrypted_elements-At (a ∷ b ∷ c ∷ d ∷ es) = tt

  -- A finding stands for the content that it was read from.
  pub parse_encrypted_content-index :
      (value : RawValue) → Post At (parse_encrypted_content asn1 value i)
  unfolding parse_encrypted_content
  parse_encrypted_content-index value =
      Post-after At (raw_sequence_elements asn1 value.bytes (codes "EncryptedData") 3) _
        encrypted_elements-At
