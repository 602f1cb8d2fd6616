-- ===== src/Pkcs12/Contents.antt =====
-- The bags of a PKCS#12 file and the file: `parseSafeContents` and `parsePKCS12` of
-- internal/scanner/pkcs12.go. The parser is a record that each step returns anew, together with the
-- errors that `parseSafeContents` collects.
pub mod Bounds
pub mod Report
mod Tests
use certfinder.Base.Text.{codes, bytes_eq}
use certfinder.Base.{
  ℕ, zero, suc, ◌+◌, Bool, true, false, ◌&&◌, ◌||◌, not, Option, none, some, List, [], ◌∷◌, ◌++◌,
  map, Bytes, length, ltb, ◌==◌, if◌then◌else◌, GoError, errorf, wrap, wrap_err, num, text, Result,
  ok, err, ◌>>=◌, join_errors, join_two,
}
use certfinder.Model.{KeystoreInfo, Pkcs12EncryptedContent}
use certfinder.Pkcs12.Asn1.{
  RawValue, Oid, Integer, Asn1, explicit_octets, raw_integer, raw_sequence_elements,
}
use certfinder.Pkcs12.Bag.{
  SafeBag, parse_safe_bag, parse_pkcs12_certificate_bag, parse_friendly_name,
}
use certfinder.Pkcs12.Encrypted.{is_integer, parse_content_info, parse_encrypted_content}
use certfinder.Pkcs12.Oids.{
  is_oid, oid_pkcs7_data, oid_pkcs7_encrypted_data, oid_pkcs12_key_bag, oid_pkcs12_shrouded_key_bag,
  oid_pkcs12_cert_bag, oid_pkcs12_secret_bag, oid_pkcs12_safe_contents_bag,
}

pub record Pkcs12Certificate (X : Type 0) : Type 0 where
  pub certificate : X
  pub keystore : KeystoreInfo

pub record Pkcs12Parser (X : Type 0) : Type 0 where
  pub certificates : List (Pkcs12Certificate X)
  pub encrypted : List Pkcs12EncryptedContent
  pub errors : List GoError
  pub bag_count : ℕ
  pub key_bag_count : ℕ

abbrev pub max_bags : ℕ
max_bags = 10000

abbrev pub max_depth : ℕ
max_depth = 16

-- The parser with `*chainIndex`
abbrev pub Walk : Type 0 → Type 0
Walk X = Pkcs12Parser X × ℕ

abbrev pub kind_of_bag : Oid → Bool × Bool × Bool
unfolding bytes_eq
kind_of_bag id = (
  is_oid id oid_pkcs12_key_bag
      || is_oid id oid_pkcs12_shrouded_key_bag
      || is_oid id oid_pkcs12_secret_bag,
  is_oid id oid_pkcs12_cert_bag,
  is_oid id oid_pkcs12_safe_contents_bag,
)

abbrev pub with_error : {A : Type 0} → List GoError × A → Option GoError → List GoError × A
with_error (es, s) none = (es, s)
with_error (es, s) (some e) = (es ++ e ∷ [], s)

abbrev pub error_of : {A : Type 0} → Result A → Option GoError
error_of (ok a) = none
error_of (err e) = some e

abbrev pub value_or : {A : Type 0} → A → Result A → A
value_or d (ok a) = a
value_or d (err e) = d

abbrev pub is_nil : {A : Type 0} → List A → Bool
is_nil [] = true
is_nil (x ∷ xs) = false

module _ {X : Type 0} (asn1 : Asn1) (parse_certificate : Bytes → Result X) where
  abbrev pub keystore_at : Bytes → ℕ → KeystoreInfo
  keystore_at friendly_name position = record {
    format = codes "PKCS#12";
    alias = [];
    friendly_name = friendly_name;
    entry_type = codes "certBag";
    chain_index = position;
    truststore = false;
  }

  abbrev pub add_certificate : Bytes → ℕ → X → Walk X → Walk X
  add_certificate name position x (p, c) = (
    record p {
      certificates =
          p.certificates ++ record { certificate = x; keystore = keystore_at name position } ∷ [];
    },
    c,
  )

  -- The DER of a certificate bag, parsed; the result carries the error's place.
  abbrev pub certificate_in : ℕ → RawValue → Result X
  certificate_in i value =
      wrap_err "bag %d certBag: %w" (num i ∷ []) (parse_pkcs12_certificate_bag asn1 value)
      >>= λ der. wrap_err "bag %d X.509 DER: %w" (num i ∷ []) (parse_certificate der)

  abbrev pub keep_certificate : Bytes → ℕ → List GoError × Walk X → Result X → List GoError × Walk X
  keep_certificate name position (es, s) (ok x) = (es, add_certificate name position x s)
  keep_certificate name position (es, s) (err e) = (es ++ e ∷ [], s)

  -- A certificate bag takes a chain index, also where it is refused.
  unfoldable pub certificate_bag : ℕ → SafeBag → List GoError × Walk X → List GoError × Walk X
  unfolding parse_pkcs12_certificate_bag parse_friendly_name
  certificate_bag i bag (es, (p, position)) =
      let name =
        wrap_err "bag %d friendlyName: %w" (num i ∷ []) (parse_friendly_name asn1 bag.attributes) in
      keep_certificate (value_or [] name) position
        (with_error (es, (p, position + 1)) (error_of name)) (certificate_in i bag.value)

  abbrev pub after_nested : ℕ → List GoError → Option GoError × Walk X → List GoError × Walk X
  after_nested i es (none, s) = (es, s)
  after_nested i es (some e, s) =
      (es ++ wrap "bag %d nested SafeContents: %w" (num i ∷ []) e ∷ [], s)

  abbrev pub key_bag : List GoError × Walk X → List GoError × Walk X
  key_bag (es, (p, c)) = (es, (record p { key_bag_count = p.key_bag_count + 1 }, c))

  -- The `switch` on the identifier of a bag. `nested` is `parseSafeContents` one level deeper.
  unfoldable pub dispatch :
      (Bytes → Walk X → Option GoError × Walk X)
      → ℕ
      → SafeBag
      → List GoError × Walk X
      → List GoError × Walk X
  unfolding certificate_bag bytes_eq
  dispatch nested i bag s =
      let (is_key, is_certificate, is_contents) = kind_of_bag bag.id in
      if is_key
      then key_bag s
      else if is_certificate
      then certificate_bag i bag s
      else if is_contents
      then after_nested i s.0 (nested bag.value.bytes s.1)
      else s

  abbrev pub read_bag :
      (Bytes → Walk X → Option GoError × Walk X)
      → ℕ
      → Result SafeBag
      → List GoError × Walk X
      → List GoError × Walk X
  read_bag nested i (ok bag) s = dispatch nested i bag s
  read_bag nested i (err e) (es, s) = (es ++ wrap "bag %d: %w" (num i ∷ []) e ∷ [], s)

  abbrev pub counted : Walk X → Walk X
  counted (p, c) = (record p { bag_count = p.bag_count + 1 }, c)

  -- The loop over the bags, from number `i`
  unfoldable pub read_bags :
      (Bytes → Walk X → Option GoError × Walk X)
      → ℕ
      → List RawValue
      → List GoError × Walk X
      → Option GoError × Walk X
  unfolding dispatch parse_safe_bag join_errors
  read_bags nested i [] (es, s) = (join_errors es, s)
  read_bags nested i (b ∷ bags) (es, s) =
      let s' = counted s in
      let rest =
        read_bags nested (i + 1) bags (read_bag nested i (parse_safe_bag asn1 b) (es, s')) in
      if ltb max_bags s'.0.bag_count
      then (
        join_two (join_errors es) (some (errorf "bag count exceeds %d" (num max_bags ∷ []))),
        s',
      )
      else rest

  abbrev pub bags_of :
      (Bytes → Walk X → Option GoError × Walk X)
      → Result (List RawValue)
      → Walk X
      → Option GoError × Walk X
  bags_of nested (err e) s = (some e, s)
  bags_of nested (ok bags) s = read_bags nested 0 bags ([], s)

  -- `levels` are the nesting levels that are left, `maxPKCS12SafeContentsDepth + 1 - depth`.
  unfoldable pub parse_safe_contents : ℕ → Bytes → Walk X → Option GoError × Walk X
  unfolding read_bags raw_sequence_elements
  parse_safe_contents zero encoded s =
      (some (errorf "nesting depth exceeds %d" (num max_depth ∷ [])), s)
  parse_safe_contents (suc levels) encoded s =
      bags_of (λ bytes t. parse_safe_contents levels bytes t)
        (raw_sequence_elements asn1 encoded (codes "SafeContents") (max_bags + 1)) s

  abbrev pub add_errors : Pkcs12Parser X → Option GoError → Pkcs12Parser X
  add_errors p none = p
  add_errors p (some e) = record p { errors = p.errors ++ e ∷ [] }

  abbrev pub wrapped : ℕ → Option GoError → Option GoError
  wrapped i none = none
  wrapped i (some e) = some (wrap "content %d SafeContents: %w" (num i ∷ []) e)

  -- A content of type data, with its octets
  abbrev pub read_data : ℕ → Pkcs12Parser X → Result Bytes → Pkcs12Parser X
  unfolding parse_safe_contents
  read_data i p (err e) = add_errors p (some e)
  read_data i p (ok octets) =
      let r = parse_safe_contents (max_depth + 1) octets (p, 0) in add_errors r.1.0 (wrapped i r.0)

  abbrev pub add_finding : Pkcs12Parser X → Result Pkcs12EncryptedContent → Pkcs12Parser X
  add_finding p (err e) = add_errors p (some e)
  add_finding p (ok finding) = record p { encrypted = p.encrypted ++ finding ∷ [] }

  abbrev pub unsupported : ℕ → Oid → GoError
  unsupported i kind =
      errorf "content %d has unsupported content type %s" (num i ∷ text (asn1.oid_text kind) ∷ [])

  -- One turn of the loop of `parsePKCS12`
  unfoldable pub read_content : ℕ → Result (Oid × RawValue) → Pkcs12Parser X → Pkcs12Parser X
  unfolding parse_safe_contents parse_encrypted_content explicit_octets bytes_eq
  read_content i (err e) p = add_errors p (some (wrap "content %d: %w" (num i ∷ []) e))
  read_content i (ok (kind, value)) p =
      if is_oid kind oid_pkcs7_data
      then read_data i p (wrap_err "content %d data: %w" (num i ∷ []) (explicit_octets asn1 value))
      else if is_oid kind oid_pkcs7_encrypted_data
      then add_finding p (
          wrap_err "content %d encryptedData: %w" (num i ∷ [])
            (parse_encrypted_content asn1 value i))
      else add_errors p (some (unsupported i kind))

  unfoldable pub read_contents : ℕ → List RawValue → Pkcs12Parser X → Pkcs12Parser X
  unfolding read_content parse_content_info
  read_contents i [] p = p
  read_contents i (v ∷ vs) p =
      read_contents (i + 1) vs (read_content i (parse_content_info asn1 v) p)

  abbrev pub new_parser : Pkcs12Parser X
  new_parser = record {
    certificates = [];
    encrypted = [];
    errors = [];
    bag_count = 0;
    key_bag_count = 0;
  }

  abbrev pub is_truststore : Pkcs12Parser X → Bool
  is_truststore p = not (is_nil p.certificates) && p.key_bag_count == 0 && is_nil p.encrypted

  abbrev pub mark_truststore : Bool → Pkcs12Certificate X → Pkcs12Certificate X
  mark_truststore t c = record c { keystore = record c.keystore { truststore = t } }

  abbrev pub Parsed : Type 0
  Parsed = List (Pkcs12Certificate X) × List Pkcs12EncryptedContent × Option GoError

  unfoldable pub finish : Pkcs12Parser X → Parsed
  unfolding join_errors
  finish p =
      (map (mark_truststore (is_truststore p)) p.certificates, p.encrypted, join_errors p.errors)

  -- The header of the PFX, down to the list of contents
  abbrev pub safe_contents : Oid × RawValue → Result (List RawValue)
  unfolding explicit_octets raw_sequence_elements bytes_eq
  safe_contents (kind, value) =
      if not (is_oid kind oid_pkcs7_data)
      then err (errorf "unsupported PFX authSafe content type %s" (text (asn1.oid_text kind) ∷ []))
      else wrap_err "PFX authSafe data: %w" [] (explicit_octets asn1 value) >>= λ octets.
          raw_sequence_elements asn1 octets (codes "AuthenticatedSafe") 256

  abbrev pub authenticated_safe : RawValue → Integer → Result (List RawValue)
  unfolding parse_content_info explicit_octets raw_sequence_elements bytes_eq
  authenticated_safe safe version =
      if not (is_integer version 3)
      then err (errorf "unsupported PFX version %d" (text (asn1.integer_text version) ∷ []))
      else wrap_err "PFX authSafe: %w" [] (parse_content_info asn1 safe) >>= safe_contents

  abbrev pub pfx_fields : RawValue → RawValue → Result (List RawValue)
  unfolding raw_integer parse_content_info explicit_octets raw_sequence_elements bytes_eq
  pfx_fields version safe =
      wrap_err "PFX version: %w" [] (raw_integer asn1 version) >>= authenticated_safe safe

  abbrev pub pfx_elements : List RawValue → Result (List RawValue)
  unfolding raw_integer parse_content_info explicit_octets raw_sequence_elements bytes_eq
  pfx_elements (version ∷ safe ∷ []) = pfx_fields version safe
  pfx_elements (version ∷ safe ∷ mac ∷ []) = pfx_fields version safe
  pfx_elements elements = err (errorf "PFX has %d fields, want 2 or 3" (num (length elements) ∷ []))

  abbrev pub parsed_or : Result (List RawValue) → Parsed
  unfolding read_contents finish
  parsed_or (err e) = ([], [], some e)
  parsed_or (ok infos) = finish (read_contents 0 infos new_parser)

  unfoldable pub parse_pkcs12 : Bytes → Parsed
  unfolding raw_integer parse_content_info explicit_octets raw_sequence_elements bytes_eq
      read_contents finish
  parse_pkcs12 bytes = parsed_or (raw_sequence_elements asn1 bytes (codes "PFX") 3 >>= pfx_elements)
