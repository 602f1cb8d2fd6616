-- ===== src/Jks/Parse.antt =====
-- `parseJavaKeystore` of internal/scanner/jks.go and its method `certificate`. The errors that the
-- source joins are kept in a list, in the order in which `errors.Join` prints them.
mod Steps
pub mod Slices
use Prim.Native.String.{String}
use certfinder.Base.Text.{codes, bytes_eq, to_lower}
use certfinder.Base.Utf8.{to_valid_utf8}
use certfinder.Base.{
  ℕ, zero, suc, ◌+◌, ◌-◌, Bool, false, not, ◌&&◌, Option, none, some, List, [], ◌∷◌, ◌++◌, map,
  Bytes, length, take, ltb, ◌==◌, if◌then◌else◌, num, text, errorf, wrap, Arg, GoError, Result, ok,
  err, ◌>>=◌, wrap_err, join_errors,
}
use certfinder.Jks.ModifiedUtf8.{decode_java_modified_utf8}
use certfinder.Jks.Reader.{
  Reader, detect_java_keystore, remaining, uint32, length_prefixed_uint16, take_uint32, skip,
  skip_uint32,
}
use certfinder.Model.{KeystoreInfo}

abbrev pub mac_size : ℕ
mac_size = 20

abbrev pub minimum_file_bytes : ℕ
minimum_file_bytes = 12 + mac_size

abbrev pub tag_private_key : ℕ
tag_private_key = 1

abbrev pub tag_trusted : ℕ
tag_trusted = 2

abbrev pub tag_secret_key : ℕ
tag_secret_key = 3

abbrev pub entry_private_key : Bytes
entry_private_key = codes "PrivateKeyEntry"

abbrev pub entry_trusted_cert : Bytes
entry_trusted_cert = codes "trustedCertEntry"

abbrev pub x509_type : Bytes
x509_type = codes "X.509"

-- U+FFFD in UTF-8
abbrev pub replacement : Bytes
replacement = 0xef ∷ 0xbf ∷ 0xbd ∷ []

-- `strings.EqualFold` against a text of ASCII digits, dots and the letter X, which no letter outside
-- ASCII folds to
abbrev pub equal_fold : Bytes → Bytes → Bool
equal_fold s t = bytes_eq (to_lower s) (to_lower t)

-- The first part of `reader.certificate`: version 1 names no type.
unfoldable pub certificate_type : ℕ → Reader → Result (Bytes × Reader)
unfolding length_prefixed_uint16 decode_java_modified_utf8
certificate_type version r =
    if version == 2
    then (do
      (encoded, r') ← wrap_err "certificate type: %w" [] (length_prefixed_uint16 r)
      kind ← wrap_err "certificate type: %w" [] (decode_java_modified_utf8 encoded)
      ok (kind, r'))
    else ok (x509_type, r)

-- Its second part, the DER bytes.
unfoldable pub certificate_der : Reader → Result (Bytes × Reader)
unfolding uint32 take_uint32
certificate_der r = do
  (n, r') ← wrap_err "DER length: %w" [] (uint32 r)
  wrap_err "DER: %w" [] (take_uint32 n r')

unfoldable pub certificate_parts : ℕ → Reader → Result (Bytes × Bytes × Reader)
unfolding certificate_type certificate_der
certificate_parts version r = do
  (kind, r') ← certificate_type version r
  (der, r'') ← certificate_der r'
  ok (kind, der, r'')

-- `javaKeystoreCertificate`; the first field is nil if its type or DER was refused.
pub record JavaKeystoreCertificate (X : Type 0) : Type 0 where
  pub certificate : Option X
  pub keystore : KeystoreInfo

-- What `reader.certificate` returns: no entry and an error, or an entry with an error or none.
pub data CertificateRead (X : Type 0) : Type 0 where
  unread : GoError → CertificateRead X
  read : JavaKeystoreCertificate X → Option GoError → Reader → CertificateRead X

-- The variables of the loop over the entries.
pub record Scan (X : Type 0) : Type 0 where
  pub reader : Reader
  pub certificates : List (JavaKeystoreCertificate X)
  pub parse_errors : List GoError
  pub private_key_entries : ℕ
  pub trusted_entries : ℕ

-- A step goes on, or the function returns the certificates so far with the joined errors.
pub data Flow (X : Type 0) : Type 0 where
  next : Scan X → Flow X
  stop : List (JavaKeystoreCertificate X) → List GoError → Flow X

module _ {X : Type 0} where
  abbrev pub fail : Scan X → GoError → Flow X
  fail s e = stop s.certificates (s.parse_errors ++ (e ∷ []))

  -- `if readErr != nil { return certificates, errors.Join(errors.Join(parseErrors...), …) }`
  abbrev pub or_fail : {A : Type 0} → Scan X → Result A → (A → Flow X) → Flow X
  or_fail s (ok a) f = f a
  or_fail s (err e) f = fail s e

  -- The next round of a loop, or the return.
  abbrev pub and_then : Flow X → (Scan X → Flow X) → Flow X
  and_then (next s) f = f s
  and_then (stop cs es) f = stop cs es

  abbrev pub note : Scan X → Option GoError → Scan X
  note s none = s
  note s (some e) = record s { parse_errors = s.parse_errors ++ (e ∷ []) }

  -- Only a parsed certificate is kept.
  abbrev pub keep : Scan X → JavaKeystoreCertificate X → Option X → Scan X
  keep s c none = s
  keep s c (some _) = record s { certificates = s.certificates ++ (c ∷ []) }

module _ {X : Type 0} (parse_certificate : Bytes → Result X) where
  -- `x509.ParseCertificate` is the section's parameter.
  unfoldable pub classify_certificate : KeystoreInfo → Bytes → Bytes → Reader → CertificateRead X
  unfolding bytes_eq to_lower
  classify_certificate keystore kind der r =
      if not (equal_fold kind x509_type)
      then read (record { certificate = none; keystore = keystore })
          (some (errorf "unsupported certificate type %q" (text kind ∷ []))) r
      else elim (parse_certificate der) [
        | ok parsed ↦ read (record { certificate = some parsed; keystore = keystore }) none r
        | err e ↦
            read (record { certificate = none; keystore = keystore })
              (some (wrap "parse X.509 DER: %w" [] e)) r
      ]

  unfoldable pub certificate : ℕ → KeystoreInfo → Reader → CertificateRead X
  unfolding certificate_parts classify_certificate
  certificate version keystore r = elim (certificate_parts version r) [
    | ok (kind, der, r') ↦ classify_certificate keystore kind der r'
    | err e ↦ unread e
  ]

  -- What both kinds of entries do with a certificate; `context` and `args` word its error.
  unfoldable pub add_certificate : String → List Arg → ℕ → KeystoreInfo → Scan X → Flow X
  unfolding certificate
  add_certificate context args version keystore s = elim (certificate version keystore s.reader) [
    | unread e ↦ fail s (wrap context args e)
    | read c none r ↦ next (keep (record s { reader = r }) c c.certificate)
    | read c (some e) r ↦
        next (keep (note (record s { reader = r }) (some (wrap context args e))) c c.certificate)
  ]

  abbrev pub info : Bytes → Bytes → Bytes → ℕ → KeystoreInfo
  info format alias kind k = record {
    format = format;
    alias = alias;
    friendly_name = [];
    entry_type = kind;
    chain_index = k;
    truststore = false;
  }

  -- `for chainIndex := range chainLength`, from `k` on with `left` rounds to go
  unfoldable pub read_chain : Bytes → ℕ → ℕ → Bytes → ℕ → ℕ → Scan X → Flow X
  unfolding add_certificate
  read_chain format version index alias zero k s = next s
  read_chain format version index alias (suc left) k s =
      and_then
        (add_certificate "entry %d chain certificate %d: %w" (num index ∷ num k ∷ []) version
          (info format alias entry_private_key k) s)
        λ s'. read_chain format version index alias left (k + 1) s'

  unfoldable pub private_entry : Bytes → ℕ → ℕ → Bytes → Scan X → Flow X
  unfolding read_chain uint32 skip_uint32
  private_entry format version index alias s =
      or_fail s (wrap_err "entry %d private-key length: %w" (num index ∷ []) (uint32 s.reader))
        λ (n, r₁).
          or_fail s (wrap_err "entry %d private-key blob: %w" (num index ∷ []) (skip_uint32 n r₁))
            λ r₂.
              or_fail s (wrap_err "entry %d chain length: %w" (num index ∷ []) (uint32 r₂))
                λ (m, r₃). read_chain format version index alias m 0 (record s { reader = r₃ })

  -- The `switch tag` of an entry.
  unfoldable pub dispatch : Bytes → ℕ → ℕ → ℕ → Bytes → Scan X → Flow X
  unfolding private_entry
  dispatch format version index tag alias s =
      if tag == tag_private_key
      then private_entry format version index alias
          (record s { private_key_entries = s.private_key_entries + 1 })
      else if tag == tag_trusted
      then add_certificate "entry %d trusted certificate: %w" (num index ∷ []) version
          (info format alias entry_trusted_cert 0)
          (record s { trusted_entries = s.trusted_entries + 1 })
      else if tag == tag_secret_key
      then fail s (errorf "entry %d is an unsupported JCEKS secret-key entry" (num index ∷ []))
      else fail s (errorf "entry %d has unsupported tag %d" (num index ∷ num tag ∷ []))

  -- A name that is not modified UTF-8 is reported, and kept with its invalid parts replaced.
  unfoldable pub alias_of : ℕ → Bytes → Scan X → Result Bytes → Bytes × Scan X
  unfolding to_valid_utf8
  alias_of index raw s (ok alias) = (alias, s)
  alias_of index raw s (err e) =
      (to_valid_utf8 raw replacement, note s (some (wrap "entry %d alias: %w" (num index ∷ []) e)))

  abbrev pub decode_alias : ℕ → Bytes → Scan X → Bytes × Scan X
  decode_alias index raw s = alias_of index raw s (decode_java_modified_utf8 raw)

  unfoldable pub read_entry : Bytes → ℕ → ℕ → Scan X → Flow X
  unfolding dispatch alias_of decode_java_modified_utf8 uint32 length_prefixed_uint16 skip
  read_entry format version index s =
      or_fail s (wrap_err "entry %d tag: %w" (num index ∷ []) (uint32 s.reader)) λ (tag, r₁).
        or_fail s (wrap_err "entry %d alias: %w" (num index ∷ []) (length_prefixed_uint16 r₁))
          λ (raw, r₂).
            let (alias, s') = decode_alias index raw s in
            or_fail s' (wrap_err "entry %d creation date: %w" (num index ∷ []) (skip 8 r₂))
              λ r₃. dispatch format version index tag alias (record s' { reader = r₃ })

  -- `for entryIndex := range entryCount`
  unfoldable pub read_entries : Bytes → ℕ → ℕ → ℕ → Scan X → Flow X
  unfolding read_entry
  read_entries format version zero index s = next s
  read_entries format version (suc left) index s =
      and_then (read_entry format version index s)
        λ s'. read_entries format version left (index + 1) s'

  abbrev pub mark_truststore : Bool → JavaKeystoreCertificate X → JavaKeystoreCertificate X
  mark_truststore t c = record c { keystore = record c.keystore { truststore = t } }

  -- A file with private keys is no truststore, and neither is one with no entry.
  abbrev pub is_truststore : Scan X → Bool
  is_truststore s = s.private_key_entries == 0 && ltb 0 s.trusted_entries

  abbrev pub final_errors : Bytes → Scan X → List GoError
  final_errors format s =
      if length s.certificates == 0
      then s.parse_errors ++ errorf "%s contains no X.509 certificates" (text format ∷ []) ∷ []
      else s.parse_errors

  abbrev trailing : Bytes → Scan X → GoError
  trailing format s =
      errorf "%s has %d unexpected bytes before the integrity MAC"
        (text format ∷ num (remaining s.reader) ∷ [])

  -- What follows the loop: trailing bytes, no certificate at all, and the truststore flag.
  unfoldable pub finish : Bytes → Scan X → List (JavaKeystoreCertificate X) × Option GoError
  unfolding remaining join_errors
  finish format s =
      if not (remaining s.reader == 0)
      then (s.certificates, join_errors (s.parse_errors ++ trailing format s ∷ []))
      else (
        map (mark_truststore (is_truststore s)) s.certificates,
        join_errors (final_errors format s),
      )

  abbrev pub check_version : Bytes → ℕ → Result ℕ
  check_version format version =
      if not (version == 1) && not (version == 2)
      then err (errorf "unsupported %s version %d" (text format ∷ num version ∷ []))
      else ok version

  abbrev pub check_count : Bytes → ℕ → ℕ → Reader → Result (ℕ × ℕ × Reader)
  check_count format version count r =
      if count == 0
      then err (errorf "%s contains zero entries" (text format ∷ []))
      else ok (version, count, r)

  -- The magic, the version and the number of entries.
  unfoldable pub read_header : Bytes → Reader → Result (ℕ × ℕ × Reader)
  unfolding uint32
  read_header format r = do
    (magic, r₁) ← wrap_err "read %s magic: %w" (text format ∷ []) (uint32 r)
    (encoded, r₂) ← wrap_err "read %s version: %w" (text format ∷ []) (uint32 r₁)
    version ← check_version format encoded
    (count, r₃) ← wrap_err "read %s entry count: %w" (text format ∷ []) (uint32 r₂)
    check_count format version count r₃

  unfoldable pub finish_flow : Bytes → Flow X → List (JavaKeystoreCertificate X) × Option GoError
  unfolding finish join_errors
  finish_flow format (next s) = finish format s
  finish_flow format (stop cs es) = (cs, join_errors es)

  abbrev pub start : Reader → Scan X
  start r = record {
    reader = r;
    certificates = [];
    parse_errors = [];
    private_key_entries = 0;
    trusted_entries = 0;
  }

  -- The loop over the entries, if the header was read.
  unfoldable pub parse_entries :
      Bytes → Result (ℕ × ℕ × Reader) → List (JavaKeystoreCertificate X) × Option GoError
  unfolding read_entries finish_flow
  parse_entries format (err e) = ([], some e)
  parse_entries format (ok (version, count, r)) =
      finish_flow format (read_entries format version count 0 (start r))

  unfoldable pub parse_detected :
      Bytes → Option Bytes → List (JavaKeystoreCertificate X) × Option GoError
  unfolding parse_entries read_header
  parse_detected bytes none = ([], some (errorf "unrecognized Java keystore magic" []))
  parse_detected bytes (some format) =
      if ltb (length bytes) minimum_file_bytes
      then ([], some (errorf "truncated %s header or integrity MAC" (text format ∷ [])))
      else parse_entries format
          (read_header format (record { bytes = take (length bytes - mac_size) bytes; offset = 0 }))

  unfoldable pub parse_java_keystore : Bytes → List (JavaKeystoreCertificate X) × Option GoError
  unfolding detect_java_keystore parse_detected
  parse_java_keystore bytes = parse_detected bytes (detect_java_keystore bytes)
