-- ===== src/Scanner/Content.antt =====
-- The bytes of one file: `scanContentData` and `scanOutcome` of internal/scanner/scanner.go. The
-- parsers that it calls are the interface `Parsers`.
pub mod Results
use certfinder.Base.{
  ℕ, zero, suc, ◌+◌, Bool, true, false, ◌&&◌, not, Option, none, some, List, [], ◌∷◌, map, Bytes,
  if◌then◌else◌, GoError,
}
use certfinder.Model.{Certificate, KeystoreInfo, Pkcs12EncryptedContent}

pub record Outcome (X : Type 0) : Type 0 where
  pub certificates : List (Certificate X)
  pub pkcs12_encrypted : List Pkcs12EncryptedContent
  pub scanned : Bool
  pub capped : Bool
  pub error : Option GoError

-- A certificate of a keystore: none where it could not be parsed.
pub record Entry (X : Type 0) : Type 0 where
  pub certificate : Option X
  pub keystore : KeystoreInfo

pub record Parsers (X : Type 0) : Type 0 where
  pub detect_java_keystore : Bytes → Bool
  pub parse_java_keystore : Bytes → List (Entry X) × Option GoError
  pub detect_pkcs12 : Bytes → Bool
  pub parse_pkcs12 : Bytes → List (Entry X) × List Pkcs12EncryptedContent × Option GoError
  pub parse_pem : Bytes → List X
  -- `x509.ParseCertificates`, none where it has an error
  pub parse_der : Bytes → Option (List X)
  pub describe : Bytes → ℕ → X → Certificate X

abbrev pub empty_outcome : {X : Type 0} → Outcome X
empty_outcome = record {
  certificates = [];
  pkcs12_encrypted = [];
  scanned = false;
  capped = false;
  error = none;
}

abbrev pub scan_outcome :
    {X : Type 0}
    → List (Certificate X)
    → List Pkcs12EncryptedContent
    → Bool
    → Option GoError
    → Outcome X
scan_outcome cs ps capped e = record {
  certificates = cs;
  pkcs12_encrypted = ps;
  scanned = false;
  capped = capped;
  error = e;
}

module _ {X : Type 0} (p : Parsers X) (path : Bytes) where
  -- The loop over keystore entries, from index `i` on; it skips those without a certificate.
  abbrev pub add_entry : ℕ → Option X → KeystoreInfo → List (Certificate X) → List (Certificate X)
  add_entry i none k rest = rest
  add_entry i (some x) k rest = record (p.describe path i x) { keystore = some k } ∷ rest

  unfoldable pub describe_entries : ℕ → List (Entry X) → List (Certificate X)
  describe_entries i [] = []
  describe_entries i (e ∷ es) = add_entry i e.certificate e.keystore (describe_entries (i + 1) es)

  unfoldable pub describe_all : ℕ → List X → List (Certificate X)
  describe_all i [] = []
  describe_all i (x ∷ xs) = p.describe path i x ∷ describe_all (i + 1) xs

  abbrev pub with_path : Pkcs12EncryptedContent → Pkcs12EncryptedContent
  with_path c = record c { path = path }

  abbrev pub or_nothing : Option (List X) → List X
  or_nothing none = []
  or_nothing (some xs) = xs

  -- Where there is no keystore: `parsed` are the certificates of PEM blocks.
  unfoldable pub scan_plain : Bytes → Bool → List X → Outcome X × Bool
  unfolding describe_all
  scan_plain bytes complete [] =
      if complete
      then (scan_outcome (describe_all 0 (or_nothing (p.parse_der bytes))) [] false none, false)
      else (scan_outcome [] [] true none, false)
  scan_plain bytes complete (x ∷ xs) =
      if complete
      then (scan_outcome (describe_all 0 (x ∷ xs)) [] false none, false)
      else (scan_outcome (describe_all 0 (x ∷ xs)) [] false none, true)

  -- The second result is whether the file must be read in full.
  unfoldable pub scan_content_data : Bytes → Bool → Outcome X × Bool
  unfolding describe_entries scan_plain
  scan_content_data bytes complete =
      if p.detect_java_keystore bytes
      then (if not complete
          then (empty_outcome, true)
          else (let (es, e) = p.parse_java_keystore bytes in
              (scan_outcome (describe_entries 0 es) [] false e, false)))
      else if p.detect_pkcs12 bytes
      then (if not complete
          then (empty_outcome, true)
          else (let (es, cs, e) = p.parse_pkcs12 bytes in
              (scan_outcome (describe_entries 0 es) (map with_path cs) false e, false)))
      else scan_plain bytes complete (p.parse_pem bytes)
