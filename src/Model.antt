-- ===== src/Model.antt =====
-- The data of internal/scanner/scanner.go that its parsers fill.
pub mod Sample
use Prim.Native.Nat.{compare, Ordering}
use certfinder.Base.Order.{
  compare_list, compare_pair, IsOrder, compare-IsOrder, compare_list-IsOrder, compare_pair-IsOrder,
}
use certfinder.Base.{ℕ, Bool, Option, List, Bytes}

pub record KeystoreInfo : Type 0 where
  pub format : Bytes
  pub alias : Bytes
  pub friendly_name : Bytes
  pub entry_type : Bytes
  pub chain_index : ℕ
  pub truststore : Bool

-- An instant, in nanoseconds from a start that lies before every date of X.509.
abbrev pub Time : Type 0
Time = ℕ

pub record VerificationChainCertificate : Type 0 where
  pub subject : Bytes
  pub issuer : Bytes
  pub sha256_fingerprint : Bytes
  pub trust_anchor : Bool

pub record VerificationResult : Type 0 where
  pub status : Bytes
  pub error : Bytes
  pub chains : List (List VerificationChainCertificate)

-- `X` stands for `*x509.Certificate`, and a nil pointer is `none`.
pub record Certificate (X : Type 0) : Type 0 where
  pub path : Bytes
  pub index : ℕ
  pub subject : Bytes
  pub issuer : Bytes
  pub serial_number : Bytes
  pub is_ca : Bool
  pub self_signed : Bool
  pub sans : List Bytes
  pub key_usage : List Bytes
  pub extended_key_usage : List Bytes
  pub extended_key_usage_unrestricted : Bool
  pub public_key_algorithm : Bytes
  pub public_key_bits : ℕ
  pub public_key_curve : Bytes
  pub signature_algorithm : Bytes
  pub sha1_fingerprint : Bytes
  pub sha256_fingerprint : Bytes
  pub spki_sha256_fingerprint : Bytes
  pub not_before : Time
  pub not_after : Time
  pub keystore : Option KeystoreInfo
  pub verification : Option VerificationResult
  pub archive_entries : List Bytes
  pub dns_names : List Bytes
  pub ip_addresses : List Bytes
  pub parsed : Option X

pub record Pkcs12EncryptedContent : Type 0 where
  pub path : Bytes
  pub archive_entries : List Bytes
  pub content_index : ℕ
  pub algorithm : Bytes
  pub algorithm_oid : Bytes
  pub bag_count : Option ℕ

-- `certificates[left].Path` and what decides where it is equal, for `sort.Slice`: the path, the
-- archive entries and the place in the file.
abbrev pub Position : Type 0
Position = Bytes × (List Bytes × ℕ)

abbrev pub compare_position : Position → Position → Ordering
compare_position =
    compare_pair (compare_list compare) (compare_pair (compare_list (compare_list compare)) compare)

abbrev pub certificate_position : {X : Type 0} → Certificate X → Position
certificate_position c = (c.path, (c.archive_entries, c.index))

pub compare_position-IsOrder : IsOrder compare_position
compare_position-IsOrder =
    let text = compare_list-IsOrder compare-IsOrder in
    compare_pair-IsOrder text (compare_pair-IsOrder (compare_list-IsOrder text) compare-IsOrder)
