-- ===== src/Scanner/Usage.antt =====
-- Names for the usages and the alternative names of a certificate: internal/scanner/scanner.go.
pub mod Names
use Prim.Native.Nat.{compare}
use certfinder.Base.Order.{compare_list, IsOrder, compare-IsOrder, compare_list-IsOrder}
use certfinder.Base.Order.Sort.{insert, sort}
use certfinder.Base.Text.{codes, bytes_eq}
use certfinder.Base.{
  ℕ, ◌^◌, bit_and, Bool, true, false, ◌||◌, not, Option, none, some, List, [], ◌∷◌, ◌++◌, map,
  Bytes, ◌==◌, if◌then◌else◌,
}

-- `slices.Sort` on strings
unfoldable pub sort_strings : List Bytes → List Bytes
unfolding sort
sort_strings xs = sort (λ s. s) (compare_list compare) xs

-- The names with their bits, in the order of x509.KeyUsage.
abbrev pub key_usages : List (ℕ × Bytes)
key_usages =
    (1, codes "digital-signature")
    ∷ (2, codes "content-commitment")
    ∷ (4, codes "key-encipherment")
    ∷ (8, codes "data-encipherment")
    ∷ (16, codes "key-agreement")
    ∷ (32, codes "certificate-signing")
    ∷ (64, codes "crl-signing")
    ∷ (128, codes "encipher-only")
    ∷ (256, codes "decipher-only")
    ∷ []

unfoldable pub selected : ℕ → List (ℕ × Bytes) → List Bytes
selected usage [] = []
selected usage ((bit, name) ∷ names) =
    let rest = selected usage names in if bit_and usage bit == 0 then rest else name ∷ rest

unfoldable pub format_key_usage : ℕ → List Bytes
unfolding selected
format_key_usage usage = selected usage key_usages

-- x509.ExtKeyUsage; `other` is a value that the package does not name.
pub data ExtKeyUsage : Type 0 where
  any server_auth client_auth code_signing email_protection ipsec_end_system ipsec_tunnel
        ipsec_user :
      ExtKeyUsage
  time_stamping ocsp_signing microsoft_server_gated_crypto netscape_server_gated_crypto :
      ExtKeyUsage
  microsoft_commercial_code_signing microsoft_kernel_code_signing : ExtKeyUsage
  other : ℕ → ExtKeyUsage

abbrev pub is_any : ExtKeyUsage → Bool
is_any any = true
is_any _ = false

-- `decimal` is the `%d` of the value.
unfoldable pub extended_key_usage_name : (ℕ → Bytes) → ExtKeyUsage → Bytes
extended_key_usage_name decimal any = codes "any"
extended_key_usage_name decimal server_auth = codes "server"
extended_key_usage_name decimal client_auth = codes "client"
extended_key_usage_name decimal code_signing = codes "code-signing"
extended_key_usage_name decimal email_protection = codes "email-protection"
extended_key_usage_name decimal ipsec_end_system = codes "ipsec-end-system"
extended_key_usage_name decimal ipsec_tunnel = codes "ipsec-tunnel"
extended_key_usage_name decimal ipsec_user = codes "ipsec-user"
extended_key_usage_name decimal time_stamping = codes "timestamping"
extended_key_usage_name decimal ocsp_signing = codes "ocsp-signing"
extended_key_usage_name decimal microsoft_server_gated_crypto =
    codes "microsoft-server-gated-crypto"
extended_key_usage_name decimal netscape_server_gated_crypto = codes "netscape-server-gated-crypto"
extended_key_usage_name decimal microsoft_commercial_code_signing =
    codes "microsoft-commercial-code-signing"
extended_key_usage_name decimal microsoft_kernel_code_signing =
    codes "microsoft-kernel-code-signing"
extended_key_usage_name decimal (other n) = codes "unknown:" ++ decimal n

unfoldable pub has_id : Bytes → List Bytes → Bool
unfolding bytes_eq
has_id id [] = false
has_id id (e ∷ es) = bytes_eq e id || has_id id es

unfoldable pub has_any : List ExtKeyUsage → Bool
has_any [] = false
has_any (u ∷ us) = is_any u || has_any us

-- The usages, the OIDs of the unknown usages and those of the extensions, as text
unfoldable pub format_extended_key_usage :
    (ℕ → Bytes) → List ExtKeyUsage → List Bytes → List Bytes → List Bytes × Bool
unfolding extended_key_usage_name sort_strings has_id has_any
format_extended_key_usage decimal usages unknown extensions = (
  sort_strings
      (map (extended_key_usage_name decimal) usages ++ map (λ o. codes "oid:" ++ o) unknown),
  not (has_id (codes "2.5.29.37") extensions) || has_any usages,
)

-- `ip_text` and `uri_text` are the `String` methods of net.IP and url.URL.
unfoldable pub format_sans :
    {I U : Type 0}
    → (I → Bytes)
    → (U → Bytes)
    → List Bytes
    → List I
    → List Bytes
    → List U
    → List Bytes
unfolding sort_strings
format_sans ip_text uri_text dns_names ip_addresses email_addresses uris = sort_strings (
    map (λ n. codes "DNS:" ++ n) dns_names
    ++ map (λ a. codes "IP:" ++ ip_text a) ip_addresses
    ++ map (λ a. codes "email:" ++ a) email_addresses
    ++ map (λ u. codes "URI:" ++ uri_text u) uris)
