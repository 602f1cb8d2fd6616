-- ===== src/Scanner/Tests.antt =====
-- Runs of the scanner on bytes, with stand-ins for the parsers.
use certfinder.Base.Text.{codes}
use certfinder.Base.{
  ℕ, Bool, Option, GoError, ◌≡◌, ◌≢◌, refl, true, false, none, some, [], ◌∷◌, Bytes, ok,
}
use certfinder.Model.Sample.{sample}
use certfinder.Options.Filter.{normalize_usage}
use certfinder.Scanner.Paths.{normalize_exclude_patterns}
use certfinder.Scanner.Paths.Patterns.{ArePatterns, normalize_exclude_patterns-ArePatterns}
use certfinder.Scanner.Content.{Parsers, scan_content_data}
use certfinder.Scanner.Content.Results.{IsResult, scan_content_data-IsResult}
use certfinder.Scanner.Usage.{ExtKeyUsage, extended_key_usage_name}
use certfinder.Scanner.Usage.Names.{extended_key_usage_name-normalize}

abbrev no_digits : ℕ → Bytes
no_digits n = []

server_is_known : (n : ℕ) → ExtKeyUsage.server_auth ≢ ExtKeyUsage.other n
server_is_known n h = cc

extended_key_usage_name-normalize_example :
    normalize_usage (extended_key_usage_name no_digits ExtKeyUsage.server_auth)
    ≡ ok (extended_key_usage_name no_digits ExtKeyUsage.server_auth)
extended_key_usage_name-normalize_example =
    extended_key_usage_name-normalize no_digits ExtKeyUsage.server_auth server_is_known

-- Every byte is a certificate of its own, in PEM.
abbrev each_byte : Parsers ℕ
each_byte = record {
  detect_java_keystore = λ b. false;
  parse_java_keystore = λ b. ([], none);
  detect_pkcs12 = λ b. false;
  parse_pkcs12 = λ b. ([], [], none);
  parse_pem = λ b. b;
  parse_der = λ b. none;
  describe = λ path i x. sample path i [] (some x);
}

each_byte-describes :
    (i x : ℕ)
    → ((sample (codes "a") i [] (some x)).path ≡ codes "a")
      × ((sample (codes "a") i [] (some x)).index ≡ i)
each_byte-describes i x = (refl, refl)

scan_content_data-IsResult_example :
    IsResult each_byte (codes "a") true (scan_content_data each_byte (codes "a") (7 ∷ 8 ∷ []) true)
scan_content_data-IsResult_example =
    scan_content_data-IsResult each_byte (codes "a") each_byte-describes (7 ∷ 8 ∷ []) true

abbrev never_absolute : Bytes → Bool
never_absolute p = false

abbrev always_glob : Bytes → Option GoError
always_glob p = none

vendor_pattern :
    normalize_exclude_patterns never_absolute always_glob (codes "./vendor/" ∷ codes " vendor" ∷ [])
    ≡ ok (codes "vendor" ∷ [])
unfolding normalize_exclude_patterns
vendor_pattern = refl

normalize_exclude_patterns-ArePatterns_example :
    ArePatterns never_absolute always_glob (codes "vendor" ∷ [])
normalize_exclude_patterns-ArePatterns_example =
    normalize_exclude_patterns-ArePatterns never_absolute always_glob
      (codes "./vendor/" ∷ codes " vendor" ∷ []) (codes "vendor" ∷ []) vendor_pattern
