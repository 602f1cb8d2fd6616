-- ===== src/Scanner/Usage/Names.antt =====
-- The usage names of internal/scanner/scanner.go and `-usage` of main.go.
use certfinder.Base.{ℕ, ◌≡◌, ◌≢◌, refl, Bytes, ok}
use certfinder.Options.Filter.{normalize_usage}
use certfinder.Scanner.Usage.{ExtKeyUsage, extended_key_usage_name}
use certfinder.Scanner.Usage.ExtKeyUsage.{other}

-- Every name that the scanner gives to a usage known to x509 can be asked for as it is printed:
-- `normalizeUsage` takes it and leaves it as it is.
pub extended_key_usage_name-normalize :
    (decimal : ℕ → Bytes) (u : ExtKeyUsage)
    → ((n : ℕ) → u ≢ other n)
    → normalize_usage (extended_key_usage_name decimal u) ≡ ok (extended_key_usage_name decimal u)
unfolding normalize_usage extended_key_usage_name
extended_key_usage_name-normalize decimal ExtKeyUsage.any h = refl
extended_key_usage_name-normalize decimal ExtKeyUsage.server_auth h = refl
extended_key_usage_name-normalize decimal ExtKeyUsage.client_auth h = refl
extended_key_usage_name-normalize decimal ExtKeyUsage.code_signing h = refl
extended_key_usage_name-normalize decimal ExtKeyUsage.email_protection h = refl
extended_key_usage_name-normalize decimal ExtKeyUsage.ipsec_end_system h = refl
extended_key_usage_name-normalize decimal ExtKeyUsage.ipsec_tunnel h = refl
extended_key_usage_name-normalize decimal ExtKeyUsage.ipsec_user h = refl
extended_key_usage_name-normalize decimal ExtKeyUsage.time_stamping h = refl
extended_key_usage_name-normalize decimal ExtKeyUsage.ocsp_signing h = refl
extended_key_usage_name-normalize decimal ExtKeyUsage.microsoft_server_gated_crypto h = refl
extended_key_usage_name-normalize decimal ExtKeyUsage.netscape_server_gated_crypto h = refl
extended_key_usage_name-normalize decimal ExtKeyUsage.microsoft_commercial_code_signing h = refl
extended_key_usage_name-normalize decimal ExtKeyUsage.microsoft_kernel_code_signing h = refl
extended_key_usage_name-normalize decimal (other n) h = absurd (h n refl)
