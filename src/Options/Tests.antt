-- ===== src/Options/Tests.antt =====
-- The theorems on option values at values that a user may give.
use certfinder.Base.Text.{codes}
use certfinder.Options.Flags.Values.{IsDistinct}
use certfinder.Options.Roots.{load_verification_roots}
use certfinder.Options.Roots.Loading.{fingerprints, load_verification_roots-IsDistinct}
use certfinder.Scanner.Report.{Report}
use certfinder.Base.{
  Result, ℕ, ◌<◌, ◌^◌, ◌≡◌, refl, ◌↔◌, Bool, true, false, Option, none, some, [], ◌∷◌, Bytes, ok,
  arith,
}
use certfinder.Model.Sample.{sample}
use certfinder.Model.{Certificate}
use certfinder.Options.Filter.{
  normalize_usage, Duration, at_least_zero, parse_duration_option, certificate_matches,
}
use certfinder.Options.Filter.Matching.{
  normalize_usage-IsCanonical, Matches, certificate_matches-Matches, parse_duration_option-bound,
}
use certfinder.Options.Flags.{extension_set}
use certfinder.Options.Flags.Values.{AreExtensions, extension_set-AreExtensions}
use certfinder.Options.Hostname.{validate_dns_name}
use certfinder.Options.Hostname.Labels.{IsRootedName, validate_dns_name-IsName}

extension_set-AreExtensions_example :
    AreExtensions (extension_set [] (codes " PEM,.crt,pem,*,der")).0
extension_set-AreExtensions_example =
    extension_set-AreExtensions [] (codes " PEM,.crt,pem,*,der") (tt, tt)

kept_before_error :
    (extension_set [] (codes " PEM,.crt,pem,*,der")).0 ≡ codes ".pem" ∷ codes ".crt" ∷ []
unfolding extension_set
kept_before_error = refl

validate_dns_name-IsName_example :
    (validate_dns_name (codes "a-b.example.org.") ≡ none) ↔ IsRootedName (codes "a-b.example.org.")
validate_dns_name-IsName_example = validate_dns_name-IsName (codes "a-b.example.org.")

accepted_name : validate_dns_name (codes "a-b.example.org.") ≡ none
unfolding validate_dns_name
accepted_name = refl

server_auth_usage : normalize_usage (codes " Server-Auth") ≡ ok (codes "server")
unfolding normalize_usage
server_auth_usage = refl

normalize_usage-IsCanonical_example : normalize_usage (codes "server") ≡ ok (codes "server")
normalize_usage-IsCanonical_example =
    normalize_usage-IsCanonical (codes " Server-Auth") (codes "server") server_auth_usage

-- Stand-ins for the parsers of numbers and durations
abbrev thirty : Bytes → Option ℕ
thirty v = some 30

abbrev one_hour : Bytes → Option Duration
one_hour v = some (at_least_zero 3600000000000)

hour_bound : (v : Bytes) (n : ℕ) → one_hour v ≡ some (at_least_zero n) → n < 2 ^ 63
hour_bound v n h = ground arith

thirty_days :
    parse_duration_option thirty one_hour (codes "expiration") (codes "30d")
    ≡ ok (some 2592000000000000)
unfolding parse_duration_option
thirty_days = refl

parse_duration_option-bound_example : 2592000000000000 < 2 ^ 63
parse_duration_option-bound_example =
    parse_duration_option-bound thirty one_hour (codes "expiration") (codes "30d") hour_bound
      2592000000000000 thirty_days

abbrev shown : Certificate (Unit {0})
shown = record (sample (codes "a.pem") 0 [] none) {
  extended_key_usage = codes "server" ∷ [];
  extended_key_usage_unrestricted = false;
}

abbrev any_name : Certificate (Unit {0}) → Bytes → Bool
any_name c h = true

certificate_matches-Matches_example :
    (certificate_matches any_name shown (codes "server") (codes "h") (some 50) 60 ≡ true)
    ↔ Matches any_name shown (codes "server") (codes "h") (some 50) 60
certificate_matches-Matches_example =
    certificate_matches-Matches any_name shown (codes "server") (codes "h") (some 50) 60

-- Every path holds the same certificate.
abbrev one_root : Bytes → Result (Report (Unit {0}))
one_root p = ok (record { certificates = shown ∷ shown ∷ []; errors = []; pkcs12_encrypted = [] })

loaded_once : load_verification_roots one_root (codes "a" ∷ codes "b" ∷ []) ≡ ok (shown ∷ [])
unfolding load_verification_roots
loaded_once = refl

load_verification_roots-IsDistinct_example : IsDistinct (fingerprints (shown ∷ []))
load_verification_roots-IsDistinct_example =
    load_verification_roots-IsDistinct one_root (codes "a" ∷ codes "b" ∷ []) (shown ∷ [])
      loaded_once
