-- ===== src/Options/Filter.antt =====
-- Which certificates are shown: `-usage`, the durations and `certificateMatches` of main.go. A
-- time.Duration is a number of nanoseconds; one that is negative is rejected where it is parsed.
pub mod Matching
use certfinder.Base.Text.{codes, to_lower, bytes_eq}
use certfinder.Base.{
  ℕ, ◌+◌, ◌*◌, ◌-◌, ◌/◌, ◌^◌, Bool, true, false, ◌||◌, ◌&&◌, not, Option, none, some, List, [], ◌∷◌,
  Bytes, leb, ltb, ◌==◌, if◌then◌else◌, GoError, errorf, text, Result, ok, err,
}
use certfinder.Model.{Certificate, Time}
use certfinder.Options.Strings.{trim_space, trim_left, trim_right, contains, ends_with, but_last}

abbrev pub usage_aliases : List (Bytes × Bytes)
usage_aliases =
    (codes "", codes "")
    ∷ (codes "any", codes "any")
    ∷ (codes "server", codes "server")
    ∷ (codes "server-auth", codes "server")
    ∷ (codes "client", codes "client")
    ∷ (codes "client-auth", codes "client")
    ∷ (codes "code-signing", codes "code-signing")
    ∷ (codes "email", codes "email-protection")
    ∷ (codes "email-protection", codes "email-protection")
    ∷ (codes "ipsec-end-system", codes "ipsec-end-system")
    ∷ (codes "ipsec-tunnel", codes "ipsec-tunnel")
    ∷ (codes "ipsec-user", codes "ipsec-user")
    ∷ (codes "timestamping", codes "timestamping")
    ∷ (codes "ocsp-signing", codes "ocsp-signing")
    ∷ (codes "microsoft-server-gated-crypto", codes "microsoft-server-gated-crypto")
    ∷ (codes "netscape-server-gated-crypto", codes "netscape-server-gated-crypto")
    ∷ (codes "microsoft-commercial-code-signing", codes "microsoft-commercial-code-signing")
    ∷ (codes "microsoft-kernel-code-signing", codes "microsoft-kernel-code-signing")
    ∷ []

unfoldable pub find_alias : Bytes → List (Bytes × Bytes) → Option Bytes
unfolding bytes_eq
find_alias v [] = none
find_alias v ((a, u) ∷ table) =
    let rest = find_alias v table in if bytes_eq a v then some u else rest

abbrev pub usage_of : Bytes → Option Bytes → Result Bytes
usage_of v none = err (errorf "unsupported -usage %q" (text v ∷ []))
usage_of v (some u) = ok u

unfoldable pub normalize_usage : Bytes → Result Bytes
unfolding find_alias to_lower trim_left trim_right
normalize_usage value =
    let v = to_lower (trim_space value) in usage_of v (find_alias v usage_aliases)

abbrev pub day : ℕ
day = 24 * 3600 * 1000000000

-- A duration that time.ParseDuration returns
pub data Duration : Type 0 where
  at_least_zero : ℕ → Duration
  negative : ℕ → Duration

abbrev pub invalid_option : Bytes → Bytes → GoError
invalid_option option v = errorf "invalid -%s %q" (text option ∷ text v ∷ [])

-- The days before the `d`, whose parse is `n`
abbrev pub days_of : Bytes → Bytes → Option ℕ → Result (Option ℕ)
days_of option v none = err (invalid_option option v)
days_of option v (some n) =
    if ltb ((2 ^ 63 - 1) / day) n then err (invalid_option option v) else ok (some (n * day))

abbrev pub duration_of : Bytes → Bytes → Option Duration → Result (Option ℕ)
duration_of option v none =
    err (errorf "invalid -%s %q: use a duration such as 30d or 48h" (text option ∷ text v ∷ []))
duration_of option v (some (negative n)) = err (errorf "-%s cannot be negative" (text option ∷ []))
duration_of option v (some (at_least_zero n)) = ok (some n)

-- `parse_uint` is strconv.ParseUint with base 10 and 64 bits, `parse_duration` time.ParseDuration. The
-- second result of the code is whether there is a duration.
unfoldable pub parse_duration_option :
    (Bytes → Option ℕ) → (Bytes → Option Duration) → Bytes → Bytes → Result (Option ℕ)
unfolding ends_with but_last trim_left trim_right bytes_eq
parse_duration_option parse_uint parse_duration option value =
    let v = trim_space value in
    if bytes_eq v []
    then ok none
    else if ends_with v b'd'
    then days_of option v (parse_uint (but_last v))
    else duration_of option v (parse_duration v)

module _ {X : Type 0} where
  unfoldable pub certificate_expires_within : Certificate X → ℕ → Time → Bool
  certificate_expires_within c duration now = not (ltb (now + duration) c.not_after)

  -- `-expiration`, where `hasExpiration` is false for `none`
  abbrev pub expires_if : Certificate X → Option ℕ → Time → Bool
  expires_if c none now = true
  expires_if c (some d) now = not (ltb (now + d) c.not_after)

  -- `verify_hostname` is whether `certificate.VerifyHostname` has no error.
  unfoldable pub certificate_matches :
      (Certificate X → Bytes → Bool) → Certificate X → Bytes → Bytes → Option ℕ → Time → Bool
  unfolding contains bytes_eq
  certificate_matches verify_hostname c usage hostname expiration now =
      if not (bytes_eq usage [])
        && not c.extended_key_usage_unrestricted
        && not (contains c.extended_key_usage usage)
      then false
      else if not (bytes_eq hostname []) && not (verify_hostname c hostname)
      then false
      else expires_if c expiration now
