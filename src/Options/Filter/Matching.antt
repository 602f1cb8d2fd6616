-- ===== src/Options/Filter/Matching.antt =====
-- What `-usage`, the durations and `certificateMatches` of main.go decide.
use certfinder.Base.Text.{bytes_eq, bytes_eq_iff}
use certfinder.Base.{
  ℕ, ◌+◌, ◌-◌, ◌/◌, ◌^◌, ◌<◌, ◌≤◌, ◌≡◌, ◌≢◌, ◌↔◌, ◌⊎◌, refl, Bool, true, false, Option, none, some,
  List, [], ◌∷◌, Bytes, All, Bool-cases, inl, inr, ltb, ok, Post, Post-if, Post-ok, arith,
}
use certfinder.Model.{Certificate, Time}
use certfinder.Options.Filter.{
  usage_aliases, find_alias, usage_of, normalize_usage, day, Duration, at_least_zero, negative,
  days_of, duration_of, parse_duration_option, certificate_matches, expires_if,
}
use certfinder.Options.Strings.{contains, trim_space, but_last, ends_with}
use certfinder.Base.Text.{to_lower}

-- A name that stands for itself.
abbrev IsCanonical : Bytes → Type 0
IsCanonical u = normalize_usage u ≡ ok u

aliases-IsCanonical : All (λ e. IsCanonical e.1) usage_aliases
unfolding normalize_usage
aliases-IsCanonical = (
  refl,
  (
    refl,
    (
      refl,
      (
        refl,
        (
          refl,
          (
            refl,
            (
              refl,
              (
                refl,
                (refl, (refl, (refl, (refl, (refl, (refl, (refl, (refl, (refl, (refl, tt)))))))))),
              ),
            ),
          ),
        ),
      ),
    ),
  ),
)

find_alias-IsCanonical :
    (v : Bytes) (table : List (Bytes × Bytes))
    → All (λ e. IsCanonical e.1) table
    → Post IsCanonical (usage_of v (find_alias v table))
unfolding find_alias
find_alias-IsCanonical v [] h = tt
find_alias-IsCanonical v ((a, u) ∷ table) h = elim (Bool-cases (bytes_eq a v)) [
  | inl same ↦ rw same (h.0)
  | inr other ↦ rw other (find_alias-IsCanonical v table h.1)
]

-- What `normalizeUsage` returns is a name that it leaves as it is, so the names that a certificate's
-- usages are compared with are the canonical ones.
pub normalize_usage-IsCanonical :
    (value u : Bytes) → normalize_usage value ≡ ok u → normalize_usage u ≡ ok u
unfolding normalize_usage
normalize_usage-IsCanonical value u h =
    Post-ok IsCanonical h
      (find_alias-IsCanonical (to_lower (trim_space value)) usage_aliases aliases-IsCanonical)

-- A name that stands in a list.
abbrev IsOneOf : Bytes → List Bytes → Type 0
IsOneOf u [] = ⊥
IsOneOf u (v ∷ vs) = (v ≡ u) ⊎ IsOneOf u vs

contains-IsOneOf : (vs : List Bytes) (u : Bytes) → (contains vs u ≡ true) ↔ IsOneOf u vs
unfolding contains
contains-IsOneOf [] u = (λ h. absurd (cc), λ h. absurd h)
contains-IsOneOf (v ∷ vs) u = ground (arith, bytes_eq_iff v u, contains-IsOneOf vs u)

-- What a certificate is shown for: a usage that is asked for is unrestricted or listed, a host name
-- that is asked for is one of its own, and it has ended when the duration is over.
pub record Matches {X : Type 0} (verify_hostname : Certificate X → Bytes → Bool) (c : Certificate X)
    (usage hostname : Bytes) (expiration : Option ℕ) (now : Time) : Type 0 where
  for_usage :
      usage ≢ [] → c.extended_key_usage_unrestricted ≡ false → IsOneOf usage c.extended_key_usage
  for_hostname : hostname ≢ [] → verify_hostname c hostname ≡ true
  for_expiration : (d : ℕ) → expiration ≡ some d → c.not_after ≤ now + d

expires :
    {X : Type 0} (c : Certificate X) (o : Option ℕ) (now : Time)
    → ((d : ℕ) → o ≡ some d → c.not_after ≤ now + d)
    → expires_if c o now ≡ true
expires c none now h = refl
expires c (some d) now h = let k = h d refl in ground arith

-- `certificateMatches` is true exactly for a certificate that each option given on the command line
-- admits: the usage, the host name and the expiration.
pub certificate_matches-Matches :
    {X : Type 0} (verify_hostname : Certificate X → Bytes → Bool) (c : Certificate X)
    (usage hostname : Bytes) (expiration : Option ℕ) (now : Time)
    → (certificate_matches verify_hostname c usage hostname expiration now ≡ true)
      ↔ Matches verify_hostname c usage hostname expiration now
unfolding certificate_matches
certificate_matches-Matches v c usage hostname expiration now = (
  λ h. record {
    for_usage = λ a b.
        (contains-IsOneOf c.extended_key_usage usage).0 (ground (arith, bytes_eq_iff usage []));
    for_hostname = λ a. ground (arith, bytes_eq_iff hostname []);
    for_expiration = λ d e. ground (arith);
  },
  λ h. ground (
    arith,
    bytes_eq_iff usage [],
    bytes_eq_iff hostname [],
    h.for_usage,
    contains-IsOneOf c.extended_key_usage usage,
    h.for_hostname,
    expires c expiration now h.for_expiration,
  ),
)

abbrev Bounded : Option ℕ → Type 0
Bounded none = Unit
Bounded (some d) = d < 2 ^ 63

days_of-Bounded : (option v : Bytes) (n : Option ℕ) → Post Bounded (days_of option v n)
days_of-Bounded option v none = tt
days_of-Bounded option v (some n) = elim (Bool-cases (ltb ((2 ^ 63 - 1) / day) n)) [
  | inl big ↦ rw big tt
  | inr small ↦ rw small (ground arith)
]

duration_of-Bounded :
    (option v : Bytes) (n : Option Duration)
    → ((k : ℕ) → n ≡ some (at_least_zero k) → k < 2 ^ 63)
    → Post Bounded (duration_of option v n)
duration_of-Bounded option v none h = tt
duration_of-Bounded option v (some (negative n)) h = tt
duration_of-Bounded option v (some (at_least_zero n)) h = h n refl

-- The duration of an option is below 2 ^ 63 nanoseconds, if that holds of what `time.ParseDuration` returns.
pub parse_duration_option-bound :
    (parse_uint : Bytes → Option ℕ) (parse_duration : Bytes → Option Duration)
    (option value : Bytes)
    → ((v : Bytes) (n : ℕ) → parse_duration v ≡ some (at_least_zero n) → n < 2 ^ 63)
    → (d : ℕ) → parse_duration_option parse_uint parse_duration option value ≡ ok (some d)
    → d < 2 ^ 63
unfolding parse_duration_option
parse_duration_option-bound pu pd option value h d e =
    let v = trim_space value in
    Post-ok Bounded e (
      Post-if Bounded (bytes_eq v []) _ _ tt (
        Post-if Bounded (ends_with v b'd') _ _ (days_of-Bounded option v (pu (but_last v)))
          (duration_of-Bounded option v (pd v) (h v))))
