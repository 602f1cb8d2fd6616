-- ===== src/Verify/Tests.antt =====
-- A verification in which a certificate, a number, is trusted if it is a root.
use certfinder.Base.{ℕ, false, none, some, Option, List, [], ◌∷◌, ok, ◌==◌, if◌then◌else◌}
use certfinder.Model.Sample.{sample}
use certfinder.Model.{Certificate}
use certfinder.Verify.{X509, VerificationOptions, verify_certificates}
use certfinder.Verify.Statuses.{Outcome, verify_certificates-Outcome}

abbrev head_verify : List ℕ → ℕ → List (List ℕ) × Option (Unit {0})
head_verify [] x = ([], some tt)
head_verify (r ∷ rs) x = if r == x then ((x ∷ []) ∷ [], none) else ([], some tt)

abbrev numbers : X509 ℕ (Unit {0})
numbers = record {
  not_before = λ x. 10;
  not_after = λ x. 20;
  raw_subject = λ x. [];
  raw_issuer = λ x. [];
  raw = λ x. x ∷ [];
  subject = λ x. [];
  issuer = λ x. [];
  sha256_hex = λ b. b;
  system_roots = ok [];
  as_invalid = λ e. none;
  as_unknown_authority = λ e. some none;
  error_text = λ e. [];
  verify = λ roots intermediates now name x. head_verify roots x;
}

abbrev at_fifteen : VerificationOptions ℕ
at_fifteen = record {
  current_time = 15;
  dns_name = [];
  include_system_roots = false;
  roots = sample [] 0 [] (some 1) ∷ [];
}

abbrev found : List (Certificate ℕ)
found = sample [] 0 [] (some 1) ∷ sample [] 1 [] (some 2) ∷ []

verify_certificates-Outcome_example :
    Outcome numbers 0 found at_fifteen (verify_certificates numbers 0 found at_fifteen)
verify_certificates-Outcome_example = verify_certificates-Outcome numbers 0 found at_fifteen
