-- ===== src/Verify.antt =====
-- Offline chain verification: internal/scanner/verify.go. The x509, sha256 and hex packages are the
-- interface `X509`, in which a pool of certificates is their list.
pub mod Statuses
mod Tests
use Prim.Native.String.{String}
use certfinder.Base.Text.{codes, bytes_eq}
use certfinder.Base.{
  ℕ, suc, ◌+◌, ◌-◌, ◌≡◌, Bool, true, false, ◌&&◌, Option, none, some, List, [], ◌∷◌, ◌++◌, map,
  Bytes, length, ltb, ◌==◌, if◌then◌else◌, GoError, errorf, wrap, num, text, Result, ok, err, ◌>>=◌,
  wrap_err,
}
use certfinder.Model.{Certificate, Time, VerificationResult, VerificationChainCertificate}

-- An x509.CertificateInvalidError: whether its reason is `x509.Expired`, and its certificate.
pub record Invalid (X : Type 0) : Type 0 where
  pub is_expired : Bool
  pub cert : Option X

-- What the code uses of a parsed certificate and of the error `E` of its `Verify`.
pub record X509 (X E : Type 0) : Type 0 where
  pub not_before : X → Time
  pub not_after : X → Time
  pub raw_subject : X → Bytes
  pub raw_issuer : X → Bytes
  pub raw : X → Bytes
  pub subject : X → Bytes
  pub issuer : X → Bytes
  pub sha256_hex : Bytes → Bytes
  pub system_roots : Result (List X)
  pub as_invalid : E → Option (Invalid X)
  pub as_unknown_authority : E → Option (Option X)
  pub error_text : E → Bytes
  -- `Verify` with the roots, the intermediates, the time, the DNS name and any key usage
  pub verify : List X → List X → Time → Bytes → X → List (List X) × Option E

pub record VerificationOptions (X : Type 0) : Type 0 where
  pub current_time : Time
  pub dns_name : Bytes
  pub include_system_roots : Bool
  pub roots : List (Certificate X)

abbrev pub verification_trusted : Bytes
verification_trusted = codes "trusted"

abbrev pub verification_untrusted : Bytes
verification_untrusted = codes "untrusted"

abbrev pub verification_expired : Bytes
verification_expired = codes "expired"

abbrev pub verification_not_yet_valid : Bytes
verification_not_yet_valid = codes "not-yet-valid"

abbrev pub verification_missing_intermediate : Bytes
verification_missing_intermediate = codes "missing-intermediate"

-- The loops that fill a pool: the parsed certificates, or an error for the first one that has none.
abbrev pub add_cert : {X : Type 0} → GoError → Option X → Result (List X) → Result (List X)
add_cert e none r = err e
add_cert e (some x) r = r >>= λ xs. ok (x ∷ xs)

unfoldable pub pool_from : {X : Type 0} → String → ℕ → List (Certificate X) → Result (List X)
pool_from format i [] = ok []
pool_from format i (c ∷ cs) =
    add_cert (errorf format (num i ∷ text c.path ∷ [])) c.parsed (pool_from format (i + 1) cs)

module _ {X E : Type 0} (x509 : X509 X E) where
  -- `classifyVerificationError` for an error that is an x509.CertificateInvalidError, and for one that
  -- is an x509.UnknownAuthorityError, where these decide
  abbrev pub expired_at : Time → X → Bytes
  expired_at now x =
      if ltb now (x509.not_before x) then verification_not_yet_valid else verification_expired

  abbrev pub classify_reason : Time → Bool → Option X → Option Bytes
  classify_reason now true (some x) = some (expired_at now x)
  classify_reason now _ _ = none

  abbrev pub classify_invalid : Time → Option (Invalid X) → Option Bytes
  classify_invalid now none = none
  classify_invalid now (some i) = classify_reason now i.is_expired i.cert

  abbrev pub classify_authority : Option (Option X) → Bytes
  classify_authority (some (some x)) =
      if bytes_eq (x509.raw_subject x) (x509.raw_issuer x)
      then verification_untrusted
      else verification_missing_intermediate
  classify_authority _ = verification_untrusted

  abbrev pub or_else : Option Bytes → Bytes → Bytes
  or_else (some s) t = s
  or_else none t = t

  unfoldable pub classify_verification_error : X → E → Time → Bytes
  unfolding bytes_eq
  classify_verification_error x e now =
      if ltb now (x509.not_before x)
      then verification_not_yet_valid
      else if ltb (x509.not_after x) now
      then verification_expired
      else or_else (classify_invalid now (x509.as_invalid e))
          (classify_authority (x509.as_unknown_authority e))

  abbrev pub is_empty_chain : List X → Bool
  is_empty_chain [] = true
  is_empty_chain (x ∷ xs) = false

  -- One chain; the last certificate of it, `index == len(chain)-1`, is the trust anchor.
  unfoldable pub describe_chain : List X → List VerificationChainCertificate
  describe_chain [] = []
  describe_chain (x ∷ xs) =
      record {
        subject = x509.subject x;
        issuer = x509.issuer x;
        sha256_fingerprint = x509.sha256_hex (x509.raw x);
        trust_anchor = is_empty_chain xs;
      }
      ∷ describe_chain xs

  abbrev pub describe_verified_chains : List (List X) → List (List VerificationChainCertificate)
  describe_verified_chains chains = map describe_chain chains

  unfoldable pub describe_verification : X → List (List X) → Option E → Time → VerificationResult
  unfolding classify_verification_error
  describe_verification x chains none now = record {
    status = verification_trusted;
    error = [];
    chains = describe_verified_chains chains;
  }
  describe_verification x chains (some e) now = record {
    status = classify_verification_error x e now;
    error = x509.error_text e;
    chains = [];
  }

  -- The pool of roots: those of the system if they are asked for, then the given ones.
  unfoldable pub verification_root_pool : VerificationOptions X → Result (List X)
  unfolding pool_from
  verification_root_pool options =
      (if options.include_system_roots
        then wrap_err "load system roots: %w" [] x509.system_roots
        else ok [])
      >>= λ system.
          pool_from "root certificate %d at %q has no parsed X.509 data" 0 options.roots
          >>= λ roots. ok (system ++ roots)

  -- One turn of the last loop of `VerifyCertificates`
  abbrev pub verify_with : List X → List X → Time → Bytes → Certificate X → Option X → Certificate X
  verify_with roots intermediates now dns_name c none = c
  verify_with roots intermediates now dns_name c (some x) =
      let (chains, e) = x509.verify roots intermediates now dns_name x in
      record c { verification = some (describe_verification x chains e now) }

  abbrev pub verify_one : List X → List X → Time → Bytes → Certificate X → Certificate X
  verify_one roots intermediates now dns_name c =
      verify_with roots intermediates now dns_name c c.parsed

  -- `clock` is `time.Now()`, which stands in for a zero time.
  unfoldable pub verify_certificates :
      Time → List (Certificate X) → VerificationOptions X → Result (List (Certificate X))
  unfolding verification_root_pool pool_from
  verify_certificates clock certificates options = verification_root_pool options >>= λ roots.
      pool_from "certificate %d at %q has no parsed X.509 data" 0 certificates >>= λ intermediates.
      let now = if options.current_time == 0 then clock else options.current_time in
      ok (map (verify_one roots intermediates now options.dns_name) certificates)
