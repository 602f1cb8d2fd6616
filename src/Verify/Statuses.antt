-- ===== src/Verify/Statuses.antt =====
-- What the verification of internal/scanner/verify.go reports.
use Prim.Native.String.{String}
use certfinder.Base.{
  Result-cases, ◌>>=◌, ◌==◌, ℕ, ◌+◌, ◌≡◌, ◌≢◌, ◌↔◌, refl, ap, Bool, true, false, Option, none, some,
  List, [], ◌∷◌, ◌++◌, map, Bytes, errorf, num, text, length, inl, inr, ltb, GoError, Result, ok,
  err, arith, if◌then◌else◌,
}
use certfinder.Base.Text.{bytes_eq}
use certfinder.Model.{Certificate, Time, VerificationResult}
use certfinder.Verify.{
  X509, VerificationOptions, verification_trusted, verification_untrusted, verification_expired,
  verification_not_yet_valid, verification_missing_intermediate, pool_from, add_cert,
  classify_verification_error, classify_invalid, classify_reason, classify_authority,
  describe_chain, describe_verification, verify_with, verify_one, verify_certificates,
  verification_root_pool, or_else, Invalid,
}

-- The statuses of a certificate that was not verified.
pub data IsFailure : Bytes → Type 0 where
  untrusted : IsFailure verification_untrusted
  expired : IsFailure verification_expired
  not_yet_valid : IsFailure verification_not_yet_valid
  missing_intermediate : IsFailure verification_missing_intermediate

IsFailure-ne : {s : Bytes} → IsFailure s → s ≢ verification_trusted
unfolding bytes_eq
IsFailure-ne untrusted h = let e : false ≡ true = ap (λ s. bytes_eq s verification_trusted) h in cc
IsFailure-ne expired h = let e : false ≡ true = ap (λ s. bytes_eq s verification_trusted) h in cc
IsFailure-ne not_yet_valid h =
    let e : false ≡ true = ap (λ s. bytes_eq s verification_trusted) h in cc
IsFailure-ne missing_intermediate h =
    let e : false ≡ true = ap (λ s. bytes_eq s verification_trusted) h in cc

length-map {ℓ κ} :
    {A : Type ℓ} {B : Type κ} (f : A → B) (xs : List A) → length (map f xs) ≡ length xs
length-map f [] = refl
length-map f (x ∷ xs) = ground (arith, length-map f xs)

IsFailure-if : (t : Bool) {a b : Bytes} → IsFailure a → IsFailure b → IsFailure (if t then a else b)
IsFailure-if true h k = h
IsFailure-if false h k = k

module _ {X E : Type 0} (x509 : X509 X E) where
  authority-IsFailure : (a : Option (Option X)) → IsFailure (classify_authority x509 a)
  authority-IsFailure none = untrusted
  authority-IsFailure (some none) = untrusted
  authority-IsFailure (some (some x)) =
      IsFailure-if (bytes_eq (x509.raw_subject x) (x509.raw_issuer x)) untrusted
        missing_intermediate

  reason-IsFailure :
      (now : Time) (b : Bool) (c : Option X) (t : Bytes)
      → IsFailure t
      → IsFailure (or_else x509 (classify_reason x509 now b c) t)
  reason-IsFailure now true (some x) t h =
      IsFailure-if (ltb now (x509.not_before x)) not_yet_valid expired
  reason-IsFailure now true none t h = h
  reason-IsFailure now false c t h = h

  invalid-IsFailure :
      (now : Time) (i : Option (Invalid X)) (t : Bytes)
      → IsFailure t
      → IsFailure (or_else x509 (classify_invalid x509 now i) t)
  invalid-IsFailure now none t h = h
  invalid-IsFailure now (some i) t h = reason-IsFailure now i.is_expired i.cert t h

  classify-IsFailure :
      (x : X) (e : E) (now : Time) → IsFailure (classify_verification_error x509 x e now)
  unfolding classify_verification_error
  classify-IsFailure x e now = IsFailure-if (ltb now (x509.not_before x)) not_yet_valid (
      IsFailure-if (ltb (x509.not_after x) now) expired (
        invalid-IsFailure now (x509.as_invalid e)
          (classify_authority x509 (x509.as_unknown_authority e))
          (authority-IsFailure (x509.as_unknown_authority e))))

  -- What a verification says of the chains and the error that `Verify` returned.
  pub record Describes (chains : List (List X)) (e : Option E) (v : VerificationResult)
      : Type 0 where
    trusted : (e ≡ none) ↔ (v.status ≡ verification_trusted)
    failure : e ≢ none → IsFailure v.status
    chain_count : e ≡ none → length v.chains ≡ length chains
    no_chain : e ≢ none → v.chains ≡ []

  describe_verification-Describes :
      (x : X) (chains : List (List X)) (e : Option E) (now : Time)
      → Describes chains e (describe_verification x509 x chains e now)
  unfolding describe_verification
  describe_verification-Describes x chains none now = record {
    trusted = (λ _. refl, λ _. refl);
    failure = λ h. absurd (h refl);
    chain_count = λ _. length-map (describe_chain x509) chains;
    no_chain = λ h. absurd (h refl);
  }
  describe_verification-Describes x chains (some e) now =
      let h = classify-IsFailure x e now in
      record {
        trusted = (λ n. cc, λ n. absurd (IsFailure-ne h n));
        failure = λ _. h;
        chain_count = λ n. cc;
        no_chain = λ _. refl;
      }

  -- One certificate before and after.
  pub record Verified (roots intermediates : List X) (now : Time) (dns_name : Bytes)
      (c d : Certificate X) : Type 0 where
    certificate : X
    was_parsed : c.parsed ≡ some certificate
    unchanged : record d { verification = none } ≡ record c { verification = none }
    result : VerificationResult
    reported : d.verification ≡ some result
    describes :
        let r = x509.verify roots intermediates now dns_name certificate in Describes r.0 r.1 result

  verify_with-Verified :
      (roots intermediates : List X) (now : Time) (dns_name : Bytes) (c : Certificate X)
      (o : Option X)
      → o ≢ none
      → c.parsed ≡ o
      → Verified roots intermediates now dns_name c
          (verify_with x509 roots intermediates now dns_name c o)
  verify_with-Verified roots intermediates now dns_name c none h p = absurd (h refl)
  verify_with-Verified roots intermediates now dns_name c (some x) h p =
      let r = x509.verify roots intermediates now dns_name x in
      record {
        certificate = x;
        was_parsed = p;
        unchanged = refl;
        result = describe_verification x509 x r.0 r.1 now;
        reported = refl;
        describes = describe_verification-Describes x r.0 r.1 now;
      }

  -- Filling a pool: it holds what was parsed, in order, or the first certificate that was not is named.
  pub data Pool (format : String) (i : ℕ) (cs : List (Certificate X))
      : Result (List X) → Type 0 where
    filled : (xs : List X) → map (λ c. c.parsed) cs ≡ map some xs → Pool format i cs (ok xs)
    unparsed :
        (n : ℕ) (before : List X) (c : Certificate X) (after : List (Certificate X))
        → n ≡ i + length before
        → map (λ c'. c'.parsed) cs ≡ map some before ++ c.parsed ∷ map (λ c'. c'.parsed) after
        → c.parsed ≡ none
        → Pool format i cs (err (errorf format (num n ∷ text c.path ∷ [])))

  add_cert-Pool :
      (format : String) (i : ℕ) (c : Certificate X) (cs : List (Certificate X)) (o : Option X)
      (r : Result (List X))
      → c.parsed ≡ o
      → Pool format (i + 1) cs r
      → Pool format i (c ∷ cs) (add_cert (errorf format (num i ∷ text c.path ∷ [])) o r)
  add_cert-Pool format i c cs none r h p = unparsed i [] c cs (omega arith) refl h
  add_cert-Pool format i c cs (some x) r h (filled xs e) = filled (x ∷ xs) (rw (h, e) refl)
  add_cert-Pool format i c cs (some x) r h (unparsed k before d after j e n) =
      unparsed k (x ∷ before) d after (omega arith) (rw (h, e) refl) n

  pool_from-Pool :
      (format : String) (i : ℕ) (cs : List (Certificate X))
      → Pool format i cs (pool_from format i cs)
  unfolding pool_from
  pool_from-Pool format i [] = filled [] refl
  pool_from-Pool format i (c ∷ cs) =
      add_cert-Pool format i c cs c.parsed (pool_from format (i + 1) cs) refl
        (pool_from-Pool format (i + 1) cs)

  -- Two lists of one length whose elements are related in turn.
  pub data Pairwise (R : Certificate X → Certificate X → Type 0)
      : List (Certificate X) → List (Certificate X) → Type 0 where
    none_left : Pairwise R [] []
    both :
        (c d : Certificate X) (cs ds : List (Certificate X))
        → R c d
        → Pairwise R cs ds
        → Pairwise R (c ∷ cs) (d ∷ ds)

  verify_one-Pairwise :
      (roots intermediates : List X) (now : Time) (dns_name : Bytes) (cs : List (Certificate X))
      (xs : List X)
      → map (λ c. c.parsed) cs ≡ map some xs
      → Pairwise
          (Verified roots intermediates now dns_name)
          cs
          (map (verify_one x509 roots intermediates now dns_name) cs)
  verify_one-Pairwise roots intermediates now dns_name [] xs h = none_left
  verify_one-Pairwise roots intermediates now dns_name (c ∷ cs) [] h = absurd (cc)
  verify_one-Pairwise roots intermediates now dns_name (c ∷ cs) (x ∷ xs) h =
      both c (verify_one x509 roots intermediates now dns_name c) cs _
        (verify_with-Verified roots intermediates now dns_name c c.parsed
          (λ n. let e : c.parsed ≡ some x = cc in cc) refl)
        (verify_one-Pairwise roots intermediates now dns_name cs xs (cc))

  -- The two ways out of `VerifyCertificates`.
  pub data Outcome (clock : Time) (cs : List (Certificate X)) (options : VerificationOptions X)
      : Result (List (Certificate X)) → Type 0 where
    no_roots :
        (e : GoError)
        → verification_root_pool x509 options ≡ err e
        → Outcome clock cs options (err e)
    not_parsed :
        (e : GoError)
        → Pool "certificate %d at %q has no parsed X.509 data" 0 cs (err e)
        → Outcome clock cs options (err e)
    verified :
        (roots intermediates : List X) (ds : List (Certificate X))
        → verification_root_pool x509 options ≡ ok roots
        → map (λ c. c.parsed) cs ≡ map some intermediates
        → Pairwise
            (Verified roots intermediates
              (if options.current_time == 0 then clock else options.current_time)
              options.dns_name)
            cs
            ds
        → Outcome clock cs options (ok ds)

  with_pool-Outcome :
      (clock : Time) (cs : List (Certificate X)) (options : VerificationOptions X) (roots : List X)
      (r : Result (List X))
      → verification_root_pool x509 options ≡ ok roots
      → Pool "certificate %d at %q has no parsed X.509 data" 0 cs r
      → (let now = if options.current_time == 0 then clock else options.current_time in
          Outcome clock cs options
            (r >>= λ xs. ok (map (verify_one x509 roots xs now options.dns_name) cs)))
  with_pool-Outcome clock cs options roots (err e) h p = not_parsed e p
  with_pool-Outcome clock cs options roots (ok xs) h (filled _ e) = verified roots xs _ h e (
      verify_one-Pairwise roots xs
        (if options.current_time == 0 then clock else options.current_time) options.dns_name cs xs
        e)

  -- `VerifyCertificates` either fails, since the pool of roots could not be made or since a certificate
  -- was not parsed, the first such one being named, or it returns the certificates in their order
  -- with nothing but their verification changed. The status is then trusted exactly where
  -- `Verify` has no error, and its chains are reported there only.
  pub verify_certificates-Outcome :
      (clock : Time) (cs : List (Certificate X)) (options : VerificationOptions X)
      → Outcome clock cs options (verify_certificates x509 clock cs options)
  unfolding verify_certificates
  verify_certificates-Outcome clock cs options =
      elim (Result-cases (verification_root_pool x509 options)) [
        | inl (roots, h) ↦ rw h (
            with_pool-Outcome clock cs options roots
              (pool_from "certificate %d at %q has no parsed X.509 data" 0 cs) h
              (pool_from-Pool "certificate %d at %q has no parsed X.509 data" 0 cs))
        | inr (e, h) ↦ rw h (no_roots e h)
      ]
