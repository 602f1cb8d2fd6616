-- ===== src/Pkcs12/Contents/Report.antt =====
-- What `parsePKCS12` of internal/scanner/pkcs12.go returns.
use certfinder.Base.{
  ℕ, suc, ◌+◌, ◌≤◌, ◌≡◌, refl, ap, Bool, true, false, Option, none, some, List, [], ◌∷◌, ◌++◌, map,
  Bytes, length, All, if◌then◌else◌, GoError, Result, ok, err, Post, Post-wrap, Post-after, Post-if,
  not, arith, wrap_err, num,
}
use certfinder.Base.Text.{codes}
use certfinder.Model.{Pkcs12EncryptedContent}
use certfinder.Pkcs12.Asn1.{
  RawValue, Oid, Asn1, raw_integer, explicit_octets, raw_sequence_elements,
}
use certfinder.Pkcs12.Contents.Bounds.{parse_safe_contents-Extends}
use certfinder.Pkcs12.Contents.{
  Pkcs12Certificate, Pkcs12Parser, max_bags, max_depth, parse_safe_contents, add_errors, wrapped,
  read_data, add_finding, unsupported, read_content, read_contents, new_parser, is_nil,
  is_truststore, mark_truststore, finish, parsed_or, parse_pkcs12, pfx_elements, pfx_fields,
  authenticated_safe, safe_contents,
}
use certfinder.Pkcs12.Asn1.Elements.{raw_sequence_elements-few}
use certfinder.Pkcs12.Encrypted.{is_integer, parse_content_info, parse_encrypted_content}
use certfinder.Pkcs12.Encrypted.Index.{parse_encrypted_content-index}
use certfinder.Pkcs12.Oids.{is_oid, oid_pkcs7_data, oid_pkcs7_encrypted_data}

-- Findings whose content indices grow from `low` on and stay below `high`.
abbrev pub FindingsWithin : ℕ → ℕ → List Pkcs12EncryptedContent → Type 0
FindingsWithin low high [] = low ≤ high
FindingsWithin low high (f ∷ fs) =
    (low ≤ f.content_index) × FindingsWithin (f.content_index + 1) high fs

FindingsWithin-wider :
    (low high : ℕ) (fs : List Pkcs12EncryptedContent)
    → FindingsWithin low high fs
    → FindingsWithin low (high + 1) fs
FindingsWithin-wider low high [] h = omega arith
FindingsWithin-wider low high (f ∷ fs) h =
    (h.0, FindingsWithin-wider (f.content_index + 1) high fs h.1)

FindingsWithin-end :
    (low high : ℕ) (fs : List Pkcs12EncryptedContent) (f : Pkcs12EncryptedContent)
    → f.content_index ≡ high
    → FindingsWithin low high fs
    → FindingsWithin low (high + 1) (fs ++ f ∷ [])
FindingsWithin-end low high [] f e h = (omega arith, omega arith)
FindingsWithin-end low high (g ∷ fs) f e h =
    (h.0, FindingsWithin-end (g.content_index + 1) high fs f e h.1)

module _ {X : Type 0} (asn1 : Asn1) (parse_certificate : Bytes → Result X) where
  -- The parser after the first `i` contents
  record Inv (i : ℕ) (p : Pkcs12Parser X) : Type 0 where
    counts : length p.certificates + p.key_bag_count ≤ p.bag_count
    below_limit : length p.certificates + p.key_bag_count ≤ max_bags
    findings : FindingsWithin 0 i p.encrypted

  add_errors-Inv :
      (i : ℕ) (p : Pkcs12Parser X) (o : Option GoError)
      → Inv i p
      → Inv i (add_errors asn1 parse_certificate p o)
  add_errors-Inv i p none h = h
  add_errors-Inv i p (some e) h = record {
    counts = h.counts;
    below_limit = h.below_limit;
    findings = h.findings;
  }

  wider : (i : ℕ) (p : Pkcs12Parser X) → Inv i p → Inv (i + 1) p
  wider i p h = record {
    counts = h.counts;
    below_limit = h.below_limit;
    findings = FindingsWithin-wider 0 i p.encrypted h.findings;
  }

  read_data-Inv :
      (i : ℕ) (p : Pkcs12Parser X) (r : Result Bytes)
      → Inv i p
      → Inv (i + 1) (read_data asn1 parse_certificate i p r)
  unfolding read_data
  read_data-Inv i p (err e) h = add_errors-Inv (i + 1) p (some e) (wider i p h)
  read_data-Inv i p (ok octets) h =
      let r = parse_safe_contents asn1 parse_certificate (max_depth + 1) octets (p, 0) in
      let x =
        parse_safe_contents-Extends asn1 parse_certificate (max_depth + 1) octets p h.counts
          h.below_limit in
      add_errors-Inv (i + 1) r.1.0 (wrapped asn1 parse_certificate i r.0) (record {
        counts = omega (arith, x.counts);
        below_limit = omega (arith, x.below_limit);
        findings = rw x.same_findings (FindingsWithin-wider 0 i p.encrypted h.findings);
      })

  add_finding-Inv :
      (i : ℕ) (p : Pkcs12Parser X) (r : Result Pkcs12EncryptedContent)
      → Post (λ f. f.content_index ≡ i) r
      → Inv i p
      → Inv (i + 1) (add_finding asn1 parse_certificate p r)
  add_finding-Inv i p (err e) q h = add_errors-Inv (i + 1) p (some e) (wider i p h)
  add_finding-Inv i p (ok f) q h = record {
    counts = h.counts;
    below_limit = h.below_limit;
    findings = FindingsWithin-end 0 i p.encrypted f q h.findings;
  }

  Inv-if :
      (i : ℕ) (t : Bool) (p q : Pkcs12Parser X) → Inv i p → Inv i q → Inv i (if t then p else q)
  Inv-if i true p q h k = h
  Inv-if i false p q h k = k

  read_content-Inv :
      (i : ℕ) (r : Result (Oid × RawValue)) (p : Pkcs12Parser X)
      → Inv i p
      → Inv (i + 1) (read_content asn1 parse_certificate i r p)
  unfolding read_content
  read_content-Inv i (err e) p h = add_errors-Inv (i + 1) p (some _) (wider i p h)
  read_content-Inv i (ok (kind, value)) p h =
      Inv-if (i + 1) (is_oid kind oid_pkcs7_data) _ _
        (read_data-Inv i p
          (wrap_err "content %d data: %w" (num i ∷ []) (explicit_octets asn1 value)) h)
        (Inv-if (i + 1) (is_oid kind oid_pkcs7_encrypted_data) _ _
          (add_finding-Inv i p
            (wrap_err "content %d encryptedData: %w" (num i ∷ [])
              (parse_encrypted_content asn1 value i))
            (Post-wrap (λ f. f.content_index ≡ i) "content %d encryptedData: %w" (num i ∷ [])
              (parse_encrypted_content asn1 value i) (parse_encrypted_content-index asn1 i value))
            h)
          (add_errors-Inv (i + 1) p (some (unsupported asn1 parse_certificate i kind))
            (wider i p h)))

  read_contents-Inv :
      (vs : List RawValue) (i : ℕ) (p : Pkcs12Parser X)
      → Inv i p
      → Inv (i + length vs) (read_contents asn1 parse_certificate i vs p)
  unfolding read_contents
  read_contents-Inv [] i p h = let e : i + 0 ≡ i = omega arith in rw e h
  read_contents-Inv (v ∷ vs) i p h =
      let e : i + suc (length vs) ≡ i + 1 + length vs = omega arith in
      rw e (
        read_contents-Inv vs (i + 1)
          (read_content asn1 parse_certificate i (parse_content_info asn1 v) p)
          (read_content-Inv i (parse_content_info asn1 v) p h))

  -- What is returned: no more than 10000 certificates, all or none of them marked as those of a
  -- truststore, and marked only without encrypted contents; findings in the order of their contents.
  pub record IsReport (cs : List (Pkcs12Certificate X)) (found : List Pkcs12EncryptedContent)
      (bound : ℕ) : Type 0 where
    few : length cs ≤ max_bags
    mark : Bool
    marked : All (λ c. c.keystore.truststore ≡ mark) cs
    mark_clear : mark ≡ true → found ≡ []
    findings : FindingsWithin 0 bound found

  mark-All :
      (t : Bool) (cs : List (Pkcs12Certificate X))
      → All (λ c. c.keystore.truststore ≡ t) (map (mark_truststore asn1 parse_certificate t) cs)
  mark-All t [] = tt
  mark-All t (c ∷ cs) = (refl, mark-All t cs)

  length-map :
      (f : Pkcs12Certificate X → Pkcs12Certificate X) (cs : List (Pkcs12Certificate X))
      → length (map f cs) ≡ length cs
  length-map f [] = refl
  length-map f (c ∷ cs) = ap suc (length-map f cs)

  truststore-clear :
      (p : Pkcs12Parser X) → is_truststore asn1 parse_certificate p ≡ true → p.encrypted ≡ []
  truststore-clear p h = nil (p.encrypted) (ground arith)
    where
      nil : (fs : List Pkcs12EncryptedContent) → is_nil fs ≡ true → fs ≡ []
      nil [] e = refl
      nil (f ∷ fs) e = absurd (cc)

  finish-IsReport :
      (n : ℕ) (p : Pkcs12Parser X)
      → Inv n p
      → (let r = finish asn1 parse_certificate p in IsReport r.0 r.1 n)
  unfolding finish
  finish-IsReport n p h =
      let t = is_truststore asn1 parse_certificate p in
      record {
        few =
            rw (length-map (mark_truststore asn1 parse_certificate t) p.certificates)
              (omega (arith, h.below_limit));
        mark = t;
        marked = mark-All t p.certificates;
        mark_clear = truststore-clear p;
        findings = h.findings;
      }

  abbrev Few : List RawValue → Type 0
  Few vs = length vs ≤ 256

  pfx_fields-Few :
      (version safe : RawValue) → Post Few (pfx_fields asn1 parse_certificate version safe)
  unfolding pfx_fields authenticated_safe safe_contents
  pfx_fields-Few version safe =
      Post-after Few (wrap_err "PFX version: %w" [] (raw_integer asn1 version)) _ (λ n.
        Post-if Few (not (is_integer n 3)) _ _ tt (
          Post-after Few (wrap_err "PFX authSafe: %w" [] (parse_content_info asn1 safe)) _
            (λ (kind, value). Post-if Few (not (is_oid kind oid_pkcs7_data)) _ _ tt (
              Post-after Few (wrap_err "PFX authSafe data: %w" [] (explicit_octets asn1 value)) _
                (λ octets.
                  raw_sequence_elements-few asn1 octets (codes "AuthenticatedSafe") 256)))))

  pfx_elements-Few : (es : List RawValue) → Post Few (pfx_elements asn1 parse_certificate es)
  unfolding pfx_elements
  pfx_elements-Few [] = tt
  pfx_elements-Few (a ∷ []) = tt
  pfx_elements-Few (a ∷ b ∷ []) = pfx_fields-Few a b
  pfx_elements-Few (a ∷ b ∷ c ∷ []) = pfx_fields-Few a b
  pfx_elements-Few (a ∷ b ∷ c ∷ d ∷ es) = tt

  FindingsWithin-more :
      (low high more : ℕ) (fs : List Pkcs12EncryptedContent)
      → high ≤ more
      → FindingsWithin low high fs
      → FindingsWithin low more fs
  FindingsWithin-more low high more [] h k = omega arith
  FindingsWithin-more low high more (f ∷ fs) h k =
      (k.0, FindingsWithin-more (f.content_index + 1) high more fs h k.1)

  parsed_or-IsReport :
      (r : Result (List RawValue))
      → Post Few r
      → (let q = parsed_or asn1 parse_certificate r in IsReport q.0 q.1 256)
  unfolding parsed_or
  parsed_or-IsReport (err e) h = record {
    few = omega arith;
    mark = false;
    marked = tt;
    mark_clear = λ z. cc;
    findings = omega arith;
  }
  parsed_or-IsReport (ok vs) h =
      let p = read_contents asn1 parse_certificate 0 vs (new_parser asn1 parse_certificate) in
      let start : Inv 0 (new_parser asn1 parse_certificate) = record {
        counts = omega arith;
        below_limit = omega arith;
        findings = omega arith;
      } in
      let r =
        finish-IsReport (0 + length vs) p
          (read_contents-Inv vs 0 (new_parser asn1 parse_certificate) start) in
      record {
        few = r.few;
        mark = r.mark;
        marked = r.marked;
        mark_clear = r.mark_clear;
        findings = FindingsWithin-more 0 (0 + length vs) 256 p.encrypted (omega arith) r.findings;
      }

  -- For any bytes and any `asn1.Unmarshal`: `parsePKCS12` returns no more than 10000 certificates, all
  -- or none of them marked as those of a truststore, and marked only if there is no encrypted content.
  -- Its findings have growing content indices below 256.
  pub parse_pkcs12-IsReport :
      (bytes : Bytes) → (let q = parse_pkcs12 asn1 parse_certificate bytes in IsReport q.0 q.1 256)
  unfolding parse_pkcs12
  parse_pkcs12-IsReport bytes =
      parsed_or-IsReport _
        (Post-after Few (raw_sequence_elements asn1 bytes (codes "PFX") 3) _ pfx_elements-Few)
