-- ===== src/Pkcs12/Contents/Bounds.antt =====
-- The counters and chain indices that `parseSafeContents` of internal/scanner/pkcs12.go keeps.
use certfinder.Base.{
  ℕ, zero, suc, ◌+◌, ◌≤◌, ◌≡◌, refl, sym, Bool, true, false, Option, none, some, List, [], ◌∷◌,
  ◌++◌, Bytes, length, length-append, append_assoc, append-nil, ltb, if◌then◌else◌, Bool-cases, inl,
  inr, GoError, Result, ok, err, wrap_err, num, arith,
}
use certfinder.Model.{Pkcs12EncryptedContent}
use certfinder.Base.Text.{codes}
use certfinder.Pkcs12.Asn1.{RawValue, Asn1, raw_sequence_elements}
use certfinder.Pkcs12.Bag.{SafeBag, parse_safe_bag, parse_friendly_name}
use certfinder.Pkcs12.Contents.{
  Pkcs12Certificate, Pkcs12Parser, max_bags, Walk, kind_of_bag, with_error, error_of, value_or,
  keystore_at, add_certificate, certificate_in, keep_certificate, certificate_bag, after_nested,
  key_bag, dispatch, read_bag, counted, read_bags, bags_of, parse_safe_contents,
}

-- Certificates whose chain indices grow from `low` on and stay below `high`.
abbrev pub Ascending : {X : Type 0} → ℕ → ℕ → List (Pkcs12Certificate X) → Type 0
Ascending low high [] = low ≤ high
Ascending low high (c ∷ cs) =
    (low ≤ c.keystore.chain_index) × Ascending (c.keystore.chain_index + 1) high cs

module _ {X : Type 0} where
  Ascending-wider :
      (low high high' : ℕ) (cs : List (Pkcs12Certificate X))
      → high ≤ high'
      → Ascending low high cs
      → Ascending low high' cs
  Ascending-wider low high high' [] h a = omega arith
  Ascending-wider low high high' (c ∷ cs) h a =
      (a.0, Ascending-wider (c.keystore.chain_index + 1) high high' cs h a.1)

  Ascending-end :
      (low high : ℕ) (cs : List (Pkcs12Certificate X)) (c : Pkcs12Certificate X)
      → c.keystore.chain_index ≡ high
      → Ascending low high cs
      → Ascending low (high + 1) (cs ++ c ∷ [])
  Ascending-end low high [] c e a = (omega arith, omega arith)
  Ascending-end low high (d ∷ cs) c e a =
      (a.0, Ascending-end (d.keystore.chain_index + 1) high cs c e a.1)

module _ {X : Type 0} (asn1 : Asn1) (parse_certificate : Bytes → Result X) where
  -- The parser after some bags, against the certificates `base` that it started with: what was added
  -- stands behind them with growing chain indices below `*chainIndex`, and the certificates and key bags
  -- are no more than the bags that were counted and than `limit`.
  pub record Extends (base : List (Pkcs12Certificate X)) (found : List Pkcs12EncryptedContent)
      (spare : ℕ) (s : Walk X) : Type 0 where
    pub added : List (Pkcs12Certificate X)
    pub split : s.0.certificates ≡ base ++ added
    pub same_findings : s.0.encrypted ≡ found
    pub ascending : Ascending 0 s.1 added
    pub counts : length s.0.certificates + s.0.key_bag_count + spare ≤ s.0.bag_count
    pub below_limit : length s.0.certificates + s.0.key_bag_count + spare ≤ max_bags

  module _ (base : List (Pkcs12Certificate X)) (found : List Pkcs12EncryptedContent) where
    lower : (n : ℕ) (s : Walk X) → Extends base found (n + 1) s → Extends base found n s
    lower n s h = record {
      added = h.added;
      split = h.split;
      same_findings = h.same_findings;
      ascending = h.ascending;
      counts = omega (arith, h.counts);
      below_limit = omega (arith, h.below_limit);
    }

    next_index :
        (p : Pkcs12Parser X) (c : ℕ) → Extends base found 1 (p, c) → Extends base found 1 (p, c + 1)
    next_index p c h = record {
      added = h.added;
      split = h.split;
      same_findings = h.same_findings;
      ascending = Ascending-wider 0 c (c + 1) h.added (omega arith) h.ascending;
      counts = h.counts;
      below_limit = h.below_limit;
    }

    add_certificate-Extends :
        (name : Bytes) (x : X) (p : Pkcs12Parser X) (c : ℕ)
        → Extends base found 1 (p, c)
        → Extends base found 0 (add_certificate asn1 parse_certificate name c x (p, c + 1))
    add_certificate-Extends name x p c h =
        let new : Pkcs12Certificate X = record {
          certificate = x;
          keystore = keystore_at asn1 parse_certificate name c;
        } in
        record {
          added = h.added ++ new ∷ [];
          split = rw h.split (append_assoc base h.added (new ∷ []));
          same_findings = h.same_findings;
          ascending = Ascending-end 0 c h.added new refl h.ascending;
          counts = omega (arith, h.counts, length-append p.certificates (new ∷ []));
          below_limit = omega (arith, h.below_limit, length-append p.certificates (new ∷ []));
        }

    keep_certificate-Extends :
        (name : Bytes) (es : List GoError) (p : Pkcs12Parser X) (c : ℕ) (r : Result X)
        → Extends base found 1 (p, c)
        → Extends base found 0 (keep_certificate asn1 parse_certificate name c (es, (p, c + 1)) r).1
    keep_certificate-Extends name es p c (ok x) h = add_certificate-Extends name x p c h
    keep_certificate-Extends name es p c (err e) h = lower 0 (p, c + 1) (next_index p c h)

    counted-Extends :
        (p : Pkcs12Parser X) (c : ℕ)
        → Extends base found 0 (p, c)
        → Extends base found 0 (counted asn1 parse_certificate (p, c))
    counted-Extends p c h = record {
      added = h.added;
      split = h.split;
      same_findings = h.same_findings;
      ascending = h.ascending;
      counts = omega (arith, h.counts);
      below_limit = h.below_limit;
    }

    room :
        (p : Pkcs12Parser X) (c : ℕ)
        → ltb max_bags (p.bag_count + 1) ≡ false
        → Extends base found 0 (p, c)
        → Extends base found 1 (counted asn1 parse_certificate (p, c))
    room p c few h = record {
      added = h.added;
      split = h.split;
      same_findings = h.same_findings;
      ascending = h.ascending;
      counts = omega (arith, h.counts);
      below_limit = ground (arith, h.counts);
    }

    with_error-Extends :
        (name : Bytes) (es : List GoError) (p : Pkcs12Parser X) (c : ℕ) (o : Option GoError)
        (r : Result X)
        → Extends base found 1 (p, c)
        → Extends base found 0
            (keep_certificate asn1 parse_certificate name c (with_error (es, (p, c + 1)) o) r).1
    with_error-Extends name es p c none r h = keep_certificate-Extends name es p c r h
    with_error-Extends name es p c (some e) r h =
        keep_certificate-Extends name (es ++ e ∷ []) p c r h

    certificate_bag-Extends :
        (i : ℕ) (bag : SafeBag) (es : List GoError) (p : Pkcs12Parser X) (c : ℕ)
        → Extends base found 1 (p, c)
        → Extends base found 0 (certificate_bag asn1 parse_certificate i bag (es, (p, c))).1
    unfolding certificate_bag
    certificate_bag-Extends i bag es p c h =
        let name =
          wrap_err "bag %d friendlyName: %w" (num i ∷ [])
            (parse_friendly_name asn1 bag.attributes) in
        with_error-Extends (value_or [] name) es p c (error_of name)
          (certificate_in asn1 parse_certificate i bag.value) h

    after_nested-Extends :
        (i : ℕ) (es : List GoError) (r : Option GoError × Walk X)
        → Extends base found 0 r.1
        → Extends base found 0 (after_nested asn1 parse_certificate i es r).1
    after_nested-Extends i es (none, s) h = h
    after_nested-Extends i es (some e, s) h = h

    key_bag-Extends :
        (es : List GoError) (p : Pkcs12Parser X) (c : ℕ)
        → Extends base found 1 (p, c)
        → Extends base found 0 (key_bag asn1 parse_certificate (es, (p, c))).1
    key_bag-Extends es p c h = record {
      added = h.added;
      split = h.split;
      same_findings = h.same_findings;
      ascending = h.ascending;
      counts = omega (arith, h.counts);
      below_limit = omega (arith, h.below_limit);
    }

    Extends-if :
        (n : ℕ) (t : Bool) {A : Type 0} (r r' : A × Walk X)
        → Extends base found n r.1
        → Extends base found n r'.1
        → Extends base found n (if t then r else r').1
    Extends-if n true r r' h k = h
    Extends-if n false r r' h k = k

    -- What one level deeper does with the parser
    abbrev Keeps : (Bytes → Walk X → Option GoError × Walk X) → Type 0
    Keeps nested =
        (bytes : Bytes) (s : Walk X)
        → Extends base found 0 s
        → Extends base found 0 (nested bytes s).1

    module _ (nested : Bytes → Walk X → Option GoError × Walk X) (keeps : Keeps nested) where
      dispatch-Extends :
          (i : ℕ) (bag : SafeBag) (es : List GoError) (p : Pkcs12Parser X) (c : ℕ)
          → Extends base found 1 (p, c)
          → Extends base found 0 (dispatch asn1 parse_certificate nested i bag (es, (p, c))).1
      unfolding dispatch
      dispatch-Extends i bag es p c h =
          let (is_key, is_certificate, is_contents) = kind_of_bag bag.id in
          Extends-if 0 is_key _ _ (key_bag-Extends es p c h) (
            Extends-if 0 is_certificate _ _ (certificate_bag-Extends i bag es p c h) (
              Extends-if 0 is_contents _ _
                (after_nested-Extends i es (nested bag.value.bytes (p, c))
                  (keeps bag.value.bytes (p, c) (lower 0 (p, c) h)))
                (lower 0 (p, c) h)))

      read_bag-Extends :
          (i : ℕ) (r : Result SafeBag) (es : List GoError) (p : Pkcs12Parser X) (c : ℕ)
          → Extends base found 1 (p, c)
          → Extends base found 0 (read_bag asn1 parse_certificate nested i r (es, (p, c))).1
      read_bag-Extends i (ok bag) es p c h = dispatch-Extends i bag es p c h
      read_bag-Extends i (err e) es p c h = lower 0 (p, c) h

      read_bags-Extends :
          (bags : List RawValue) (i : ℕ) (es : List GoError) (p : Pkcs12Parser X) (c : ℕ)
          → Extends base found 0 (p, c)
          → Extends base found 0 (read_bags asn1 parse_certificate nested i bags (es, (p, c))).1
      unfolding read_bags
      read_bags-Extends [] i es p c h = h
      read_bags-Extends (b ∷ bags) i es p c h = elim (Bool-cases (ltb max_bags (p.bag_count + 1))) [
        | inl many ↦ rw many (counted-Extends p c h)
        | inr few ↦ rw few (
            let r =
              read_bag asn1 parse_certificate nested i (parse_safe_bag asn1 b)
                (es, counted asn1 parse_certificate (p, c)) in
            read_bags-Extends bags (i + 1) r.0 r.1.0 r.1.1 (
              read_bag-Extends i (parse_safe_bag asn1 b) es
                (record p { bag_count = p.bag_count + 1 }) c (room p c few h)))
      ]

      bags_of-Extends :
          (r : Result (List RawValue)) (s : Walk X)
          → Extends base found 0 s
          → Extends base found 0 (bags_of asn1 parse_certificate nested r s).1
      bags_of-Extends (err e) s h = h
      bags_of-Extends (ok bags) s h = read_bags-Extends bags 0 [] s.0 s.1 h

    safe_contents-Extends :
        (levels : ℕ) → Keeps (λ bytes s. parse_safe_contents asn1 parse_certificate levels bytes s)
    unfolding parse_safe_contents
    safe_contents-Extends zero bytes s h = h
    safe_contents-Extends (suc levels) bytes s h =
        bags_of-Extends (λ b t. parse_safe_contents asn1 parse_certificate levels b t)
          (safe_contents-Extends levels)
          (raw_sequence_elements asn1 bytes (codes "SafeContents") (max_bags + 1)) s h

  -- `parseSafeContents` at any depth, from a parser whose certificates and key bags are within its
  -- bag count and the limit of 10000, keeps them so, and keeps the certificates that were there. The
  -- ones that it adds have different chain indices, growing in their order and below `*chainIndex`.
  pub parse_safe_contents-Extends :
      (levels : ℕ) (encoded : Bytes) (p : Pkcs12Parser X)
      → length p.certificates + p.key_bag_count ≤ p.bag_count
      → length p.certificates + p.key_bag_count ≤ max_bags
      → Extends p.certificates p.encrypted 0
          (parse_safe_contents asn1 parse_certificate levels encoded (p, 0)).1
  parse_safe_contents-Extends levels encoded p h k =
      safe_contents-Extends p.certificates p.encrypted levels encoded (p, 0)
        (record {
          added = [];
          split = sym (append-nil p.certificates);
          same_findings = refl;
          ascending = omega arith;
          counts = omega arith;
          below_limit = omega arith;
        })
