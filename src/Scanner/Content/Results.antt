-- ===== src/Scanner/Content/Results.antt =====
-- What `scanContentData` of internal/scanner/scanner.go returns.
use certfinder.Base.{
  ℕ, ◌+◌, ◌≤◌, ◌≡◌, ◌≢◌, refl, Bool, true, false, Option, none, some, List, [], ◌∷◌, map, Bytes,
  All, if◌then◌else◌, arith,
}
use certfinder.Model.{Certificate, Pkcs12EncryptedContent, KeystoreInfo}
use certfinder.Scanner.Content.{
  Outcome, Entry, Parsers, empty_outcome, scan_outcome, add_entry, describe_entries, describe_all,
  with_path, or_nothing, scan_plain, scan_content_data,
}

module _ {X : Type 0} (p : Parsers X) (path : Bytes) where
  -- Certificates of the file at `path` with growing indices from `i` on.
  abbrev AreIndexed : ℕ → List (Certificate X) → Type 0
  AreIndexed i [] = Unit
  AreIndexed i (c ∷ cs) = (c.path ≡ path) × (i ≤ c.index) × AreIndexed (c.index + 1) cs

  -- What `describe` writes into a certificate.
  abbrev Describes : Type 0
  Describes =
      (i : ℕ) (x : X) → ((p.describe path i x).path ≡ path) × ((p.describe path i x).index ≡ i)

  AreIndexed-weaken :
      (i j : ℕ) (cs : List (Certificate X)) → j ≤ i → AreIndexed i cs → AreIndexed j cs
  AreIndexed-weaken i j [] h k = tt
  AreIndexed-weaken i j (c ∷ cs) h k = (k.0, omega (arith, k.1), k.2)

  -- What a file's outcome is, for bytes that are the whole file or not.
  pub record IsResult (complete : Bool) (r : Outcome X × Bool) : Type 0 where
    indexed : AreIndexed 0 r.0.certificates
    findings : All (λ c. c.path ≡ path) r.0.pkcs12_encrypted
    whole : complete ≡ true → (r.1 ≡ false) × (r.0.capped ≡ false)
    part : complete ≡ false → (r.0.error ≡ none) × (r.0.pkcs12_encrypted ≡ []) × (r.0.capped ≢ r.1)
    cut : r.0.capped ≡ true → r.0.certificates ≡ []

  module _ (law : Describes) where
    add_entry-AreIndexed :
        (i : ℕ) (o : Option X) (k : KeystoreInfo) (rest : List (Certificate X))
        → AreIndexed (i + 1) rest
        → AreIndexed i (add_entry p path i o k rest)
    add_entry-AreIndexed i none k rest h = AreIndexed-weaken (i + 1) i rest (omega arith) h
    add_entry-AreIndexed i (some x) k rest h =
        let (same, at) = law i x in (same, omega arith, rw at h)

    describe_entries-AreIndexed :
        (i : ℕ) (es : List (Entry X)) → AreIndexed i (describe_entries p path i es)
    unfolding describe_entries
    describe_entries-AreIndexed i [] = tt
    describe_entries-AreIndexed i (e ∷ es) =
        add_entry-AreIndexed i e.certificate e.keystore (describe_entries p path (i + 1) es)
          (describe_entries-AreIndexed (i + 1) es)

    describe_all-AreIndexed : (i : ℕ) (xs : List X) → AreIndexed i (describe_all p path i xs)
    unfolding describe_all
    describe_all-AreIndexed i [] = tt
    describe_all-AreIndexed i (x ∷ xs) =
        let (same, at) = law i x in (same, omega arith, rw at (describe_all-AreIndexed (i + 1) xs))

    with_path-All :
        (cs : List Pkcs12EncryptedContent) → All (λ c. c.path ≡ path) (map (with_path p path) cs)
    with_path-All [] = tt
    with_path-All (c ∷ cs) = (refl, with_path-All cs)

    IsResult-if :
        (complete t : Bool) (a b : Outcome X × Bool)
        → (t ≡ true → IsResult complete a)
        → (t ≡ false → IsResult complete b)
        → IsResult complete (if t then a else b)
    IsResult-if complete true a b h k = h refl
    IsResult-if complete false a b h k = k refl

    keystore-IsResult :
        (es : List (Entry X)) (cs : List Pkcs12EncryptedContent) (e : Option _)
        → All (λ c. c.path ≡ path) cs
        → IsResult true (scan_outcome (describe_entries p path 0 es) cs false e, false)
    keystore-IsResult es cs e h = record {
      indexed = describe_entries-AreIndexed 0 es;
      findings = h;
      whole = λ _. (refl, refl);
      part = λ z. cc;
      cut = λ z. cc;
    }

    wanted-IsResult :
        (xs : List X) → IsResult false (scan_outcome (describe_all p path 0 xs) [] false none, true)
    wanted-IsResult xs = record {
      indexed = describe_all-AreIndexed 0 xs;
      findings = tt;
      whole = λ z. cc;
      part = λ _. (refl, refl, λ z. cc);
      cut = λ z. cc;
    }

    done-IsResult :
        (xs : List X) → IsResult true (scan_outcome (describe_all p path 0 xs) [] false none, false)
    done-IsResult xs = record {
      indexed = describe_all-AreIndexed 0 xs;
      findings = tt;
      whole = λ _. (refl, refl);
      part = λ z. cc;
      cut = λ z. cc;
    }

    plain-IsResult :
        (bytes : Bytes) (complete : Bool) (parsed : List X)
        → IsResult complete (scan_plain p path bytes complete parsed)
    unfolding scan_plain
    plain-IsResult bytes true [] = done-IsResult (or_nothing p path (p.parse_der bytes))
    plain-IsResult bytes false [] = record {
      indexed = tt;
      findings = tt;
      whole = λ z. cc;
      part = λ _. (refl, refl, λ z. cc);
      cut = λ _. refl;
    }
    plain-IsResult bytes true (x ∷ xs) = done-IsResult (x ∷ xs)
    plain-IsResult bytes false (x ∷ xs) = wanted-IsResult (x ∷ xs)

    asked-IsResult : IsResult false (empty_outcome, true)
    unfolding describe_all
    asked-IsResult = wanted-IsResult []

    -- All the ways through `scanContentData`: its certificates have the path of the file and growing
    -- indices, also where entries of a keystore are left out, and its findings have the path. The
    -- whole file is neither asked for again nor capped. A part of a file gives no error and no
    -- finding, and is either capped, and then without certificates, or wanted in full.
    pub scan_content_data-IsResult :
        (bytes : Bytes) (complete : Bool)
        → IsResult complete (scan_content_data p path bytes complete)
    unfolding scan_content_data
    scan_content_data-IsResult bytes true =
        IsResult-if true (p.detect_java_keystore bytes) _ _
          (λ _.
            keystore-IsResult (p.parse_java_keystore bytes).0 [] (p.parse_java_keystore bytes).1 tt)
          (λ _.
            IsResult-if true (p.detect_pkcs12 bytes) _ _
              (λ _.
                keystore-IsResult (p.parse_pkcs12 bytes).0 _ (p.parse_pkcs12 bytes).2
                  (with_path-All (p.parse_pkcs12 bytes).1))
              (λ _. plain-IsResult bytes true (p.parse_pem bytes)))
    scan_content_data-IsResult bytes false =
        IsResult-if false (p.detect_java_keystore bytes) _ _ (λ _. asked-IsResult)
          (λ _.
            IsResult-if false (p.detect_pkcs12 bytes) _ _ (λ _. asked-IsResult)
              (λ _. plain-IsResult bytes false (p.parse_pem bytes)))
