-- ===== src/Groups/Summary.antt =====
-- The counts of main.go and their summary in duplicates.go, and `-duplicates`.
use certfinder.Base.Text.{bytes_eq, bytes_eq_iff}
use certfinder.Base.{
  ℕ, ◌+◌, ◌-◌, ◌<◌, ◌≡◌, ◌≢◌, refl, ◌∙◌, Option, none, some, List, [], ◌∷◌, Bytes, All, length, ltb,
  if◌then◌else◌, Bool-cases, inl, inr, arith,
}
use certfinder.Base.Order.Sort.{sort}
use certfinder.Groups.Grouping.{
  fingerprint, locations_of, occurrences, AreDistinct, group_certificates-IsGrouping,
}
use certfinder.Groups.{
  CertificateGroup, lookup, count_identity, CertificateIdentitySummary, summarize_counts,
  summarize_certificate_identities, duplicate_certificate_groups, group_certificates,
}
use certfinder.Model.{Certificate, compare_position, certificate_position}

abbrev pub count_or_zero : Option ℕ → ℕ
count_or_zero none = 0
count_or_zero (some n) = n

lookup-count_identity :
    (j k : Bytes) (m : List (Bytes × ℕ))
    → count_or_zero (lookup k (count_identity j m))
      ≡ count_or_zero (lookup k m) + (if bytes_eq j k then 1 else 0)
unfolding lookup count_identity
lookup-count_identity j k [] = ground arith
lookup-count_identity j k ((i, n) ∷ m) =
    ground
      (arith, lookup-count_identity j k m, bytes_eq_iff i j, bytes_eq_iff i k, bytes_eq_iff j k)

module _ {X : Type 0} where
  -- The counts after every matching certificate was seen.
  unfoldable pub count_all : List (Certificate X) → List (Bytes × ℕ) → List (Bytes × ℕ)
  unfolding count_identity
  count_all [] m = m
  count_all (c ∷ cs) m = count_all cs (count_identity c.sha256_fingerprint m)

  lookup-count_all :
      (k : Bytes) (cs : List (Certificate X)) (m : List (Bytes × ℕ))
      → count_or_zero (lookup k (count_all cs m))
        ≡ count_or_zero (lookup k m) + length (occurrences k cs)
  unfolding count_all
  lookup-count_all k [] m = omega arith
  lookup-count_all k (c ∷ cs) m = ground (
    arith,
    lookup-count_all k cs (count_identity c.sha256_fingerprint m),
    lookup-count_identity c.sha256_fingerprint k m,
  )

-- All counts together, and that none of them is zero.
total : List (Bytes × ℕ) → ℕ
total [] = 0
total ((k, n) ∷ m) = n + total m

abbrev ArePositive : List (Bytes × ℕ) → Type 0
ArePositive = All (λ (k, n). 0 < n)

count_identity-total : (k : Bytes) (m : List (Bytes × ℕ)) → total (count_identity k m) ≡ total m + 1
unfolding total count_identity
count_identity-total k [] = refl
count_identity-total k ((j, n) ∷ m) = ground (arith, count_identity-total k m)

count_identity-ArePositive :
    (k : Bytes) (m : List (Bytes × ℕ)) → ArePositive m → ArePositive (count_identity k m)
unfolding count_identity
count_identity-ArePositive k [] h = (omega arith, tt)
count_identity-ArePositive k ((j, n) ∷ m) h = ground (arith, count_identity-ArePositive k m h.1)

-- The loop adds each count once, and of each all but one as a duplicate.
summarize_counts-total :
    (m : List (Bytes × ℕ)) (s : CertificateIdentitySummary)
    → ArePositive m
    → ((summarize_counts m s).matched ≡ s.matched + total m)
      × ((summarize_counts m s).unique ≡ s.unique)
      × ((summarize_counts m s).duplicate_occurrences + length m
          ≡ s.duplicate_occurrences + total m)
unfolding summarize_counts total
summarize_counts-total [] s h = (omega arith, refl, omega arith)
summarize_counts-total ((k, n) ∷ m) s h = ground (
  arith,
  summarize_counts-total m
      (record s {
        matched = s.matched + n;
        duplicate_occurrences =
            if ltb 1 n then s.duplicate_occurrences + (n - 1) else s.duplicate_occurrences;
      })
      h.1,
)

module _ {X : Type 0} where
  count_all-total :
      (cs : List (Certificate X)) (m : List (Bytes × ℕ))
      → ArePositive m
      → (total (count_all cs m) ≡ total m + length cs) × ArePositive (count_all cs m)
  unfolding count_all
  count_all-total [] m h = (omega arith, h)
  count_all-total (c ∷ cs) m h =
      let (t, p) =
        count_all-total cs (count_identity c.sha256_fingerprint m)
          (count_identity-ArePositive c.sha256_fingerprint m h) in
      (omega (arith, t, count_identity-total c.sha256_fingerprint m), p)

  -- The number of certificates, of fingerprints and of the certificates beyond the first of each.
  pub record IsSummary (cs : List (Certificate X)) (counts : List (Bytes × ℕ))
      (s : CertificateIdentitySummary) : Type 0 where
    pub counted : (k : Bytes) → count_or_zero (lookup k counts) ≡ length (occurrences k cs)
    pub matched_is : s.matched ≡ length cs
    pub unique_is : s.unique ≡ length counts
    pub duplicates_are : s.duplicate_occurrences + s.unique ≡ s.matched

  -- After counting some certificates, a fingerprint's count is the number of certificates that have
  -- it, the summary has matched all of them, has one unique fingerprint for each entry of the counts, and calls
  -- the rest duplicate occurrences.
  pub summarize-IsSummary :
      (cs : List (Certificate X))
      → IsSummary cs (count_all cs []) (summarize_certificate_identities (count_all cs []))
  unfolding summarize_certificate_identities
  summarize-IsSummary cs =
      let counts = count_all cs [] in
      let (t, p) = count_all-total cs [] tt in
      let (m, u, d) =
        summarize_counts-total counts
          (record { matched = 0; unique = length counts; duplicate_occurrences = 0 }) p in
      record {
        counted = λ k. lookup-count_all k cs [] ∙ unfold lookup in omega arith;
        matched_is = unfold total in omega (arith, m, t);
        unique_is = u;
        duplicates_are = omega (arith, m, u, d);
      }

  -- The groups that stay have no fingerprint that was not there before.
  duplicates-new :
      (k : Bytes) (gs : List (CertificateGroup X))
      → All (λ g. fingerprint g ≢ k) gs
      → locations_of k (duplicate_certificate_groups gs) ≡ []
  unfolding duplicate_certificate_groups
  duplicates-new k [] h = refl
  duplicates-new k (g ∷ gs) h =
      ground (arith, duplicates-new k gs h.1, bytes_eq_iff (fingerprint g) k)

  duplicates-locations :
      (k : Bytes) (gs : List (CertificateGroup X))
      → AreDistinct gs
      → locations_of k (duplicate_certificate_groups gs)
        ≡ (if ltb 1 (length (locations_of k gs)) then locations_of k gs else [])
  unfolding duplicate_certificate_groups
  duplicates-locations k [] h = refl
  duplicates-locations k (g ∷ gs) h = elim (Bool-cases (bytes_eq (fingerprint g) k)) [
    | inl same ↦
        ground (arith, duplicates-new (fingerprint g) gs h.0, bytes_eq_iff (fingerprint g) k)
    | inr other ↦ ground (arith, duplicates-locations k gs h.1)
  ]

  -- With `-duplicates` a fingerprint is reported with all its locations if two certificates or more
  -- have it, and else not at all.
  pub duplicate_group_certificates-locations :
      (cs : List (Certificate X)) (k : Bytes)
      → (let found = occurrences k (sort certificate_position compare_position cs) in
          locations_of k (duplicate_certificate_groups (group_certificates cs))
          ≡ (if ltb 1 (length found) then found else []))
  duplicate_group_certificates-locations cs k =
      let v = group_certificates-IsGrouping cs in
      duplicates-locations k (group_certificates cs) v.distinct ∙ rw (v.located k)
