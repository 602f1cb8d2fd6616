-- ===== src/Groups.antt =====
-- duplicates.go: the certificates of a scan grouped by SHA-256 fingerprint, the groups with more
-- than one location, and the summary of how often each fingerprint was met.
pub mod Grouping
pub mod Summary
mod Tests
use certfinder.Base.Order.Sort.{sort}
use certfinder.Base.Order.{compare_list}
use certfinder.Base.Text.{bytes_eq}
use certfinder.Base.{
  ℕ, zero, suc, ◌+◌, ◌-◌, Option, none, some, List, [], ◌∷◌, ◌++◌, Bytes, length, ltb,
  if◌then◌else◌,
}
use certfinder.Model.{Certificate, KeystoreInfo, compare_position, certificate_position}

-- `keystore` holds the fields of `jsonKeystoreInfo`, which are those of `KeystoreInfo`.
pub record CertificateLocation : Type 0 where
  pub path : Bytes
  pub archive_entries : List Bytes
  pub index : ℕ
  pub keystore : Option KeystoreInfo

pub record CertificateGroup (X : Type 0) : Type 0 where
  pub certificate : Certificate X
  pub locations : List CertificateLocation

-- A map of the source as its bindings; `lookup` finds a key's binding.
module _ {V : Type 0} where
  unfoldable pub lookup : Bytes → List (Bytes × V) → Option V
  unfolding bytes_eq
  lookup k [] = none
  lookup k ((j, v) ∷ m) = if bytes_eq j k then some v else lookup k m

-- `groups` and `groupByFingerprint`
abbrev pub Grouped : Type 0 → Type 0
Grouped X = List (CertificateGroup X) × List (Bytes × ℕ)

module _ {X : Type 0} where
  abbrev pub location : Certificate X → CertificateLocation
  location c = record {
    path = c.path;
    archive_entries = c.archive_entries;
    index = c.index;
    keystore = c.keystore;
  }

  -- `groups[i].Locations = append(groups[i].Locations, …)`
  unfoldable pub append_location :
      ℕ → CertificateLocation → List (CertificateGroup X) → List (CertificateGroup X)
  append_location i l [] = []
  append_location zero l (g ∷ gs) = record g { locations = g.locations ++ l ∷ [] } ∷ gs
  append_location (suc i) l (g ∷ gs) = g ∷ append_location i l gs

  -- The fingerprint's group is there at index `i`, or a new one is appended.
  unfoldable pub place : Certificate X → Grouped X → Option ℕ → Grouped X
  unfolding append_location
  place c (groups, by_fingerprint) (some i) =
      (append_location i (location c) groups, by_fingerprint)
  place c (groups, by_fingerprint) none = (
    append_location (length groups) (location c)
        (groups ++ record { certificate = c; locations = [] } ∷ []),
    (c.sha256_fingerprint, length groups) ∷ by_fingerprint,
  )

  -- One round of the loop over the sorted certificates.
  unfoldable pub group_certificate : Certificate X → Grouped X → Grouped X
  unfolding lookup place
  group_certificate c s = place c s (lookup c.sha256_fingerprint s.1)

  unfoldable pub group_all : List (Certificate X) → Grouped X → Grouped X
  unfolding group_certificate
  group_all [] s = s
  group_all (c ∷ cs) s = group_all cs (group_certificate c s)

  unfoldable pub group_certificates : List (Certificate X) → List (CertificateGroup X)
  unfolding group_all sort compare_list
  group_certificates cs = (group_all (sort certificate_position compare_position cs) ([], [])).0

  unfoldable pub duplicate_certificate_groups :
      List (CertificateGroup X) → List (CertificateGroup X)
  duplicate_certificate_groups [] = []
  duplicate_certificate_groups (g ∷ gs) =
      let rest = duplicate_certificate_groups gs in
      if ltb 1 (length g.locations) then g ∷ rest else rest

-- `identityCounts[certificate.SHA256Fingerprint]++` in main.go
unfoldable pub count_identity : Bytes → List (Bytes × ℕ) → List (Bytes × ℕ)
unfolding bytes_eq
count_identity k [] = (k, 1) ∷ []
count_identity k ((j, n) ∷ m) = if bytes_eq j k then (j, n + 1) ∷ m else (j, n) ∷ count_identity k m

pub record CertificateIdentitySummary : Type 0 where
  pub matched : ℕ
  pub unique : ℕ
  pub duplicate_occurrences : ℕ

summarize_counts : List (Bytes × ℕ) → CertificateIdentitySummary → CertificateIdentitySummary
summarize_counts [] s = s
summarize_counts ((k, n) ∷ m) s = summarize_counts m (record s {
  matched = s.matched + n;
  duplicate_occurrences =
      if ltb 1 n then s.duplicate_occurrences + (n - 1) else s.duplicate_occurrences;
})

unfoldable pub summarize_certificate_identities : List (Bytes × ℕ) → CertificateIdentitySummary
unfolding summarize_counts
summarize_certificate_identities counts =
    summarize_counts counts
      (record { matched = 0; unique = length counts; duplicate_occurrences = 0 })
