-- ===== src/Groups/Grouping.antt =====
-- What the groups of `groupCertificates` of duplicates.go hold.
use certfinder.Base.Order.Sort.{sort}
use certfinder.Base.Text.{bytes_eq, bytes_eq_iff}
use certfinder.Base.{
  ℕ, zero, suc, ◌≡◌, ◌≢◌, refl, sym, ap, ◌∙◌, Option, none, some, List, [], ◌∷◌, ◌++◌, Bytes,
  length, if◌then◌else◌, Bool-cases, inl, inr, arith, append_assoc, append-nil, All, append-nil,
  All,
}
use certfinder.Groups.{
  CertificateLocation, CertificateGroup, Grouped, lookup, location, append_location, place,
  group_certificate, group_all, group_certificates,
}
use certfinder.Model.{Certificate, compare_position, certificate_position}

module _ {X : Type 0} where
  abbrev pub fingerprint : CertificateGroup X → Bytes
  fingerprint g = g.certificate.sha256_fingerprint

  -- The place of the first group with this fingerprint.
  find_group : Bytes → List (CertificateGroup X) → Option ℕ
  find_group k [] = none
  find_group k (g ∷ gs) =
      if bytes_eq (fingerprint g) k
      then some 0
      else elim (find_group k gs) [ none ↦ none | some i ↦ some (suc i) ]

  -- The same round with no index: the location joins the first group with its fingerprint.
  join_group : Certificate X → List (CertificateGroup X) → List (CertificateGroup X)
  join_group c [] = record { certificate = c; locations = location c ∷ [] } ∷ []
  join_group c (g ∷ gs) =
      if bytes_eq (fingerprint g) c.sha256_fingerprint
      then record g { locations = g.locations ++ location c ∷ [] } ∷ gs
      else g ∷ join_group c gs

  append-join :
      (c : Certificate X) (gs : List (CertificateGroup X)) (i : ℕ)
      → find_group c.sha256_fingerprint gs ≡ some i
      → append_location i (location c) gs ≡ join_group c gs
  unfolding find_group append_location join_group
  append-join c [] i e = cc
  append-join c (g ∷ gs) zero e = ground (arith)
  append-join c (g ∷ gs) (suc i) e = ground (arith, append-join c gs i)

  append_new-join :
      (c : Certificate X) (gs : List (CertificateGroup X))
      → find_group c.sha256_fingerprint gs ≡ none
      → append_location
          (length gs)
          (location c)
          (gs ++ record { certificate = c; locations = [] } ∷ [])
        ≡ join_group c gs
  unfolding find_group append_location join_group
  append_new-join c [] e = refl
  append_new-join c (g ∷ gs) e = ground (arith, append_new-join c gs)

  -- The map holds the place of every group.
  abbrev IsIndexed : Grouped X → Type 0
  IsIndexed (gs, m) = (k : Bytes) → lookup k m ≡ find_group k gs

  find_group-append_location :
      (k : Bytes) (l : CertificateLocation) (i : ℕ) (gs : List (CertificateGroup X))
      → find_group k (append_location i l gs) ≡ find_group k gs
  unfolding find_group append_location
  find_group-append_location k l i [] = refl
  find_group-append_location k l zero (g ∷ gs) = refl
  find_group-append_location k l (suc i) (g ∷ gs) =
      ground (arith, find_group-append_location k l i gs)

  find_group-new :
      (k : Bytes) (c : Certificate X) (gs : List (CertificateGroup X))
      → find_group c.sha256_fingerprint gs ≡ none
      → find_group k (gs ++ record { certificate = c; locations = [] } ∷ [])
        ≡ (if bytes_eq c.sha256_fingerprint k then some (length gs) else find_group k gs)
  unfolding find_group
  find_group-new k c [] e = refl
  find_group-new k c (g ∷ gs) e = ground (
    arith,
    find_group-new k c gs,
    bytes_eq_iff c.sha256_fingerprint k,
    bytes_eq_iff (fingerprint g) k,
    bytes_eq_iff (fingerprint g) c.sha256_fingerprint,
  )

  place-IsIndexed :
      (c : Certificate X) (s : Grouped X) (o : Option ℕ)
      → lookup c.sha256_fingerprint s.1 ≡ o
      → IsIndexed s
      → IsIndexed (place c s o) × ((place c s o).0 ≡ join_group c s.0)
  unfolding place
  place-IsIndexed c (gs, m) (some i) e v = (
    λ k. v k ∙ sym (find_group-append_location k (location c) i gs),
    append-join c gs i (sym (v c.sha256_fingerprint) ∙ e),
  )
  place-IsIndexed c (gs, m) none e v =
      let fresh = sym (v c.sha256_fingerprint) ∙ e in
      (
        λ k.
            unfold lookup in
            rw
              (
                find_group-append_location k (location c) (length gs),
                find_group-new k c gs fresh,
                v k,
              )
              refl,
        append_new-join c gs fresh,
      )

  join_all : List (Certificate X) → List (CertificateGroup X) → List (CertificateGroup X)
  join_all [] gs = gs
  join_all (c ∷ cs) gs = join_all cs (join_group c gs)

  group_all-join_all :
      (cs : List (Certificate X)) (s : Grouped X)
      → IsIndexed s
      → (group_all cs s).0 ≡ join_all cs s.0
  unfolding group_all join_all
  group_all-join_all [] s v = refl
  group_all-join_all (c ∷ cs) s v =
      let (indexed, joined) = place-IsIndexed c s (lookup c.sha256_fingerprint s.1) refl v in
      group_all-join_all cs (group_certificate c s) indexed ∙ ap (join_all cs) joined

  -- The locations and the certificate of a fingerprint's group.
  abbrev pub locations_of : Bytes → List (CertificateGroup X) → List CertificateLocation
  locations_of k [] = []
  locations_of k (g ∷ gs) = if bytes_eq (fingerprint g) k then g.locations else locations_of k gs

  abbrev pub certificate_of : Bytes → List (CertificateGroup X) → Option (Certificate X)
  certificate_of k [] = none
  certificate_of k (g ∷ gs) =
      if bytes_eq (fingerprint g) k then some g.certificate else certificate_of k gs

  -- Where the certificates with a fingerprint were found, in their order, and the first of them.
  abbrev pub occurrences : Bytes → List (Certificate X) → List CertificateLocation
  occurrences k [] = []
  occurrences k (c ∷ cs) =
      if bytes_eq c.sha256_fingerprint k then location c ∷ occurrences k cs else occurrences k cs

  abbrev pub first_with : Bytes → List (Certificate X) → Option (Certificate X)
  first_with k [] = none
  first_with k (c ∷ cs) = if bytes_eq c.sha256_fingerprint k then some c else first_with k cs

  abbrev pub AreDistinct : List (CertificateGroup X) → Type 0
  AreDistinct [] = Unit
  AreDistinct (g ∷ gs) = All (λ g'. fingerprint g' ≢ fingerprint g) gs × AreDistinct gs

  abbrev or_else : Option (Certificate X) → Option (Certificate X) → Option (Certificate X)
  or_else none b = b
  or_else (some a) b = some a

  locations_of-join :
      (k : Bytes) (c : Certificate X) (gs : List (CertificateGroup X))
      → locations_of k (join_group c gs) ≡ locations_of k gs ++ occurrences k (c ∷ [])
  unfolding join_group
  locations_of-join k c [] = refl
  locations_of-join k c (g ∷ gs) = ground (
    arith,
    locations_of-join k c gs,
    bytes_eq_iff (fingerprint g) k,
    bytes_eq_iff (fingerprint g) c.sha256_fingerprint,
    bytes_eq_iff c.sha256_fingerprint k,
    append-nil g.locations,
    append-nil (locations_of k gs),
  )

  certificate_of-join :
      (k : Bytes) (c : Certificate X) (gs : List (CertificateGroup X))
      → certificate_of k (join_group c gs) ≡ or_else (certificate_of k gs) (first_with k (c ∷ []))
  unfolding join_group
  certificate_of-join k c [] = refl
  certificate_of-join k c (g ∷ gs) = ground (
    arith,
    certificate_of-join k c gs,
    bytes_eq_iff (fingerprint g) k,
    bytes_eq_iff (fingerprint g) c.sha256_fingerprint,
    bytes_eq_iff c.sha256_fingerprint k,
  )

  join-new :
      (k : Bytes) (c : Certificate X) (gs : List (CertificateGroup X))
      → c.sha256_fingerprint ≢ k
      → All (λ g. fingerprint g ≢ k) gs
      → All (λ g. fingerprint g ≢ k) (join_group c gs)
  unfolding join_group
  join-new k c [] n h = (n, tt)
  join-new k c (g ∷ gs) n h = ground (arith, join-new k c gs n h.1)

  join-AreDistinct :
      (c : Certificate X) (gs : List (CertificateGroup X))
      → AreDistinct gs
      → AreDistinct (join_group c gs)
  unfolding join_group
  join-AreDistinct c [] h = (tt, tt)
  join-AreDistinct c (g ∷ gs) h =
      elim (Bool-cases (bytes_eq (fingerprint g) c.sha256_fingerprint)) [
        | inl same ↦ rw same h
        | inr other ↦ rw other (
          join-new (fingerprint g) c gs
              (λ e. ground (arith, bytes_eq_iff (fingerprint g) c.sha256_fingerprint)) h.0,
          join-AreDistinct c gs h.1,
        )
      ]

  -- What the groups of some certificates are, group by group.
  pub record IsGrouping (cs : List (Certificate X)) (gs : List (CertificateGroup X)) : Type 0 where
    pub distinct : AreDistinct gs
    pub located : (k : Bytes) → locations_of k gs ≡ occurrences k cs
    pub represented : (k : Bytes) → certificate_of k gs ≡ first_with k cs

  join_all-locations :
      (k : Bytes) (cs : List (Certificate X)) (gs : List (CertificateGroup X))
      → locations_of k (join_all cs gs) ≡ locations_of k gs ++ occurrences k cs
  unfolding join_all
  join_all-locations k [] gs = sym (append-nil (locations_of k gs))
  join_all-locations k (c ∷ cs) gs =
      join_all-locations k cs (join_group c gs)
      ∙ rw (locations_of-join k c gs) (
          append_assoc (locations_of k gs) (occurrences k (c ∷ [])) (occurrences k cs)
          ∙ ap (λ ls. locations_of k gs ++ ls) (ground arith))

  join_all-certificate :
      (k : Bytes) (cs : List (Certificate X)) (gs : List (CertificateGroup X))
      → certificate_of k (join_all cs gs) ≡ or_else (certificate_of k gs) (first_with k cs)
  unfolding join_all
  join_all-certificate k [] gs = ground arith
  join_all-certificate k (c ∷ cs) gs =
      join_all-certificate k cs (join_group c gs) ∙ rw (certificate_of-join k c gs) (ground arith)

  join_all-AreDistinct :
      (cs : List (Certificate X)) (gs : List (CertificateGroup X))
      → AreDistinct gs
      → AreDistinct (join_all cs gs)
  unfolding join_all
  join_all-AreDistinct [] gs h = h
  join_all-AreDistinct (c ∷ cs) gs h =
      join_all-AreDistinct cs (join_group c gs) (join-AreDistinct c gs h)

  -- The groups have different fingerprints. For each fingerprint, the group with it holds the
  -- locations of exactly the certificates that have it, each once and in the order of their
  -- positions, and stands for the first of them; a fingerprint that no certificate has, has no group.
  pub group_certificates-IsGrouping :
      (cs : List (Certificate X))
      → IsGrouping (sort certificate_position compare_position cs) (group_certificates cs)
  unfolding group_certificates
  group_certificates-IsGrouping cs =
      let sorted = sort certificate_position compare_position cs in
      rw (group_all-join_all sorted ([], []) (λ k. unfold lookup find_group in refl)) (record {
        distinct = join_all-AreDistinct sorted [] tt;
        located = λ k. join_all-locations k sorted [];
        represented = λ k. join_all-certificate k sorted [];
      })
