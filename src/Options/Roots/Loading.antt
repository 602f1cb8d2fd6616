-- ===== src/Options/Roots/Loading.antt =====
-- The fingerprints of the trust anchors that `loadVerificationRoots` of main.go loads.
use certfinder.Base.{
  ◌≡◌, refl, ap, ◌∙◌, Bool, true, false, ◌||◌, Option, none, some, List, [], ◌∷◌, ◌++◌, map, Bytes,
  GoError, Result, ok, err, Post, Post-bind, Bool-cases, inl, inr, if◌then◌else◌, arith,
  join_errors,
}
use certfinder.Base.Text.{bytes_eq}
use certfinder.Model.{Certificate}
use certfinder.Options.Flags.Values.{IsDistinct, add-IsDistinct, contains-append}
use certfinder.Options.Roots.{
  Loaded, add_root, add_roots, take_report, after_scan, load_paths, certificates_of,
  load_verification_roots, refuse_errors, is_nil, file_error,
}
use certfinder.Options.Strings.{contains}
use certfinder.Scanner.Report.{Report}

contains_step :
    (vs : List Bytes) (w b : Bytes) {t : Bool}
    → t ≡ contains vs b
    → (t || bytes_eq w b) ≡ contains (w ∷ vs) b
unfolding contains
contains_step vs w b e = ground (arith)

module _ {X : Type 0} where
  abbrev pub fingerprints : List (Certificate X) → List Bytes
  fingerprints cs = map (λ c. c.sha256_fingerprint) cs

  -- The fingerprints of the certificates are those that were seen, each once.
  record Inv (s : Loaded X) : Type 0 where
    distinct : IsDistinct (fingerprints s.0)
    seen : (b : Bytes) → contains (fingerprints s.0) b ≡ contains s.1 b

  map-end :
      (cs : List (Certificate X)) (c : Certificate X)
      → fingerprints (cs ++ c ∷ []) ≡ fingerprints cs ++ c.sha256_fingerprint ∷ []
  map-end [] c = refl
  map-end (d ∷ cs) c = ap (λ t. d.sha256_fingerprint ∷ t) (map-end cs c)

  add_root-Inv : (c : Certificate X) (s : Loaded X) → Inv s → Inv (add_root c s)
  unfolding add_root
  add_root-Inv c (cs, seen) h = elim (Bool-cases (contains seen c.sha256_fingerprint)) [
    | inl old ↦ rw old h
    | inr new ↦ rw new (record {
      distinct = rw (map-end cs c) (
          add-IsDistinct (fingerprints cs) c.sha256_fingerprint (h.seen c.sha256_fingerprint ∙ new)
            h.distinct);
      seen = λ b. rw (map-end cs c) (
          contains-append (fingerprints cs) c.sha256_fingerprint b
          ∙ contains_step seen c.sha256_fingerprint b (h.seen b));
    })
  ]

  add_roots-Inv : (cs : List (Certificate X)) (s : Loaded X) → Inv s → Inv (add_roots cs s)
  unfolding add_roots
  add_roots-Inv [] s h = h
  add_roots-Inv (c ∷ cs) s h = add_roots-Inv cs (add_root c s) (add_root-Inv c s h)

  take_report-Inv :
      (path : Bytes) (r : Report X) (s : Loaded X) → Inv s → Post Inv (take_report path r s)
  unfolding take_report
  take_report-Inv path r s h =
      taken (refuse_errors path (join_errors (map (file_error) r.errors)))
        (is_nil r.pkcs12_encrypted) (is_nil r.certificates) _ _
    where
      taken :
          (o : Option GoError) (a b : Bool) (e f : GoError)
          → Post Inv (elim o [
            | some x ↦ err x
            | none ↦ if a then (if b then err e else ok (add_roots r.certificates s)) else err f
          ])
      taken (some x) a b e f = tt
      taken none true true e f = tt
      taken none true false e f = add_roots-Inv r.certificates s h
      taken none false b e f = tt

  after_scan-Inv :
      (path : Bytes) (r : Result (Report X)) (s : Loaded X) → Inv s → Post Inv (after_scan path r s)
  after_scan-Inv path (ok r) s h = take_report-Inv path r s h
  after_scan-Inv path (err e) s h = tt

  load_paths-Inv :
      (scan : Bytes → Result (Report X)) (ps : List Bytes) (s : Loaded X)
      → Inv s
      → Post Inv (load_paths scan ps s)
  unfolding load_paths
  load_paths-Inv scan [] s h = h
  load_paths-Inv scan (p ∷ ps) s h =
      Post-bind Inv Inv (after_scan p (scan p) s) (λ t. load_paths scan ps t)
        (after_scan-Inv p (scan p) s h) (λ t k. load_paths-Inv scan ps t k)

  certificates_of-IsDistinct :
      (r : Result (Loaded X)) (cs : List (Certificate X))
      → certificates_of r ≡ ok cs
      → Post Inv r
      → IsDistinct (fingerprints cs)
  certificates_of-IsDistinct (ok s) cs e h = let same : s.0 ≡ cs = cc in rw (← same) (h.distinct)
  certificates_of-IsDistinct (err x) cs e h = absurd (cc)

  -- The trust anchors that `loadVerificationRoots` returns, of all the paths, have different
  -- SHA-256 fingerprints.
  pub load_verification_roots-IsDistinct :
      (scan : Bytes → Result (Report X)) (paths : List Bytes) (cs : List (Certificate X))
      → load_verification_roots scan paths ≡ ok cs
      → IsDistinct (fingerprints cs)
  unfolding load_verification_roots
  load_verification_roots-IsDistinct scan paths cs e =
      certificates_of-IsDistinct (load_paths scan paths ([], [])) cs e
        (load_paths-Inv scan paths ([], []) (record { distinct = tt; seen = λ b. refl }))
