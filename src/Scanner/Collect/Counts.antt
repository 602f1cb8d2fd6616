-- ===== src/Scanner/Collect/Counts.antt =====
-- The counters of a scan against its report: the loop of `Scan` of internal/scanner/scanner.go.
use mathlib.Core.List.{Perm}
use Prim.Native.Nat.{compare}
use certfinder.Base.Lists.{All}
use certfinder.Base.Order.{compare_list}
use certfinder.Base.Order.Sort.{sort-perm}
use certfinder.Base.{
  ◌+◌, ◌≤◌, ◌≡◌, refl, ap, arith, Bool, false, List, [], ◌∷◌, ◌++◌, length, length-append, if-both,
  Bool-cases, inl, inr,
}
use certfinder.Model.{certificate_position, compare_position}
use certfinder.Scanner.Collect.{
  Received, ScanCounters, Collected, count_scanned, errors_of, collect_one, collect,
  nothing_collected, collect_outcomes,
}
use certfinder.Scanner.Content.{Outcome}
use certfinder.Scanner.Report.{FileError, sort_report, error_path}

module _ {X : Type 0} where
  -- An outcome that is not of a scanned file has errors only: it is one of `reportError`.
  abbrev pub IsProper : Received X → Type 0
  IsProper r =
      r.outcome.scanned ≡ false → (r.outcome.certificates ≡ []) × (r.outcome.pkcs12_encrypted ≡ [])

  pub record IsCounted (s : Collected X) : Type 0 where
    pub errors : s.counters.scan_errors ≡ length s.report.errors
    pub capped : s.counters.files_capped ≤ s.counters.files_scanned
    pub certificates : s.counters.certificates_found ≡ length s.told_certificates
    pub findings : s.counters.pkcs12_encrypted ≡ length s.told_findings

  count_scanned-errors :
      (o : Outcome X) (c : ScanCounters) → (count_scanned o c).scan_errors ≡ c.scan_errors
  unfolding count_scanned
  count_scanned-errors o c =
      if-both (λ (x : ScanCounters). x.scan_errors ≡ c.scan_errors) o.scanned _ _ refl refl

  count_scanned-capped :
      (o : Outcome X) (c : ScanCounters)
      → c.files_capped ≤ c.files_scanned
      → (count_scanned o c).files_capped ≤ (count_scanned o c).files_scanned
  unfolding count_scanned
  count_scanned-capped o c h =
      if-both (λ (x : ScanCounters). x.files_capped ≤ x.files_scanned) o.scanned _ _ (ground arith)
        h

  count_scanned-found :
      (r : Received X) (c : ScanCounters)
      → IsProper r
      → ((count_scanned r.outcome c).certificates_found
          ≡ c.certificates_found + length r.outcome.certificates)
        × ((count_scanned r.outcome c).pkcs12_encrypted
            ≡ c.pkcs12_encrypted + length r.outcome.pkcs12_encrypted)
  unfolding count_scanned
  count_scanned-found r c h = elim (Bool-cases r.outcome.scanned) [
    | inl y ↦ rw y (refl, refl)
    | inr z ↦ let (a, b) = h z in rw (z, a, b) (omega arith, omega arith)
  ]

  collect_one-IsCounted :
      (dc dp : Bool) (r : Received X) (s : Collected X)
      → IsProper r
      → IsCounted s
      → IsCounted (collect_one dc dp r s)
  unfolding collect_one
  collect_one-IsCounted dc dp r s p h =
      let o = r.outcome in
      let found = count_scanned-found r s.counters p in
      record {
        errors = omega (
          arith,
          h.errors,
          count_scanned-errors o s.counters,
          length-append s.report.errors (errors_of r.path o.error),
        );
        capped = count_scanned-capped o s.counters h.capped;
        certificates =
            omega
              (arith, h.certificates, found.0, length-append s.told_certificates o.certificates);
        findings =
            omega (arith, h.findings, found.1, length-append s.told_findings o.pkcs12_encrypted);
      }

  -- Where certificates are kept, the report has those that were told.
  collect-kept :
      (dp : Bool) (rs : List (Received X)) (s : Collected X)
      → s.report.certificates ≡ s.told_certificates
      → (let t = collect false dp rs s in t.report.certificates ≡ t.told_certificates)
  unfolding collect collect_one
  collect-kept dp [] s e = e
  collect-kept dp (r ∷ rs) s e =
      collect-kept dp rs (collect_one false dp r s) (ap (λ cs. cs ++ r.outcome.certificates) e)

  collect-IsCounted :
      (dc dp : Bool) (rs : List (Received X)) (s : Collected X)
      → All IsProper rs
      → IsCounted s
      → IsCounted (collect dc dp rs s)
  unfolding collect
  collect-IsCounted dc dp [] s p h = h
  collect-IsCounted dc dp (r ∷ rs) s p h =
      collect-IsCounted dc dp rs (collect_one dc dp r s) p.1 (collect_one-IsCounted dc dp r s p.0 h)

  nothing-IsCounted : IsCounted nothing_collected
  nothing-IsCounted = record {
    errors = refl;
    capped = omega arith;
    certificates = refl;
    findings = refl;
  }

  -- The report of a scan that keeps its certificates, and its counters
  pub record IsTold (t : Collected X) : Type 0 where
    pub reported : Perm t.report.certificates t.told_certificates
    pub found : t.counters.certificates_found ≡ length t.told_certificates
    pub encrypted : t.counters.pkcs12_encrypted ≡ length t.told_findings
    pub capped : t.counters.files_capped ≤ t.counters.files_scanned
    pub unsorted : List FileError
    pub failed : Perm t.report.errors unsorted
    pub errors : t.counters.scan_errors ≡ length unsorted

  -- For outcomes in any order, of which those that are not of a scanned file have an error only: a
  -- scan that keeps its certificates reports exactly those that it told, `certificatesFound`,
  -- `pkcs12Encrypted` and `scanErrors` count the certificates and findings that were told and the errors
  -- that are reported, and no more files were capped than scanned.
  pub collect_outcomes-IsTold :
      (discard_pkcs12_encrypted : Bool) (rs : List (Received X))
      → All IsProper rs
      → IsTold (collect_outcomes false discard_pkcs12_encrypted rs)
  unfolding collect_outcomes sort_report
  collect_outcomes-IsTold dp rs p =
      let s = collect false dp rs nothing_collected in
      let h = collect-IsCounted false dp rs nothing_collected p nothing-IsCounted in
      let same : s.report.certificates ≡ s.told_certificates =
        collect-kept dp rs nothing_collected refl in
      record {
        reported =
            rw (← same) (sort-perm certificate_position compare_position s.report.certificates);
        found = h.certificates;
        encrypted = h.findings;
        capped = h.capped;
        unsorted = s.report.errors;
        failed = sort-perm error_path (compare_list compare) s.report.errors;
        errors = h.errors;
      }
