-- ===== src/Scanner/Collect.antt =====
-- How a scan collects what its workers send: the loop of `Scan` of internal/scanner/scanner.go over the
-- outcomes, in the order in which they arrive. What `OnCertificate` and `OnPKCS12Encrypted` are told
-- are lists.
pub mod Counts
mod Tests
use certfinder.Base.{
  ℕ, ◌+◌, Bool, true, false, Option, none, some, List, [], ◌∷◌, ◌++◌, Bytes, length, if◌then◌else◌,
  GoError,
}
use certfinder.Model.{Certificate, Pkcs12EncryptedContent}
use certfinder.Scanner.Content.{Outcome}
use certfinder.Scanner.Report.{FileError, Report, sort_report}

-- An outcome with the path of the `FileError` that it has where it has an error
pub record Received (X : Type 0) : Type 0 where
  pub path : Bytes
  pub outcome : Outcome X

-- The counters that the loop changes
pub record ScanCounters : Type 0 where
  pub files_scanned : ℕ
  pub files_capped : ℕ
  pub certificates_found : ℕ
  pub pkcs12_encrypted : ℕ
  pub scan_errors : ℕ

pub record Collected (X : Type 0) : Type 0 where
  pub report : Report X
  pub counters : ScanCounters
  pub told_certificates : List (Certificate X)
  pub told_findings : List Pkcs12EncryptedContent

abbrev pub errors_of : Bytes → Option GoError → List FileError
errors_of path none = []
errors_of path (some e) = record { path = path; error = e } ∷ []

module _ {X : Type 0} where
  -- What `worker` sends for a file
  unfoldable pub worked : Bytes → Outcome X → Received X
  worked path o = record { path = path; outcome = record o { scanned = true } }

  unfoldable pub count_scanned : Outcome X → ScanCounters → ScanCounters
  count_scanned o c =
      if o.scanned
      then record c {
        files_scanned = c.files_scanned + 1;
        files_capped = if o.capped then c.files_capped + 1 else c.files_capped;
        certificates_found = c.certificates_found + length o.certificates;
        pkcs12_encrypted = c.pkcs12_encrypted + length o.pkcs12_encrypted;
      }
      else c

  unfoldable pub collect_one : Bool → Bool → Received X → Collected X → Collected X
  unfolding count_scanned
  collect_one discard_certificates discard_pkcs12_encrypted r s =
      let o = r.outcome in
      let errors = errors_of r.path o.error in
      let c = count_scanned o s.counters in
      record {
        report = record {
          certificates =
              if discard_certificates
              then s.report.certificates
              else s.report.certificates ++ o.certificates;
          errors = s.report.errors ++ errors;
          pkcs12_encrypted =
              if discard_pkcs12_encrypted
              then s.report.pkcs12_encrypted
              else s.report.pkcs12_encrypted ++ o.pkcs12_encrypted;
        };
        counters = record c { scan_errors = c.scan_errors + length errors };
        told_certificates = s.told_certificates ++ o.certificates;
        told_findings = s.told_findings ++ o.pkcs12_encrypted;
      }

  unfoldable pub collect : Bool → Bool → List (Received X) → Collected X → Collected X
  unfolding collect_one
  collect dc dp [] s = s
  collect dc dp (r ∷ rs) s = collect dc dp rs (collect_one dc dp r s)

  abbrev pub nothing_collected : Collected X
  nothing_collected = record {
    report = record { certificates = []; errors = []; pkcs12_encrypted = [] };
    counters = record {
      files_scanned = 0;
      files_capped = 0;
      certificates_found = 0;
      pkcs12_encrypted = 0;
      scan_errors = 0;
    };
    told_certificates = [];
    told_findings = [];
  }

  -- The channel is closed: the report that `Scan` returns, sorted
  unfoldable pub collect_outcomes : Bool → Bool → List (Received X) → Collected X
  unfolding collect sort_report
  collect_outcomes dc dp rs =
      let s = collect dc dp rs nothing_collected in record s { report = sort_report s.report }
