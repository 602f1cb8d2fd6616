-- ===== src/Scanner/Report/Tests.antt =====
-- A report with two certificates and an error.
use certfinder.Base.Text.{codes}
use certfinder.Base.{◌≡◌, ◌⊎◌, none, [], ◌∷◌, foreign}
use certfinder.Model.Sample.{sample}
use certfinder.Scanner.Report.{Report, sort_report}
use certfinder.Scanner.Report.Order.{Sorts, InOrder, TextBefore, sort_report-Sorts}

abbrev two : Report (Unit {0})
two = record {
  certificates = sample (codes "b") 0 [] none ∷ sample (codes "a") 0 [] none ∷ [];
  errors = record { path = codes "c"; error = foreign [] } ∷ [];
  pkcs12_encrypted = [];
}

sort_report-Sorts_example :
    Sorts
      (λ a b. InOrder a.path a.archive_entries a.index b.path b.archive_entries b.index)
      two.certificates
      (sort_report two).certificates
    × Sorts
        (λ a b.
          InOrder a.path a.archive_entries a.content_index b.path b.archive_entries b.content_index)
        two.pkcs12_encrypted
        (sort_report two).pkcs12_encrypted
    × Sorts
        (λ a b. TextBefore a.path b.path ⊎ (a.path ≡ b.path))
        two.errors
        (sort_report two).errors
sort_report-Sorts_example = sort_report-Sorts two
