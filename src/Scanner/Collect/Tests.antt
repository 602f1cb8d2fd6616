-- ===== src/Scanner/Collect/Tests.antt =====
-- A file with a certificate, a file with an error, and a directory that cannot be read.
use certfinder.Base.Text.{codes}
use certfinder.Base.{ℕ, refl, true, false, none, some, List, [], ◌∷◌, foreign}
use certfinder.Model.Sample.{sample}
use certfinder.Scanner.Collect.{Received, collect_outcomes}
use certfinder.Scanner.Collect.Counts.{IsTold, collect_outcomes-IsTold}
use certfinder.Scanner.Content.{scan_outcome}

abbrev arrived : List (Received ℕ)
arrived =
    record {
      path = codes "a";
      outcome = record (scan_outcome (sample (codes "a") 0 [] (some 5) ∷ []) [] false none) {
        scanned = true;
      };
    }
    ∷ record {
      path = codes "b";
      outcome = record (scan_outcome [] [] false (some (foreign []))) { scanned = true };
    }
    ∷ record { path = codes "c"; outcome = scan_outcome [] [] false (some (foreign [])) }
    ∷ []

collect_outcomes-IsTold_example : IsTold (collect_outcomes false true arrived)
collect_outcomes-IsTold_example =
    collect_outcomes-IsTold true arrived
      ((λ e. absurd (cc)), ((λ e. (refl, refl)), ((λ e. (refl, refl)), tt)))
