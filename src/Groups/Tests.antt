-- ===== src/Groups/Tests.antt =====
-- Three certificates, two of them the same, and the theorems at them.
use certfinder.Base.Order.Sort.{sort}
use certfinder.Base.Text.{codes}
use certfinder.Base.{ℕ, ◌≡◌, refl, none, List, [], ◌∷◌, Bytes, length, ltb, if◌then◌else◌}
use certfinder.Groups.Grouping.{
  IsGrouping, group_certificates-IsGrouping, locations_of, occurrences,
}
use certfinder.Groups.Summary.{
  IsSummary, count_all, summarize-IsSummary, duplicate_group_certificates-locations,
}
use certfinder.Groups.{
  location, group_certificates, duplicate_certificate_groups, summarize_certificate_identities,
}
use certfinder.Model.Sample.{sample}
use certfinder.Model.{Certificate, compare_position, certificate_position}

abbrev found_at : Bytes → ℕ → Bytes → Certificate (Unit {0})
found_at path index fingerprint = sample path index fingerprint none

abbrev in_b : Certificate (Unit {0})
in_b = found_at (codes "b.pem") 0 (codes "f1")

abbrev second_in_a : Certificate (Unit {0})
second_in_a = found_at (codes "a.pem") 1 (codes "f2")

abbrev first_in_a : Certificate (Unit {0})
first_in_a = found_at (codes "a.pem") 0 (codes "f1")

abbrev three : List (Certificate (Unit {0}))
three = in_b ∷ second_in_a ∷ first_in_a ∷ []

-- The groups come in the order in which the sorted certificates first show them.
group_three :
    group_certificates three
    ≡ record { certificate = first_in_a; locations = location first_in_a ∷ location in_b ∷ [] }
      ∷ record { certificate = second_in_a; locations = location second_in_a ∷ [] }
      ∷ []
unfolding group_certificates
group_three = refl

duplicates_of_three : length (duplicate_certificate_groups (group_certificates three)) ≡ 1
unfolding duplicate_certificate_groups group_certificates
duplicates_of_three = refl

summary_of_three :
    summarize_certificate_identities (count_all three [])
    ≡ record { matched = 3; unique = 2; duplicate_occurrences = 1 }
unfolding summarize_certificate_identities count_all
summary_of_three = refl

group_certificates-IsGrouping_example :
    IsGrouping (sort certificate_position compare_position three) (group_certificates three)
group_certificates-IsGrouping_example = group_certificates-IsGrouping three

summarize-IsSummary_example :
    IsSummary three (count_all three []) (summarize_certificate_identities (count_all three []))
summarize-IsSummary_example = summarize-IsSummary three

duplicate_group_certificates-locations_example :
    locations_of (codes "f1") (duplicate_certificate_groups (group_certificates three)) ≡ (
      if ltb 1
        (length (occurrences (codes "f1") (sort certificate_position compare_position three)))
      then occurrences (codes "f1") (sort certificate_position compare_position three)
      else [])
duplicate_group_certificates-locations_example =
    duplicate_group_certificates-locations three (codes "f1")
