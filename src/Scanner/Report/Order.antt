-- ===== src/Scanner/Report/Order.antt =====
-- The order of a report.
use Prim.Native.Nat.{compare, Ordering}
use mathlib.Core.List.{Perm}
use certfinder.Base.Order.{compare_list, compare-IsOrder, compare_list-IsOrder, IsOrder}
use certfinder.Base.Order.Sort.{IsSorted, NotAbove, sort-perm, sort-IsSorted}
use certfinder.Base.{ℕ, ◌<◌, ◌≤◌, ◌≡◌, ◌≢◌, ◌⊎◌, List, [], ◌∷◌, Bytes, All, All-mono, arith}
use certfinder.Model.{compare_position, certificate_position, compare_position-IsOrder}
use certfinder.Scanner.Report.{Report, finding_position, error_path, sort_report}

-- A list before another one: at the first place where they differ it has less, or it has ended.
abbrev pub IsBefore : {A : Type 0} → (A → A → Type 0) → List A → List A → Type 0
IsBefore Less [] [] = ⊥
IsBefore Less [] (y ∷ ys) = Unit
IsBefore Less (x ∷ xs) [] = ⊥
IsBefore Less (x ∷ xs) (y ∷ ys) = Less x y ⊎ ((x ≡ y) × IsBefore Less xs ys)

abbrev pub TextBefore : Bytes → Bytes → Type 0
TextBefore = IsBefore (λ a b. a < b)

-- By the path, then by the archive entries, then by the index
abbrev pub InOrder : Bytes → List Bytes → ℕ → Bytes → List Bytes → ℕ → Type 0
InOrder path entries index path' entries' index' =
    TextBefore path path'
    ⊎ ((path ≡ path')
        × (IsBefore TextBefore entries entries' ⊎ ((entries ≡ entries') × (index ≤ index'))))

-- Each element stands in a relation to every later one.
abbrev pub Chained : {A : Type 0} → (A → A → Type 0) → List A → Type 0
Chained R [] = Unit
Chained R (a ∷ xs) = All (R a) xs × Chained R xs

-- A list in order that holds what another one held.
abbrev pub Sorts : {A : Type 0} → (A → A → Type 0) → List A → List A → Type 0
Sorts R before after = Perm after before × Chained R after

compare_list-IsBefore :
    {A : Type 0} (cmp : A → A → Ordering) (Less : A → A → Type 0)
    → IsOrder cmp
    → ((a b : A) → cmp a b ≡ Ordering.lt → Less a b)
    → (xs ys : List A) → compare_list cmp xs ys ≡ Ordering.lt
    → IsBefore Less xs ys
unfolding compare_list
compare_list-IsBefore cmp Less v less [] [] h = absurd (cc)
compare_list-IsBefore cmp Less v less [] (y ∷ ys) h = tt
compare_list-IsBefore cmp Less v less (x ∷ xs) [] h = absurd (cc)
compare_list-IsBefore cmp Less v less (x ∷ xs) (y ∷ ys) h =
    ground (arith, less x y, v.eq_of_eq x y, compare_list-IsBefore cmp Less v less xs ys)

text-IsBefore : (xs ys : Bytes) → compare_list compare xs ys ≡ Ordering.lt → TextBefore xs ys
text-IsBefore = compare_list-IsBefore compare (λ a b. a < b) compare-IsOrder (λ a b h. ground arith)

entries-IsBefore :
    (xs ys : List Bytes)
    → compare_list (compare_list compare) xs ys ≡ Ordering.lt
    → IsBefore TextBefore xs ys
entries-IsBefore =
    compare_list-IsBefore (compare_list compare) TextBefore (compare_list-IsOrder compare-IsOrder)
      text-IsBefore

position-InOrder :
    (p : Bytes) (e : List Bytes) (i : ℕ) (p' : Bytes) (e' : List Bytes) (i' : ℕ)
    → compare_position (p, (e, i)) (p', (e', i')) ≢ Ordering.gt
    → InOrder p e i p' e' i'
position-InOrder p e i p' e' i' h =
    let text = compare_list-IsOrder compare-IsOrder in
    let entries = compare_list-IsOrder text in
    ground
      (arith, text-IsBefore p p', text.eq_of_eq p p', entries-IsBefore e e', entries.eq_of_eq e e')

path-InOrder : (p p' : Bytes) → compare_list compare p p' ≢ Ordering.gt → TextBefore p p' ⊎ (p ≡ p')
path-InOrder p p' h =
    ground (arith, text-IsBefore p p', (compare_list-IsOrder compare-IsOrder).eq_of_eq p p')

chained :
    {A K : Type 0} (key : A → K) (cmp : K → K → Ordering) (R : A → A → Type 0)
    → ((a b : A) → NotAbove key cmp a b → R a b)
    → (xs : List A) → IsSorted key cmp xs
    → Chained R xs
chained key cmp R f [] h = tt
chained key cmp R f (a ∷ xs) h = (All-mono xs (λ b. f a b) h.0, chained key cmp R f xs h.1)

-- `sortReport` loses and adds nothing, and puts the certificates and the encrypted contents in the order
-- of their path, their archive entries and their index, and the errors in that of their path.
pub sort_report-Sorts :
    {X : Type 0} (r : Report X)
    → Sorts
        (λ a b. InOrder a.path a.archive_entries a.index b.path b.archive_entries b.index)
        r.certificates
        (sort_report r).certificates
      × Sorts
          (λ a b.
            InOrder a.path a.archive_entries a.content_index b.path b.archive_entries
              b.content_index)
          r.pkcs12_encrypted
          (sort_report r).pkcs12_encrypted
      × Sorts (λ a b. TextBefore a.path b.path ⊎ (a.path ≡ b.path)) r.errors (sort_report r).errors
unfolding sort_report
sort_report-Sorts r = (
  (
    sort-perm certificate_position compare_position r.certificates,
    chained certificate_position compare_position _ (λ a b. position-InOrder _ _ _ _ _ _) _
        (sort-IsSorted certificate_position compare_position compare_position-IsOrder
          r.certificates),
  ),
  (
    sort-perm finding_position compare_position r.pkcs12_encrypted,
    chained finding_position compare_position _ (λ a b. position-InOrder _ _ _ _ _ _) _
        (sort-IsSorted finding_position compare_position compare_position-IsOrder
          r.pkcs12_encrypted),
  ),
  (
    sort-perm error_path (compare_list compare) r.errors,
    chained error_path (compare_list compare) _ (λ a b. path-InOrder _ _) _
        (sort-IsSorted error_path (compare_list compare) (compare_list-IsOrder compare-IsOrder)
          r.errors),
  ),
)
