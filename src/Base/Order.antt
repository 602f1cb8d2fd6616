-- ===== src/Base/Order.antt =====
-- Three-way comparison, as Go's `cmp.Compare`, `strings.Compare` and `slices.Compare`, and sorting.
pub mod Sort
use Prim.Native.Nat.{ℕ, compare, Ordering}
use mathlib.Core.Path.{◌≡◌, refl}
use mathlib.Core.Bool.{Bool, true, false}
use mathlib.Core.List.{List, [], ◌∷◌}
use native.Mathlib.Omega.{arith}

abbrev pub flip : Ordering → Ordering
flip Ordering.lt = Ordering.gt
flip Ordering.eq = Ordering.eq
flip Ordering.gt = Ordering.lt

-- The second comparison where the first finds no difference.
abbrev pub then_compare : Ordering → Ordering → Ordering
then_compare Ordering.lt o = Ordering.lt
then_compare Ordering.eq o = o
then_compare Ordering.gt o = Ordering.gt

-- A linear order, as a three-way comparison.
pub record IsOrder {ℓ} {A : Type ℓ} (cmp : A → A → Ordering) : Type ℓ where
  pub flips : (a b : A) → cmp b a ≡ flip (cmp a b)
  pub trans : (a b c : A) → cmp a b ≡ Ordering.lt → cmp b c ≡ Ordering.lt → cmp a c ≡ Ordering.lt
  pub eq_of_eq : (a b : A) → cmp a b ≡ Ordering.eq → a ≡ b
  pub compare_self : (a : A) → cmp a a ≡ Ordering.eq

pub compare-IsOrder : IsOrder compare
compare-IsOrder = record {
  flips = λ a b. ground arith;
  trans = λ a b c h k. ground arith;
  eq_of_eq = λ a b h. ground arith;
  compare_self = λ a. ground arith;
}

module _ {ℓ} {A : Type ℓ} (cmp : A → A → Ordering) where
  -- Lexicographic order: a proper prefix comes first.
  unfoldable pub compare_list : List A → List A → Ordering
  compare_list [] [] = Ordering.eq
  compare_list [] (y ∷ ys) = Ordering.lt
  compare_list (x ∷ xs) [] = Ordering.gt
  compare_list (x ∷ xs) (y ∷ ys) = then_compare (cmp x y) (compare_list xs ys)

-- Comparing by two fields in turn.
abbrev pub compare_pair {ℓ κ} :
    {A : Type ℓ} {B : Type κ} → (A → A → Ordering) → (B → B → Ordering) → A × B → A × B → Ordering
compare_pair f g (a, b) (a', b') = then_compare (f a a') (g b b')

then-flip : (o p : Ordering) → flip (then_compare o p) ≡ then_compare (flip o) (flip p)
then-flip Ordering.lt p = refl
then-flip Ordering.eq p = refl
then-flip Ordering.gt p = refl

module _ {ℓ} {A : Type ℓ} {f : A → A → Ordering} where
  -- A chain of two steps, in a field and in what follows it.
  pub then_trans :
      (v : IsOrder f) (a b c : A) (p q r : Ordering)
      → (p ≡ Ordering.lt → q ≡ Ordering.lt → r ≡ Ordering.lt)
      → then_compare (f a b) p ≡ Ordering.lt
      → then_compare (f b c) q ≡ Ordering.lt
      → then_compare (f a c) r ≡ Ordering.lt
  then_trans v a b c p q r t h k =
      ground
        (arith, v.trans a b c, v.eq_of_eq a b, v.eq_of_eq b c, v.compare_self a, v.compare_self b)

module _ {ℓ} {A : Type ℓ} {cmp : A → A → Ordering} (v : IsOrder cmp) where
  list_flips : (xs ys : List A) → compare_list cmp ys xs ≡ flip (compare_list cmp xs ys)
  unfolding compare_list
  list_flips [] [] = refl
  list_flips [] (y ∷ ys) = refl
  list_flips (x ∷ xs) [] = refl
  list_flips (x ∷ xs) (y ∷ ys) = ground (arith, v.flips x y, list_flips xs ys)

  list_trans :
      (xs ys zs : List A)
      → compare_list cmp xs ys ≡ Ordering.lt
      → compare_list cmp ys zs ≡ Ordering.lt
      → compare_list cmp xs zs ≡ Ordering.lt
  unfolding compare_list
  list_trans [] [] zs h k = k
  list_trans [] (y ∷ ys) [] h k = cc
  list_trans [] (y ∷ ys) (z ∷ zs) h k = refl
  list_trans (x ∷ xs) [] [] h k = cc
  list_trans (x ∷ xs) [] (z ∷ zs) h k = cc
  list_trans (x ∷ xs) (y ∷ ys) [] h k = cc
  list_trans (x ∷ xs) (y ∷ ys) (z ∷ zs) h k = then_trans v x y z _ _ _ (list_trans xs ys zs) h k

  list_eq_of_eq : (xs ys : List A) → compare_list cmp xs ys ≡ Ordering.eq → xs ≡ ys
  unfolding compare_list
  list_eq_of_eq [] [] h = refl
  list_eq_of_eq [] (y ∷ ys) h = cc
  list_eq_of_eq (x ∷ xs) [] h = cc
  list_eq_of_eq (x ∷ xs) (y ∷ ys) h = ground (arith, v.eq_of_eq x y, list_eq_of_eq xs ys)

  list_self : (xs : List A) → compare_list cmp xs xs ≡ Ordering.eq
  unfolding compare_list
  list_self [] = refl
  list_self (x ∷ xs) = rw (v.compare_self x) (list_self xs)

  pub compare_list-IsOrder : IsOrder (compare_list cmp)
  compare_list-IsOrder = record {
    flips = list_flips;
    trans = list_trans;
    eq_of_eq = list_eq_of_eq;
    compare_self = list_self;
  }

module _ {ℓ κ} {A : Type ℓ} {B : Type κ} {f : A → A → Ordering} {g : B → B → Ordering}
    (v : IsOrder f) (w : IsOrder g) where
  pair_flips : (p q : A × B) → compare_pair f g q p ≡ flip (compare_pair f g p q)
  pair_flips (a, b) (a', b') = ground (arith, v.flips a a', w.flips b b')

  pair_trans :
      (p q r : A × B)
      → compare_pair f g p q ≡ Ordering.lt
      → compare_pair f g q r ≡ Ordering.lt
      → compare_pair f g p r ≡ Ordering.lt
  pair_trans (a, b) (a', b') (a'', b'') = then_trans v a a' a'' _ _ _ (w.trans b b' b'')

  pair_eq_of_eq : (p q : A × B) → compare_pair f g p q ≡ Ordering.eq → p ≡ q
  pair_eq_of_eq (a, b) (a', b') h = ground (arith, v.eq_of_eq a a', w.eq_of_eq b b')

  pair_self : (p : A × B) → compare_pair f g p p ≡ Ordering.eq
  pair_self (a, b) = rw (v.compare_self a) (w.compare_self b)

  pub compare_pair-IsOrder : IsOrder (compare_pair f g)
  compare_pair-IsOrder = record {
    flips = pair_flips;
    trans = pair_trans;
    eq_of_eq = pair_eq_of_eq;
    compare_self = pair_self;
  }
