-- ===== src/Base/Order/Sort.antt =====
-- Sorting by a key, as `sort.Slice` with a `less` that compares keys. Go leaves open how it orders
-- equal keys; here they keep their order.
use Prim.Native.Nat.{Ordering}
use mathlib.Core.Path.{◌≡◌, refl}
use mathlib.Core.Logic.{◌≢◌}
use mathlib.Core.List.{List, [], ◌∷◌, Perm}
use mathlib.Core.List.Perm
use native.Mathlib.Omega.{arith}
use certfinder.Base.Lists.{All, All-mono}
use certfinder.Base.Order.{IsOrder}

module _ {ℓ κ} {A : Type ℓ} {K : Type κ} (key : A → K) (cmp : K → K → Ordering) where
  -- `less(b, a)` moves `a` behind `b`.
  unfoldable pub insert : A → List A → List A
  insert a [] = a ∷ []
  insert a (b ∷ bs) = elim (cmp (key a) (key b)) [ Ordering.gt ↦ b ∷ insert a bs | _ ↦ a ∷ b ∷ bs ]

  unfoldable pub sort : List A → List A
  unfolding insert
  sort [] = []
  sort (a ∷ xs) = insert a (sort xs)

  -- No later key is smaller than an earlier one.
  abbrev pub NotAbove : A → A → Type 0
  NotAbove a b = cmp (key a) (key b) ≢ Ordering.gt

  abbrev pub IsSorted : List A → Type 0
  IsSorted [] = Unit
  IsSorted (a ∷ xs) = All (NotAbove a) xs × IsSorted xs

  insert-perm : (a : A) (bs : List A) → Perm (insert a bs) (a ∷ bs)
  unfolding insert
  insert-perm a [] = Perm.refl (a ∷ [])
  insert-perm a (b ∷ bs) = go (cmp (key a) (key b)) (insert-perm a bs)
    where
      go :
          (o : Ordering)
          → Perm (insert a bs) (a ∷ bs)
          → Perm (elim o [ Ordering.gt ↦ b ∷ insert a bs | _ ↦ a ∷ b ∷ bs ]) (a ∷ b ∷ bs)
      go Ordering.gt h = Perm.trans (Perm.cons b h) (Perm.swap a b bs)
      go Ordering.lt h = Perm.refl (a ∷ b ∷ bs)
      go Ordering.eq h = Perm.refl (a ∷ b ∷ bs)

  pub sort-perm : (xs : List A) → Perm (sort xs) xs
  unfolding sort
  sort-perm [] = Perm.refl []
  sort-perm (a ∷ xs) = Perm.trans (insert-perm a (sort xs)) (Perm.cons a (sort-perm xs))

  module _ (v : IsOrder cmp) where
    NotAbove-trans : (a b c : A) → NotAbove a b → NotAbove b c → NotAbove a c
    NotAbove-trans a b c h k = ground (
      arith,
      v.trans (key c) (key a) (key b),
      v.trans (key a) (key b) (key c),
      v.flips (key a) (key c),
      v.flips (key a) (key b),
      v.flips (key b) (key c),
      v.eq_of_eq (key a) (key b),
      v.eq_of_eq (key b) (key c),
      v.compare_self (key a),
    )

    All-insert :
        (x a : A) (bs : List A)
        → NotAbove x a
        → All (NotAbove x) bs
        → All (NotAbove x) (insert a bs)
    unfolding insert
    All-insert x a [] h k = (h, tt)
    All-insert x a (b ∷ bs) h k = ground (arith, All-insert x a bs h k.1)

    insert-IsSorted : (a : A) (bs : List A) → IsSorted bs → IsSorted (insert a bs)
    unfolding insert
    insert-IsSorted a [] h = (tt, tt)
    insert-IsSorted a (b ∷ bs) h = go (cmp (key a) (key b)) refl (insert-IsSorted a bs h.1)
      where
        front : cmp (key a) (key b) ≢ Ordering.gt → IsSorted (a ∷ b ∷ bs)
        front p = ((p, All-mono bs (λ c. NotAbove-trans a b c p) h.0), h)

        go :
            (o : Ordering)
            → cmp (key a) (key b) ≡ o
            → IsSorted (insert a bs)
            → IsSorted (elim o [ Ordering.gt ↦ b ∷ insert a bs | _ ↦ a ∷ b ∷ bs ])
        go Ordering.gt e ih = (All-insert b a bs (ground (arith, v.flips (key a) (key b))) h.0, ih)
        go Ordering.lt e ih = front (λ g. cc)
        go Ordering.eq e ih = front (λ g. cc)

    pub sort-IsSorted : (xs : List A) → IsSorted (sort xs)
    unfolding sort
    sort-IsSorted [] = tt
    sort-IsSorted (a ∷ xs) = insert-IsSorted a (sort xs) (sort-IsSorted xs)
