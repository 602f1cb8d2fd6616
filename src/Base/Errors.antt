-- ===== src/Base/Errors.antt =====
-- Go's `error` values as a tree: what `errors.New`, `fmt.Errorf` (with and without `%w`) and
-- `errors.Join` build, and what `errors.Is` searches. A nil error is `none`.
use Prim.Native.Nat.{ℕ}
use Prim.Native.String.{String}
use mathlib.Core.Path.{◌≡◌, refl}
use mathlib.Core.Logic.{◌⊎◌, ◌≢◌, inl, inr}
use mathlib.Core.Bool.{Bool, true, false, ◌||◌}
use mathlib.Core.List.{List, [], ◌∷◌}
use mathlib.Core.Option.{Option, none, some}
use certfinder.Base.Lists.{Bytes}
use certfinder.Base.Tests.{if◌then◌else◌, Option-cases}

-- The arguments of a format verb.
pub data Arg : Type 0 where
  num : ℕ → Arg
  text : Bytes → Arg

-- The package-level error values that callers compare by identity.
pub data Sentinel : Type 0 where
  unexpected_eof archive_decompressed_bytes : Sentinel

-- `errorf` is an error with its format and arguments, `wrap` one whose last verb is `%w`,
-- `join a b` is `errors.Join(a, b)`, and `foreign` an error of a library that is not modelled.
pub data GoError : Type 0 where
  sentinel : Sentinel → GoError
  foreign : Bytes → GoError
  errorf : String → List Arg → GoError
  wrap : String → List Arg → GoError → GoError
  join : GoError → GoError → GoError

abbrev pub same_sentinel : Sentinel → Sentinel → Bool
same_sentinel unexpected_eof unexpected_eof = true
same_sentinel archive_decompressed_bytes archive_decompressed_bytes = true
same_sentinel _ _ = false

-- `errors.Is(err, target)`
unfoldable pub is_error : GoError → Sentinel → Bool
is_error (sentinel s) t = same_sentinel s t
is_error (foreign m) t = false
is_error (errorf f xs) t = false
is_error (wrap f xs e) t = is_error e t
is_error (join a b) t = is_error a t || is_error b t

-- `errors.Join` of a slice of non-nil errors.
unfoldable pub join_errors : List GoError → Option GoError
join_errors [] = none
join_errors (e ∷ es) = elim (join_errors es) [ none ↦ some e | some rest ↦ some (join e rest) ]

-- `errors.Join(a, b)` of two errors that may be nil.
abbrev pub join_two : Option GoError → Option GoError → Option GoError
join_two none b = b
join_two (some a) none = some a
join_two (some a) (some b) = some (join a b)

-- A value with an error in its place.
pub data Result {ℓ} (A : Type ℓ) : Type ℓ where
  ok : A → Result A
  err : GoError → Result A

module _ {ℓ κ} {A : Type ℓ} {B : Type κ} where
  infixl 5 ◌>>=◌
  abbrev pub ◌>>=◌ : Result A → (A → Result B) → Result B
  ok a >>= f = f a
  err e >>= f = err e

-- `if err != nil { return fmt.Errorf("...: %w", err) }`
abbrev pub wrap_err {ℓ} : {A : Type ℓ} → String → List Arg → Result A → Result A
wrap_err f xs (ok a) = ok a
wrap_err f xs (err e) = err (wrap f xs e)

pub Result-cases {ℓ} :
    {A : Type ℓ} (r : Result A) → ((a : A) × (r ≡ ok a)) ⊎ ((e : GoError) × (r ≡ err e))
Result-cases (ok a) = inl (a, refl)
Result-cases (err e) = inr (e, refl)

-- What a result is, where it is a value.
abbrev pub Post {ℓ κ} : {A : Type ℓ} → (A → Type κ) → Result A → Type κ
Post P (ok a) = P a
Post P (err e) = Unit

module _ {ℓ κ} {A B : Type ℓ} (P : A → Type κ) (Q : B → Type κ) where
  pub Post-bind :
      (m : Result A) (f : A → Result B)
      → Post P m
      → ((a : A) → P a → Post Q (f a))
      → Post Q (m >>= f)
  Post-bind (ok a) f h k = k a h
  Post-bind (err e) f h k = tt

pub Post-after {ℓ κ μ} :
    {A : Type ℓ} {B : Type κ} (Q : B → Type μ) (m : Result A) (f : A → Result B)
    → ((a : A) → Post Q (f a))
    → Post Q (m >>= f)
Post-after Q (ok a) f h = h a
Post-after Q (err e) f h = tt

pub Post-ok {ℓ κ} : {A : Type ℓ} (P : A → Type κ) {r : Result A} {a : A} → r ≡ ok a → Post P r → P a
Post-ok P h p = rw h at p

pub Post-wrap {ℓ κ} :
    {A : Type ℓ} (P : A → Type κ) (f : String) (xs : List Arg) (m : Result A)
    → Post P m
    → Post P (wrap_err f xs m)
Post-wrap P f xs (ok a) h = h
Post-wrap P f xs (err e) h = tt

pub Post-mono {ℓ κ μ} :
    {A : Type ℓ} (P : A → Type κ) (Q : A → Type μ) (m : Result A)
    → ((a : A) → P a → Q a)
    → Post P m
    → Post Q m
Post-mono P Q (ok a) f h = f a h
Post-mono P Q (err e) f h = tt

pub Post-if {ℓ κ} :
    {A : Type ℓ} (P : A → Type κ) (t : Bool) (m n : Result A)
    → Post P m
    → Post P n
    → Post P (if t then m else n)
Post-if P true m n h k = h
Post-if P false m n h k = k

-- `errors.Join` is nil for no error only.
pub join_errors-ne-none : (es : List GoError) → es ≢ [] → join_errors es ≢ none
unfolding join_errors
join_errors-ne-none [] h e = h refl
join_errors-ne-none (x ∷ es) h e = elim (Option-cases (join_errors es)) [
  | inl n ↦ cc (rw n at e)
  | inr (r, n) ↦ cc (rw n at e)
]
