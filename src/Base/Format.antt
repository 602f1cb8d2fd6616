-- ===== src/Base/Format.antt =====
-- What the program uses of `fmt.Sprintf`: the verbs `%d`, `%s` and `%t`, numbers in decimal.
use Prim.Native.String.{String}
use Prim.Native.Nat.{ℕ, zero, suc, ◌+◌, ◌/◌, ◌%◌}
use mathlib.Core.Bool.{Bool, true, false}
use mathlib.Core.List.{List, [], ◌∷◌, ◌++◌}
use certfinder.Base.Lists.{Bytes}
use certfinder.Base.Tests.{ltb, ◌==◌, if◌then◌else◌}
use certfinder.Base.Text.{codes}

pub data FormatArg : Type 0 where
  dec : ℕ → FormatArg
  str : Bytes → FormatArg
  flag : Bool → FormatArg

-- The digits of a number, the last `fuel` of them; an int64 has at most 19.
unfoldable pub digits : ℕ → ℕ → Bytes
digits zero n = []
digits (suc fuel) n =
    let front = digits fuel (n / 10) in
    if ltb n 10 then (b'0' + n) ∷ [] else front ++ (b'0' + n % 10) ∷ []

unfoldable pub print_arg : FormatArg → Bytes
unfolding digits
print_arg (dec n) = digits 19 n
print_arg (str text) = text
print_arg (flag true) = codes "true"
print_arg (flag false) = codes "false"

-- Each verb takes the next argument.
unfoldable pub print_all : Bytes → List FormatArg → Bytes
unfolding print_arg
print_all [] args = []
print_all (c ∷ cs) [] = c ∷ cs
print_all (c ∷ []) (a ∷ args) = c ∷ []
print_all (c ∷ verb ∷ cs) (a ∷ args) = elim (c == b'%') [
  | true ↦ print_arg a ++ print_all cs args
  | false ↦ c ∷ print_all (verb ∷ cs) (a ∷ args)
]

unfoldable pub sprintf : String → List FormatArg → Bytes
unfolding print_all
sprintf format args = print_all (codes format) args

-- `strings.Join`
unfoldable pub join_strings : Bytes → List Bytes → Bytes
join_strings separator [] = []
join_strings separator (e ∷ []) = e
join_strings separator (e ∷ f ∷ es) = e ++ separator ++ join_strings separator (f ∷ es)
