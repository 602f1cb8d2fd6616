-- ===== src/Options/Flags.antt =====
-- The flags of main.go that collect values: `-root`, `-exclude` and `-extension`.
pub mod Values
use certfinder.Base.Text.{codes, to_lower, bytes_eq}
use certfinder.Base.{
  ℕ, Bool, true, false, ◌||◌, not, Option, none, some, List, [], ◌∷◌, ◌++◌, Bytes, ◌==◌,
  if◌then◌else◌, GoError, errorf, wrap, text,
}
use certfinder.Options.Strings.{
  trim_space, trim_left, trim_right, has_prefix, contains_any, split_at, add_value, contains,
  ends_with, but_last,
}

abbrev pub is_empty : Bytes → Bool
is_empty [] = true
is_empty (c ∷ s) = false

-- A flag's `Set`: the values that it leaves, and its error.
abbrev pub SetResult : Type 0
SetResult = List Bytes × Option GoError

-- `clean` is filepath.Clean.
unfoldable pub root_set : (Bytes → Bytes) → List Bytes → Bytes → SetResult
unfolding trim_left trim_right add_value
root_set clean values value =
    let v = trim_space value in
    if is_empty v
    then (values, some (errorf "root path cannot be empty" []))
    else (add_value values (clean v), none)

abbrev pub is_slash : ℕ → Bool
is_slash c = c == b'/'

abbrev pub trim_dot_slash : Bytes → Bytes
unfolding has_prefix
trim_dot_slash (a ∷ b ∷ s) = if has_prefix (a ∷ b ∷ []) (codes "./") then s else a ∷ b ∷ s
trim_dot_slash s = s

-- `excludeFlag.Set` after the value is trimmed. `is_abs` is path.IsAbs or filepath.IsAbs, and
-- `match_error` the error of `path.Match(value, "")`.
unfoldable pub exclude_trimmed :
    (Bytes → Bool) → (Bytes → Option GoError) → List Bytes → Bytes → SetResult
unfolding add_value
exclude_trimmed is_abs match_error values v =
    if is_empty v || is_abs v
    then (values, some (errorf "use a non-empty relative glob" []))
    else elim (match_error v) [
      | some e ↦ (values, some (wrap "invalid glob %q: %w" (text v ∷ []) e))
      | none ↦ (add_value values v, none)
    ]

unfoldable pub exclude_set :
    (Bytes → Bool) → (Bytes → Option GoError) → List Bytes → Bytes → SetResult
unfolding exclude_trimmed trim_left trim_right
exclude_set is_abs match_error values value =
    exclude_trimmed is_abs match_error values
      (trim_right is_slash (trim_dot_slash (trim_space value)))

-- The characters of the literal that `ContainsAny` is given
abbrev pub glob_characters : Bytes
glob_characters = codes "/*?[]\\"

abbrev pub is_bad_extension : Bytes → Bool
unfolding bytes_eq contains_any
is_bad_extension e = is_empty e || bytes_eq e (codes ".") || contains_any e glob_characters

abbrev pub dotted : Bytes → Bytes
unfolding has_prefix
dotted e = if has_prefix e (codes ".") then e else b'.' ∷ e

unfoldable pub extension_values : List Bytes → List Bytes → SetResult
unfolding add_value has_prefix contains_any bytes_eq to_lower trim_left trim_right
extension_values values [] = (values, none)
extension_values values (part ∷ parts) =
    let e = to_lower (trim_space part) in
    let rest = extension_values (add_value values (dotted e)) parts in
    if is_bad_extension e
    then (values, some (errorf "invalid extension %q" (text e ∷ [])))
    else rest

-- `extensionFlag.Set`. What stands before an invalid part is kept.
unfoldable pub extension_set : List Bytes → Bytes → SetResult
unfolding extension_values split_at
extension_set values value = extension_values values (split_at b',' value)
