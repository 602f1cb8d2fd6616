-- ===== src/Scanner/Paths.antt =====
-- Which files a scan looks at: the exclude patterns and the extensions of internal/scanner/scanner.go.
-- filepath.ToSlash leaves a path as it is, and `path.Match`, `path.Base`, `filepath.Ext` and the
-- tests for absolute paths are parameters.
pub mod Patterns
use Prim.Native.Nat.{compare}
use certfinder.Base.Order.{compare_list}
use certfinder.Base.Order.Sort.{insert, sort}
use certfinder.Base.Text.{codes, bytes_eq, to_lower}
use certfinder.Base.{
  ℕ, Bool, true, false, ◌||◌, Option, none, some, List, [], ◌∷◌, ◌++◌, Bytes, ◌==◌, if◌then◌else◌,
  GoError, errorf, wrap, text, Result, ok, err, ◌>>=◌,
}
use certfinder.Options.Flags.{trim_dot_slash, is_empty, dotted}
use certfinder.Options.Strings.{
  trim_space, trim_left, trim_right, has_prefix, contains, contains_any, add_value, ends_with,
  but_last, member,
}

abbrev pub trimmed : Bytes → Bytes
unfolding trim_left trim_right has_prefix ends_with but_last
trimmed pattern =
    let p = trim_dot_slash (trim_space pattern) in if ends_with p b'/' then but_last p else p

module _ (is_abs : Bytes → Bool) (match_error : Bytes → Option GoError) where
  abbrev pub invalid_pattern : Bytes → GoError
  invalid_pattern p = errorf "invalid exclude pattern %q: use a relative glob" (text p ∷ [])

  abbrev pub matched_or : Bytes → Option GoError → Result (List Bytes) → Result (List Bytes)
  matched_or p none rest = rest
  matched_or p (some e) rest = err (wrap "invalid exclude pattern %q: %w" (text p ∷ []) e)

  -- The loop, from the patterns that stand in `result`
  unfoldable pub exclude_patterns : List Bytes → List Bytes → Result (List Bytes)
  unfolding add_value trim_left trim_right has_prefix ends_with but_last
  exclude_patterns result [] = ok result
  exclude_patterns result (pattern ∷ patterns) =
      let p = trimmed pattern in
      let rest = exclude_patterns (add_value result p) patterns in
      if is_empty p || is_abs p then err (invalid_pattern p) else matched_or p (match_error p) rest

  unfoldable pub normalize_exclude_patterns : List Bytes → Result (List Bytes)
  unfolding exclude_patterns
  normalize_exclude_patterns patterns = exclude_patterns [] patterns

-- `matches` is whether path.Match matches without an error.
unfoldable pub is_excluded : (Bytes → Bytes → Bool) → (Bytes → Bytes) → Bytes → List Bytes → Bool
unfolding contains_any
is_excluded matches base relative [] = false
is_excluded matches base relative (p ∷ ps) =
    let candidate = if contains_any p (codes "/") then relative else base relative in
    matches p candidate || is_excluded matches base relative ps

abbrev pub empty_extension : GoError
empty_extension = errorf "extension cannot be empty" []

unfoldable pub normalize_extension : Bytes → Result Bytes
unfolding trim_left trim_right to_lower contains_any has_prefix bytes_eq
normalize_extension extension =
    let e = to_lower (trim_space extension) in
    if is_empty e
    then err empty_extension
    else if contains_any e (codes "/*?[]\\")
    then err (errorf "invalid extension %q" (text e ∷ []))
    else if bytes_eq (dotted e) (codes ".")
    then err empty_extension
    else ok (dotted e)

unfoldable pub extension_list : List Bytes → Result (List Bytes)
unfolding normalize_extension
extension_list [] = ok []
extension_list (e ∷ es) = normalize_extension e >>= λ x. extension_list es >>= λ xs. ok (x ∷ xs)

-- `slices.Compact`
unfoldable pub compact : List Bytes → List Bytes
unfolding bytes_eq
compact [] = []
compact (x ∷ []) = x ∷ []
compact (x ∷ y ∷ ys) = let rest = compact (y ∷ ys) in if bytes_eq x y then rest else x ∷ rest

unfoldable pub normalize_extensions : List Bytes → Result (List Bytes)
unfolding extension_list compact sort
normalize_extensions extensions =
    extension_list extensions >>= λ xs. ok (compact (sort (λ x. x) (compare_list compare) xs))

-- `ext` is filepath.Ext.
unfoldable pub matches_extension : (Bytes → Bytes) → Bytes → List Bytes → Bool
unfolding contains to_lower
matches_extension ext file_path [] = true
matches_extension ext file_path (e ∷ es) = contains (e ∷ es) (to_lower (ext file_path))
