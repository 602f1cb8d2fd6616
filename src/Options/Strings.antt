-- ===== src/Options/Strings.antt =====
-- The functions of the `strings` package that main.go applies to option values, on ASCII text.
use certfinder.Base.Text.{bytes_eq}
use certfinder.Base.{
  ℕ, Bool, true, false, ◌||◌, ◌&&◌, List, [], ◌∷◌, ◌++◌, Bytes, leb, ◌==◌, if◌then◌else◌,
}

abbrev pub is_space : ℕ → Bool
is_space c = leb 9 c && leb c 13 || c == 32

abbrev pub reverse_onto : Bytes → Bytes → Bytes
reverse_onto [] ys = ys
reverse_onto (x ∷ xs) ys = reverse_onto xs (x ∷ ys)

unfoldable pub trim_left : (ℕ → Bool) → Bytes → Bytes
trim_left p [] = []
trim_left p (c ∷ s) = let rest = trim_left p s in if p c then rest else c ∷ s

unfoldable pub trim_right : (ℕ → Bool) → Bytes → Bytes
unfolding trim_left
trim_right p s = reverse_onto (trim_left p (reverse_onto s [])) []

-- `strings.TrimSpace`
abbrev pub trim_space : Bytes → Bytes
unfolding trim_right trim_left
trim_space s = trim_right is_space (trim_left is_space s)

unfoldable pub has_prefix : Bytes → Bytes → Bool
has_prefix s [] = true
has_prefix [] (p ∷ ps) = false
has_prefix (c ∷ s) (p ∷ ps) = c == p && has_prefix s ps

-- `strings.HasSuffix` for one character, and `strings.TrimSuffix` for it
unfoldable pub ends_with : Bytes → ℕ → Bool
ends_with [] c = false
ends_with (x ∷ []) c = x == c
ends_with (x ∷ y ∷ s) c = ends_with (y ∷ s) c

unfoldable pub but_last : Bytes → Bytes
but_last [] = []
but_last (x ∷ []) = []
but_last (x ∷ y ∷ s) = x ∷ but_last (y ∷ s)

-- `strings.ContainsAny`
unfoldable pub member : ℕ → Bytes → Bool
member c [] = false
member c (x ∷ xs) = c == x || member c xs

unfoldable pub contains_any : Bytes → Bytes → Bool
unfolding member
contains_any [] cs = false
contains_any (x ∷ s) cs = member x cs || contains_any s cs

-- `strings.Split` at one character: the pieces, of which there is always one.
abbrev pub glue : ℕ → List Bytes → List Bytes
glue c [] = (c ∷ []) ∷ []
glue c (p ∷ ps) = (c ∷ p) ∷ ps

unfoldable pub split_at : ℕ → Bytes → List Bytes
split_at d [] = [] ∷ []
split_at d (c ∷ s) = let rest = split_at d s in if c == d then [] ∷ rest else glue c rest

-- `contains` of main.go
unfoldable pub contains : List Bytes → Bytes → Bool
unfolding bytes_eq
contains [] wanted = false
contains (v ∷ values) wanted = bytes_eq v wanted || contains values wanted

-- `if !contains(*values, value) { *values = append(*values, value) }`
unfoldable pub add_value : List Bytes → Bytes → List Bytes
unfolding contains
add_value values value = if contains values value then values else values ++ value ∷ []
