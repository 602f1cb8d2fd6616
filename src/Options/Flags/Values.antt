-- ===== src/Options/Flags/Values.antt =====
-- The form of the lists that the flags of main.go collect.
use certfinder.Base.Text.{codes, to_lower, bytes_eq, bytes_eq_iff}
use certfinder.Base.{
  ◌≡◌, ◌≢◌, refl, true, false, ◌||◌, List, [], ◌∷◌, ◌++◌, Bytes, All, All-append, Bool-cases, ◌==◌,
  inl, inr, arith,
}
use certfinder.Options.Flags.{
  is_bad_extension, dotted, glob_characters, extension_values, extension_set,
}
use certfinder.Options.Strings.{
  has_prefix, contains_any, split_at, contains, add_value, member, trim_space,
}

abbrev pub IsDistinct : List Bytes → Type 0
IsDistinct [] = Unit
IsDistinct (v ∷ vs) = (contains vs v ≡ false) × IsDistinct vs

pub contains-append :
    (vs : List Bytes) (w u : Bytes) → contains (vs ++ w ∷ []) u ≡ (contains vs u || bytes_eq w u)
unfolding contains
contains-append [] w u = ground arith
contains-append (v ∷ vs) w u = ground (arith, contains-append vs w u)

pub add-IsDistinct :
    (vs : List Bytes) (w : Bytes)
    → contains vs w ≡ false
    → IsDistinct vs
    → IsDistinct (vs ++ w ∷ [])
unfolding contains
add-IsDistinct [] w h d = (refl, tt)
add-IsDistinct (v ∷ vs) w h d = (
  ground (arith, contains-append vs w v, bytes_eq_iff v w, bytes_eq_iff w v),
  add-IsDistinct vs w (ground (arith)) d.1,
)

-- What an extension looks like that a scan compares with.
pub record IsExtension (e : Bytes) : Type 0 where
  dot : has_prefix e (codes ".") ≡ true
  no_glob : contains_any e glob_characters ≡ false
  not_only_dot : e ≢ codes "."

dotted-IsExtension : (e : Bytes) → is_bad_extension e ≡ false → IsExtension (dotted e)
unfolding has_prefix contains_any member bytes_eq
dotted-IsExtension [] h = absurd (cc)
dotted-IsExtension (c ∷ e) h =
    let apart : bytes_eq (c ∷ e) (codes ".") ≡ false = ground arith in
    let clean : contains_any (c ∷ e) glob_characters ≡ false = ground arith in
    elim (Bool-cases (c == b'.')) [
      | inl has ↦ rw has (record {
        dot = rw has;
        no_glob = clean;
        not_only_dot = λ e'.
            let t : bytes_eq (c ∷ e) (codes ".") ≡ true = (bytes_eq_iff (c ∷ e) (codes ".")).1 e' in
            cc;
      })
      | inr lacks ↦ rw lacks (record { dot = refl; no_glob = clean; not_only_dot = λ e'. cc })
    ]

-- The values of `-extension`: each has the form of an extension, and none stands there twice.
abbrev pub AreExtensions : List Bytes → Type 0
AreExtensions vs = All IsExtension vs × IsDistinct vs

add_value-AreExtensions :
    (vs : List Bytes) (e : Bytes)
    → IsExtension e
    → AreExtensions vs
    → AreExtensions (add_value vs e)
unfolding add_value
add_value-AreExtensions vs e h (a, d) = elim (Bool-cases (contains vs e)) [
  | inl old ↦ rw old (a, d)
  | inr new ↦ rw new (All-append IsExtension vs (e ∷ []) a (h, tt), add-IsDistinct vs e new d)
]

parts-AreExtensions :
    (parts vs : List Bytes) → AreExtensions vs → AreExtensions (extension_values vs parts).0
unfolding extension_values
parts-AreExtensions [] vs h = h
parts-AreExtensions (part ∷ parts) vs h =
    let e = to_lower (trim_space part) in
    elim (Bool-cases (is_bad_extension e)) [
      | inl bad ↦ rw bad h
      | inr good ↦ rw good (
          parts-AreExtensions parts (add_value vs (dotted e))
            (add_value-AreExtensions vs (dotted e) (dotted-IsExtension e good) h))
    ]

-- `extensionFlag.Set` keeps the list of extensions well formed, also where it fails half-way:
-- every one starts with a dot, is more than the dot, has no character of a glob, and stands there once.
pub extension_set-AreExtensions :
    (vs : List Bytes) (value : Bytes) → AreExtensions vs → AreExtensions (extension_set vs value).0
unfolding extension_set
extension_set-AreExtensions vs value h = parts-AreExtensions (split_at b',' value) vs h
