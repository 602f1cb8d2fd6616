-- ===== src/Options/Hostname/Labels.antt =====
-- Which names `validateDNSName` of main.go accepts.
use mathlib.Core.Path.{subst}
use certfinder.Base.{
  ℕ, ◌<◌, ◌≤◌, ◌≡◌, ◌↔◌, ◌⊎◌, refl, ap, ◌∙◌, true, false, Option, none, some, List, [], ◌∷◌, ◌++◌,
  Bytes, length, All, Bool-cases, inl, inr, ◌==◌, ==_iff, sym, arith, GoError, ◌≢◌,
}
use certfinder.Options.Hostname.{
  is_label_character, check_characters, starts_with, check_label, check_labels, trim_dot,
  validate_dns_name, first_error,
}
use certfinder.Options.Strings.{split_at, glue, ends_with, but_last}

-- A letter, a digit, a hyphen or an underscore
abbrev IsCharacter : ℕ → Type 0
IsCharacter c =
    ((b'a' ≤ c) × (c ≤ b'z'))
    ⊎ ((b'A' ≤ c) × (c ≤ b'Z'))
    ⊎ ((b'0' ≤ c) × (c ≤ b'9'))
    ⊎ (c ≡ b'-')
    ⊎ (c ≡ b'_')

is_label_character_iff : (c : ℕ) → (is_label_character c ≡ true) ↔ IsCharacter c
is_label_character_iff c = ground arith

ends_with-last : (s : Bytes) (c : ℕ) → ends_with (s ++ c ∷ []) c ≡ true
unfolding ends_with
ends_with-last [] c = ground arith
ends_with-last (x ∷ []) c = ground arith
ends_with-last (x ∷ y ∷ s) c = ends_with-last (y ∷ s) c

but_last-last : (s : Bytes) (c : ℕ) → but_last (s ++ c ∷ []) ≡ s
unfolding but_last
but_last-last [] c = refl
but_last-last (x ∷ []) c = refl
but_last-last (x ∷ y ∷ s) c = ap (λ t. x ∷ t) (but_last-last (y ∷ s) c)

but_last-ends : (s : Bytes) (c : ℕ) → ends_with s c ≡ true → s ≡ but_last s ++ c ∷ []
unfolding ends_with but_last
but_last-ends [] c h = absurd (cc)
but_last-ends (x ∷ []) c h = ground arith
but_last-ends (x ∷ y ∷ s) c h = ap (λ t. x ∷ t) (but_last-ends (y ∷ s) c h)

-- No text before the character makes up the list.
ends_with-false : (s : Bytes) (c : ℕ) → (ends_with s c ≡ false) ↔ ((t : Bytes) → s ≢ t ++ c ∷ [])
ends_with-false s c = (
  λ h t e. absurd (let k = ends_with-last t c in cc),
  λ h. elim (Bool-cases (ends_with s c)) [
    | inl b ↦ absurd (h (but_last s) (but_last-ends s c b))
    | inr b ↦ b
  ],
)

starts_with-false : (s : Bytes) (c : ℕ) → (starts_with s c ≡ false) ↔ ((t : Bytes) → s ≢ c ∷ t)
unfolding starts_with
starts_with-false [] c = (λ h t e. cc, λ h. refl)
starts_with-false (x ∷ s) c = (
  λ h t e. ground arith,
  λ h. elim (Bool-cases (x == c)) [
    | inl b ↦ absurd (h s (ap (λ y. y ∷ s) ((==_iff x c).0 b)))
    | inr b ↦ b
  ],
)

record IsLabel (l : Bytes) : Type 0 where
  not_empty : 0 < length l
  bounded : length l ≤ 63
  no_hyphen_first : (s : Bytes) → l ≢ b'-' ∷ s
  no_hyphen_last : (s : Bytes) → l ≢ s ++ b'-' ∷ []
  characters : All IsCharacter l

abbrev join : List Bytes → Bytes
join [] = []
join (l ∷ []) = l
join (l ∷ m ∷ ls) = l ++ b'.' ∷ join (m ∷ ls)

-- A name: it is the labels that its dots separate.
pub record IsName (v : Bytes) : Type 0 where
  has_text : 0 < length v
  short : length v ≤ 253
  of_labels : join (split_at b'.' v) ≡ v
  good : All IsLabel (split_at b'.' v)

check_characters-All : (s : Bytes) → (check_characters s ≡ none) ↔ All IsCharacter s
unfolding check_characters
check_characters-All [] = (λ _. tt, λ _. refl)
check_characters-All (c ∷ s) = ground (arith, is_label_character_iff c, check_characters-All s)

check_label-IsLabel : (l : Bytes) → (check_label l ≡ none) ↔ IsLabel l
unfolding check_label
check_label-IsLabel l = (
  λ h. record {
    not_empty = ground arith;
    bounded = ground arith;
    no_hyphen_first = (starts_with-false l b'-').0 (ground arith);
    no_hyphen_last = (ends_with-false l b'-').0 (ground arith);
    characters = (check_characters-All l).0 (ground arith);
  },
  λ h. ground (
    arith,
    h.not_empty,
    h.bounded,
    (starts_with-false l b'-').1 h.no_hyphen_first,
    (ends_with-false l b'-').1 h.no_hyphen_last,
    (check_characters-All l).1 h.characters,
  ),
)

both :
    {P Q : Type 0} (a b : Option GoError)
    → (a ≡ none) ↔ P
    → (b ≡ none) ↔ Q
    → (first_error a b ≡ none) ↔ (P × Q)
both none b h k = (λ e. (h.0 refl, k.0 e), λ x. k.1 x.1)
both (some a) b h k = (λ e. cc, λ x. absurd (let e = h.1 x.0 in cc))

check_labels-All : (ls : List Bytes) → (check_labels ls ≡ none) ↔ All IsLabel ls
unfolding check_labels
check_labels-All [] = (λ _. tt, λ _. refl)
check_labels-All (l ∷ ls) =
    both (check_label l) (check_labels ls) (check_label-IsLabel l) (check_labels-All ls)

glue-ne : (c : ℕ) (ls : List Bytes) → glue c ls ≢ []
glue-ne c [] h = cc
glue-ne c (l ∷ ls) h = cc

split_at-ne : (d : ℕ) (s : Bytes) → split_at d s ≢ []
unfolding split_at
split_at-ne d [] h = cc
split_at-ne d (c ∷ s) h = elim (Bool-cases (c == d)) [
  | inl same ↦ absurd (cc (rw same at h))
  | inr other ↦ glue-ne c (split_at d s) (rw other at h)
]

join-glue : (c : ℕ) (ls : List Bytes) → join (glue c ls) ≡ c ∷ join ls
join-glue c [] = refl
join-glue c (l ∷ []) = refl
join-glue c (l ∷ m ∷ ls) = refl

join-dot : (ls : List Bytes) → ls ≢ [] → join ([] ∷ ls) ≡ b'.' ∷ join ls
join-dot [] h = absurd (h refl)
join-dot (l ∷ ls) h = refl

join-split_at : (s : Bytes) → join (split_at b'.' s) ≡ s
unfolding split_at
join-split_at [] = refl
join-split_at (c ∷ s) = elim (Bool-cases (c == b'.')) [
  | inl same ↦
      rw same (join-dot (split_at b'.' s) (split_at-ne b'.' s) ∙ ground (arith, join-split_at s))
  | inr other ↦ rw other (join-glue c (split_at b'.' s) ∙ ap (λ t. c ∷ t) (join-split_at s))
]

-- The name that is meant by a value: a dot at the end is left aside.
pub data IsRootedName : Bytes → Type 0 where
  with_dot : (v : Bytes) → IsName v → IsRootedName (v ++ b'.' ∷ [])
  without_dot : (v : Bytes) → ((w : Bytes) → v ≢ w ++ b'.' ∷ []) → IsName v → IsRootedName v

trim_dot-ends : (v : Bytes) → ends_with v b'.' ≡ true → trim_dot v ≡ but_last v
unfolding trim_dot
trim_dot-ends v b = rw b refl

trim_dot-dot : (w : Bytes) → trim_dot (w ++ b'.' ∷ []) ≡ w
unfolding trim_dot
trim_dot-dot w = rw (ends_with-last w b'.') (but_last-last w b'.')

trim_dot-none : (w : Bytes) → ((s : Bytes) → w ≢ s ++ b'.' ∷ []) → trim_dot w ≡ w
unfolding trim_dot
trim_dot-none w h = rw ((ends_with-false w b'.').1 h) refl

trim_dot-IsRootedName : (v : Bytes) → IsName (trim_dot v) ↔ IsRootedName v
trim_dot-IsRootedName v = (
  λ h. elim (Bool-cases (ends_with v b'.')) [
    | inl b ↦
        subst IsRootedName (sym (but_last-ends v b'.' b))
          (with_dot (but_last v) (subst IsName (trim_dot-ends v b) h))
    | inr b ↦
        without_dot v ((ends_with-false v b'.').0 b)
          (subst IsName (trim_dot-none v ((ends_with-false v b'.').0 b)) h)
  ],
  trimmed v,
)
  where
    trimmed : (w : Bytes) → IsRootedName w → IsName (trim_dot w)
    trimmed _ (with_dot w h) = subst IsName (sym (trim_dot-dot w)) h
    trimmed _ (without_dot w k h) = subst IsName (sym (trim_dot-none w k)) h

-- `validateDNSName` has no error exactly for a name of 1 to 253 characters, a dot at its end left
-- aside, whose labels have 1 to 63 letters, digits, hyphens and underscores with no hyphen at an end.
pub validate_dns_name-IsName :
    (value : Bytes) → (validate_dns_name value ≡ none) ↔ IsRootedName value
unfolding validate_dns_name
validate_dns_name-IsName value =
    let v = trim_dot value in
    let l = check_labels-All (split_at b'.' v) in
    (
      λ h. (trim_dot-IsRootedName value).0 (record {
        has_text = ground arith;
        short = ground arith;
        of_labels = join-split_at v;
        good = l.0 (ground arith);
      }),
      λ r.
          (let h = (trim_dot-IsRootedName value).1 r in
            ground (arith, h.has_text, h.short, l.1 h.good)),
    )
