-- ===== src/Utf16/Spell.antt =====
-- UTF-16 as the Unicode standard writes it, and what the loop over code units of
-- internal/scanner/jks.go and internal/scanner/pkcs12.go makes of it.
use mathlib.Core.Path.{subst}
use certfinder.Base.Bits.{bit_or-eq-add}
use certfinder.Base.Utf8.{encode_runes}
use certfinder.Base.{
  ℕ, ◌+◌, ◌-◌, ◌/◌, ◌%◌, ◌<◌, ◌≤◌, ◌≡◌, ◌⊎◌, inl, inr, refl, ◌∙◌, ap, sym, Bool-cases, List, [],
  ◌∷◌, ◌++◌, append_assoc, length, length-append, Bytes, All, ltb, if◌then◌else◌, GoError, errorf,
  num, Result, ok, err, ◌>>=◌, arith,
}
use certfinder.Utf16.{decode_rune, decode_units, units_to_string}

-- A character: a code point that is no surrogate.
abbrev pub IsCharacter : ℕ → Type 0
IsCharacter r = (r < 0xd800) ⊎ ((0xe000 ≤ r) × (r < 0x110000))

abbrev pub utf16_units : ℕ → List ℕ
utf16_units r =
    if ltb r 0x10000
    then r ∷ []
    else (0xd800 + (r - 0x10000) / 1024) ∷ (0xdc00 + (r - 0x10000) % 1024) ∷ []

-- The code units of a text.
abbrev pub utf16 : List ℕ → List ℕ
utf16 [] = []
utf16 (r ∷ rs) = utf16_units r ++ utf16 rs

abbrev pub NoLowFirst : List ℕ → Type 0
NoLowFirst [] = Unit
NoLowFirst (u ∷ us) = (u < 0xdc00) ⊎ (0xdfff < u)

abbrev pub unpaired_low : ℕ → GoError
unpaired_low index = errorf "unpaired low surrogate at code unit %d" (num index ∷ [])

abbrev pub unpaired_high : ℕ → GoError
unpaired_high index = errorf "unpaired high surrogate at code unit %d" (num index ∷ [])

-- What follows the code units of the text `rs`, and what is read then: nothing and the text, or a
-- surrogate without its partner and the error that names its place.
pub data IsEnding (rs : List ℕ) : List ℕ → Result Bytes → Type 0 where
  complete : IsEnding rs [] (ok (encode_runes rs))
  lone_low :
      (u : ℕ) (us : List ℕ)
      → 0xdc00 ≤ u
      → u ≤ 0xdfff
      → IsEnding rs (u ∷ us) (err (unpaired_low (length (utf16 rs))))
  lone_high :
      (u : ℕ) (us : List ℕ)
      → 0xd800 ≤ u
      → u ≤ 0xdbff
      → NoLowFirst us
      → IsEnding rs (u ∷ us) (err (unpaired_high (length (utf16 rs))))

abbrev put : ℕ → Result (List ℕ) → Result (List ℕ)
put r (ok rs) = ok (r ∷ rs)
put r (err e) = err e

abbrev put_all : List ℕ → Result (List ℕ) → Result (List ℕ)
put_all rs (ok ts) = ok (rs ++ ts)
put_all rs (err e) = err e

put-put_all :
    (r : ℕ) (rs : List ℕ) (x : Result (List ℕ)) → put r (put_all rs x) ≡ put_all (r ∷ rs) x
put-put_all r rs (ok ts) = refl
put-put_all r rs (err e) = refl

put_all_of_none : (x : Result (List ℕ)) → put_all [] x ≡ x
put_all_of_none (ok ts) = refl
put_all_of_none (err e) = refl

bind-put : (r : ℕ) (x : Result (List ℕ)) → (do rs ← x; ok (r ∷ rs)) ≡ put r x
bind-put r (ok rs) = refl
bind-put r (err e) = refl

read_unit :
    (i u : ℕ) (us : List ℕ)
    → (u < 0xd800) ⊎ (0xe000 ≤ u)
    → decode_units i (u ∷ us) ≡ put u (decode_units (i + 1) us)
unfolding decode_units
read_unit i u [] h = ground arith
read_unit i u (v ∷ us) h = ground (arith, bind-put u (decode_units (i + 1) (v ∷ us)))

read_pair :
    (i high low : ℕ) (us : List ℕ)
    → 0xd800 ≤ high
    → high ≤ 0xdbff
    → 0xdc00 ≤ low
    → low ≤ 0xdfff
    → decode_units i (high ∷ low ∷ us) ≡ put (decode_rune high low) (decode_units (i + 2) us)
unfolding decode_units
read_pair i high low us a b c d =
    ground (arith, bind-put (decode_rune high low) (decode_units (i + 2) us))

decode_rune-units :
    (r : ℕ)
    → 0x10000 ≤ r
    → decode_rune (0xd800 + (r - 0x10000) / 1024) (0xdc00 + (r - 0x10000) % 1024) ≡ r
decode_rune-units r h =
    ground (arith, bit_or-eq-add 10 ((r - 0x10000) / 1024) ((r - 0x10000) % 1024) (omega arith))

-- The code units of one character in front of anything.
read_character :
    (i r : ℕ) (us : List ℕ)
    → IsCharacter r
    → decode_units i (utf16_units r ++ us) ≡ put r (decode_units (i + length (utf16_units r)) us)
read_character i r us h = elim (Bool-cases (ltb r 0x10000)) [
  | inl small ↦ rw small (read_unit i r us (ground arith))
  | inr large ↦ rw large (
      read_pair i (0xd800 + (r - 0x10000) / 1024) (0xdc00 + (r - 0x10000) % 1024) us (ground arith)
        (ground arith) (ground arith) (ground arith)
      ∙ ap (λ x. put x (decode_units (i + 2) us)) (decode_rune-units r (ground arith)))
]

read_text :
    (rs : List ℕ) (i : ℕ) (us : List ℕ)
    → All IsCharacter rs
    → decode_units i (utf16 rs ++ us) ≡ put_all rs (decode_units (i + length (utf16 rs)) us)
read_text [] i us h =
    let e : i + 0 ≡ i = omega arith in rw e (sym (put_all_of_none (decode_units i us)))
read_text (r ∷ rs) i us h =
    let n = length (utf16_units r) in
    let e : i + n + length (utf16 rs) ≡ i + length (utf16_units r ++ utf16 rs) =
      omega (arith, length-append (utf16_units r) (utf16 rs)) in
    ap (decode_units i) (append_assoc (utf16_units r) (utf16 rs) us)
    ∙ read_character i r (utf16 rs ++ us) h.0
    ∙ ap (put r) (read_text rs (i + n) us h.1)
    ∙ put-put_all r rs (decode_units (i + n + length (utf16 rs)) us)
    ∙ ap (λ j. put_all (r ∷ rs) (decode_units j us)) e

abbrev to_string : Result (List ℕ) → Result Bytes
to_string x = do runes ← x; ok (encode_runes runes)

put_all_nil : (rs : List ℕ) → put_all rs (ok []) ≡ ok rs
put_all_nil [] = refl
put_all_nil (r ∷ rs) = ap (put r) (put_all_nil rs)

read_low :
    (i u : ℕ) (us : List ℕ)
    → 0xdc00 ≤ u
    → u ≤ 0xdfff
    → decode_units i (u ∷ us) ≡ err (unpaired_low i)
unfolding decode_units
read_low i u [] h k = ground arith
read_low i u (v ∷ us) h k = ground arith

read_high :
    (i u : ℕ) (us : List ℕ)
    → 0xd800 ≤ u
    → u ≤ 0xdbff
    → NoLowFirst us
    → decode_units i (u ∷ us) ≡ err (unpaired_high i)
unfolding decode_units
read_high i u [] h k l = ground arith
read_high i u (v ∷ us) h k l = ground arith

-- The code units of a text and of what follows it are read as the ending says.
pub units_to_string-utf16 :
    (rs tail : List ℕ) (r : Result Bytes)
    → All IsCharacter rs
    → IsEnding rs tail r
    → units_to_string (utf16 rs ++ tail) ≡ r
unfolding units_to_string
units_to_string-utf16 rs _ _ h complete =
    let e : decode_units (0 + length (utf16 rs)) [] ≡ ok [] = unfold decode_units in refl in
    ap to_string (read_text rs 0 [] h ∙ ap (put_all rs) e ∙ put_all_nil rs)
units_to_string-utf16 rs _ _ h (lone_low u us a b) =
    let n : 0 + length (utf16 rs) ≡ length (utf16 rs) = omega arith in
    ap to_string (
      read_text rs 0 (u ∷ us) h
      ∙ ap (λ j. put_all rs (decode_units j (u ∷ us))) n
      ∙ ap (put_all rs) (read_low (length (utf16 rs)) u us a b))
units_to_string-utf16 rs _ _ h (lone_high u us a b c) =
    let n : 0 + length (utf16 rs) ≡ length (utf16 rs) = omega arith in
    ap to_string (
      read_text rs 0 (u ∷ us) h
      ∙ ap (λ j. put_all rs (decode_units j (u ∷ us))) n
      ∙ ap (put_all rs) (read_high (length (utf16 rs)) u us a b c))

-- Numbers of 16 bits.
abbrev pub IsUnit : ℕ → Type 0
IsUnit u = u < 65536

All-append : (xs ys : List ℕ) → All IsUnit xs → All IsUnit ys → All IsUnit (xs ++ ys)
All-append [] ys h k = k
All-append (x ∷ xs) ys h k = (h.0, All-append xs ys h.1 k)

utf16_units-IsUnit : (r : ℕ) → IsCharacter r → All IsUnit (utf16_units r)
utf16_units-IsUnit r h = ground arith

pub utf16-IsUnit :
    (rs tail : List ℕ) → All IsCharacter rs → All IsUnit tail → All IsUnit (utf16 rs ++ tail)
utf16-IsUnit [] tail h k = k
utf16-IsUnit (r ∷ rs) tail h k =
    subst (All IsUnit) (sym (append_assoc (utf16_units r) (utf16 rs) tail)) (
      All-append (utf16_units r) (utf16 rs ++ tail) (utf16_units-IsUnit r h.0)
        (utf16-IsUnit rs tail h.1 k))
