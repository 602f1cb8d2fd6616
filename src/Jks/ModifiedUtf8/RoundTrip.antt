-- ===== src/Jks/ModifiedUtf8/RoundTrip.antt =====
-- Java's encoder of text, and `decodeJavaModifiedUTF8` of internal/scanner/jks.go after it.
use certfinder.Base.{
  ℕ, ◌+◌, ◌/◌, ◌%◌, ◌<◌, ◌≡◌, ◌∙◌, refl, Result, true, false, ◌&&◌, List, [], ◌∷◌, ◌++◌, Bytes, All,
  leb, ltb, if◌then◌else◌, ok, ◌>>=◌, arith, Bool-cases, inl, inr,
}
use certfinder.Jks.ModifiedUtf8.Masks.{
  is_two_lem, is_three_lem, is_next_lem, value_two_lem, value_three_lem,
}
use certfinder.Jks.ModifiedUtf8.{
  is_one, is_two, is_three, is_next, check_two, check_three, code_units, decode_java_modified_utf8,
}
use certfinder.Utf16.Spell.{
  IsCharacter, IsEnding, IsUnit, utf16, units_to_string-utf16, utf16-IsUnit,
}
use certfinder.Utf16.{units_to_string}

-- How Java writes one code unit: U+0000 takes two bytes.
unfoldable pub encode_unit : ℕ → Bytes
encode_unit u =
    if leb 0x01 u && leb u 0x7f
    then u ∷ []
    else if ltb u 0x800
    then (0xc0 + u / 64) ∷ (0x80 + u % 64) ∷ []
    else (0xe0 + u / 4096) ∷ (0x80 + u / 64 % 64) ∷ (0x80 + u % 64) ∷ []

unfoldable pub encode_units : List ℕ → Bytes
unfolding encode_unit
encode_units [] = []
encode_units (u ∷ us) = encode_unit u ++ encode_units us

module _ (o a : ℕ) where
  read_one :
      (s : Bytes)
      → is_one a ≡ true
      → (do us ← code_units (o + 1) s; ok (a ∷ us)) ≡ code_units o (a ∷ s)
  unfolding code_units
  read_one [] h = ground arith
  read_one (b ∷ []) h = ground arith
  read_one (b ∷ c ∷ s) h = ground arith

  read_two :
      (b v : ℕ) (s : Bytes)
      → is_one a ≡ false
      → is_two a ≡ true
      → is_next b ≡ true
      → check_two o a b ≡ ok v
      → (do us ← code_units (o + 2) s; ok (v ∷ us)) ≡ code_units o (a ∷ b ∷ s)
  unfolding code_units
  read_two b v [] h k l m = ground arith
  read_two b v (c ∷ s) h k l m = ground arith

  read_three :
      (b c v : ℕ) (s : Bytes)
      → is_one a ≡ false
      → is_two a ≡ false
      → is_three a ≡ true
      → is_next b ≡ true
      → is_next c ≡ true
      → check_three o a b c ≡ ok v
      → (do us ← code_units (o + 3) s; ok (v ∷ us)) ≡ code_units o (a ∷ b ∷ c ∷ s)
  unfolding code_units
  read_three b c v s h k t l m n = ground arith

-- One unit in front of anything.
read-encode_unit :
    (o u : ℕ) (s : Bytes)
    → u < 65536
    → (o' : ℕ) × ((do us ← code_units o' s; ok (u ∷ us)) ≡ code_units o (encode_unit u ++ s))
unfolding encode_unit check_two check_three
read-encode_unit o u s h = elim (Bool-cases (leb 0x01 u && leb u 0x7f)) [
  | inl one ↦ rw one (o + 1, read_one o u s one)
  | inr more ↦ elim (Bool-cases (ltb u 0x800)) [
    | inl two ↦
        rw (more, two)
          (let a = 0xc0 + u / 64 in
            let b = 0x80 + u % 64 in
            (
              o + 2,
              read_two o a b u s (ground arith) (ground (arith, is_two_lem a))
                  (ground (arith, is_next_lem b)) (ground (arith, value_two_lem a b)),
            ))
    | inr three ↦
        rw (more, three)
          (let a = 0xe0 + u / 4096 in
            let b = 0x80 + u / 64 % 64 in
            let c = 0x80 + u % 64 in
            (
              o + 3,
              read_three o a b c u s (ground arith) (ground (arith, is_two_lem a))
                  (ground (arith, is_three_lem a)) (ground (arith, is_next_lem b))
                  (ground (arith, is_next_lem c)) (ground (arith, value_three_lem a b c)),
            ))
  ]
]

-- Whatever code units a text has, the decoder reads them back from the bytes that Java writes,
-- from any place on.
pub code_units-encode_units :
    (us : List ℕ) (o : ℕ) → All (λ u. u < 65536) us → code_units o (encode_units us) ≡ ok us
unfolding encode_units
code_units-encode_units [] o h = unfold code_units in refl
code_units-encode_units (u ∷ us) o h =
    let (o', e) = read-encode_unit o u (encode_units us) h.0 in
    rw (← e) (rw (code_units-encode_units us o' h.1))

decode-units :
    (us : List ℕ)
    → All (λ u. u < 65536) us
    → decode_java_modified_utf8 (encode_units us) ≡ units_to_string us
unfolding decode_java_modified_utf8
decode-units us h = rw (code_units-encode_units us 0 h)

-- The UTF-16 code units of any characters, written as Java does, are decoded to the UTF-8 of these
-- characters. Where a surrogate without its partner follows them, with any 16-bit units after it,
-- the result is the error that names the surrogate's kind and its place among the units.
pub decode-encode_units :
    (rs tail : List ℕ) (r : Result Bytes)
    → All IsCharacter rs
    → All IsUnit tail
    → IsEnding rs tail r
    → decode_java_modified_utf8 (encode_units (utf16 rs ++ tail)) ≡ r
decode-encode_units rs tail r h k e =
    decode-units (utf16 rs ++ tail) (utf16-IsUnit rs tail h k) ∙ units_to_string-utf16 rs tail r h e
