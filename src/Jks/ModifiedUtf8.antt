-- ===== src/Jks/ModifiedUtf8.antt =====
-- `decodeJavaModifiedUTF8` of internal/scanner/jks.go: Java's text encoding, read into UTF-16 code
-- units and then into the bytes of a Go string.
pub mod Canonical
pub mod RoundTrip
mod Masks
use certfinder.Base.{
  ℕ, ◌+◌, ◌*◌, ◌^◌, bit_and, bit_or, not, ◌&&◌, ◌||◌, List, [], ◌∷◌, Bytes, leb, ltb, ◌==◌,
  if◌then◌else◌, Bool, num, errorf, GoError, Result, ok, err, ◌>>=◌,
}
use certfinder.Utf16.{units_to_string}

abbrev pub is_one : ℕ → Bool
is_one a = leb 0x01 a && leb a 0x7f

abbrev pub is_two : ℕ → Bool
is_two a = bit_and a 0xe0 == 0xc0

abbrev pub is_three : ℕ → Bool
is_three a = bit_and a 0xf0 == 0xe0

abbrev pub is_next : ℕ → Bool
is_next b = bit_and b 0xc0 == 0x80

abbrev pub value_two : ℕ → ℕ → ℕ
value_two a b = bit_or (bit_and a 0x1f * 2 ^ 6) (bit_and b 0x3f)

abbrev pub value_three : ℕ → ℕ → ℕ → ℕ
value_three a b c =
    bit_or (bit_or (bit_and a 0x0f * 2 ^ 12) (bit_and b 0x3f * 2 ^ 6)) (bit_and c 0x3f)

abbrev invalid_two : ℕ → GoError
invalid_two offset = errorf "invalid two-byte sequence at offset %d" (num offset ∷ [])

abbrev invalid_three : ℕ → GoError
invalid_three offset = errorf "invalid three-byte sequence at offset %d" (num offset ∷ [])

abbrev invalid_leading : ℕ → ℕ → GoError
invalid_leading a offset =
    errorf "invalid leading byte 0x%02x at offset %d" (num a ∷ num offset ∷ [])

-- What the case for two bytes finds wrong with them, once the second is a continuation byte.
pub check_two : ℕ → ℕ → ℕ → Result ℕ
check_two offset a b =
    let value = value_two a b in
    if not (value == 0) && ltb value 0x80
    then err (errorf "overlong two-byte sequence at offset %d" (num offset ∷ []))
    else if value == 0 && (not (a == 0xc0) || not (b == 0x80))
    then err (errorf "invalid NUL sequence at offset %d" (num offset ∷ []))
    else ok value

pub check_three : ℕ → ℕ → ℕ → ℕ → Result ℕ
check_three offset a b c =
    let value = value_three a b c in
    if ltb value 0x800
    then err (errorf "overlong three-byte sequence at offset %d" (num offset ∷ []))
    else ok value

-- The first loop: the code units of the bytes from `offset` on.
unfoldable pub code_units : ℕ → Bytes → Result (List ℕ)
unfolding check_two check_three
code_units offset [] = ok []
code_units offset (a ∷ []) =
    if is_one a
    then ok (a ∷ [])
    else if is_two a
    then err (invalid_two offset)
    else if is_three a
    then err (invalid_three offset)
    else err (invalid_leading a offset)
code_units offset (a ∷ b ∷ []) =
    let after_one = (do us ← code_units (offset + 1) (b ∷ []); ok (a ∷ us)) in
    if is_one a
    then after_one
    else if is_two a
    then (if is_next b
        then (do v ← check_two offset a b; ok (v ∷ []))
        else err (invalid_two offset))
    else if is_three a
    then err (invalid_three offset)
    else err (invalid_leading a offset)
code_units offset (a ∷ b ∷ c ∷ s) =
    let after_one = (do us ← code_units (offset + 1) (b ∷ c ∷ s); ok (a ∷ us)) in
    let after_two = (do
      v ← check_two offset a b
      us ← code_units (offset + 2) (c ∷ s)
      ok (v ∷ us)) in
    let after_three = (do
      v ← check_three offset a b c
      us ← code_units (offset + 3) s
      ok (v ∷ us)) in
    if is_one a
    then after_one
    else if is_two a
    then (if is_next b then after_two else err (invalid_two offset))
    else if is_three a
    then (if is_next b && is_next c then after_three else err (invalid_three offset))
    else err (invalid_leading a offset)

unfoldable pub decode_java_modified_utf8 : Bytes → Result Bytes
unfolding code_units units_to_string
decode_java_modified_utf8 encoded = do units ← code_units 0 encoded; units_to_string units
