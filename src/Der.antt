-- ===== src/Der.antt =====
-- Headers of DER elements: `readDERElementHeader` of internal/scanner/pkcs12.go. An int has 64 bits.
pub mod Bounds
mod Tests
use certfinder.Base.{
  ℕ, zero, suc, ◌+◌, ◌*◌, ◌-◌, ◌%◌, ◌^◌, bit_and, Bool, true, false, ◌||◌, Option, none, some, List,
  [], ◌∷◌, Bytes, length, take, drop, get_or, leb, ltb, ◌==◌, if◌then◌else◌,
}

pub record DerElementHeader : Type 0 where
  pub tag : ℕ
  pub content_offset : ℕ
  pub end : ℕ

-- `length = length<<8 | uint64(value)` for each byte; the low 8 bits of the shifted number are 0.
unfoldable pub length_from : ℕ → Bytes → ℕ
length_from n [] = n
length_from n (v ∷ vs) = length_from ((n * 256 + v) % 2 ^ 64) vs

abbrev pub max_int : ℕ
max_int = 2 ^ 63 - 1

-- The end of the element, after its length is read
unfoldable pub header_of : ℕ → ℕ → ℕ → ℕ → Option DerElementHeader
header_of tag offset n limit =
    if ltb max_int n || ltb (max_int - n) offset
    then none
    else if ltb limit (offset + n)
    then none
    else some (record { tag = tag; content_offset = offset; end = offset + n })

-- The long form: `count` bytes of length from `offset` on.
unfoldable pub long_form : Bytes → ℕ → ℕ → ℕ → ℕ → Option DerElementHeader
unfolding length_from header_of
long_form bytes tag offset count limit =
    if count == 0
      || ltb 8 count
      || ltb (length bytes) (offset + count)
      || get_or bytes offset 0 == 0
    then none
    else (let n = length_from 0 (take count (drop offset bytes)) in
        if ltb n 128 then none else header_of tag (offset + count) n limit)

unfoldable pub read_der_element_header : Bytes → ℕ → ℕ → Option DerElementHeader
unfolding long_form header_of
read_der_element_header bytes offset limit =
    if ltb (length bytes) (offset + 2) || leb limit offset
    then none
    else (let tag = get_or bytes offset 0 in
        let first = get_or bytes (offset + 1) 0 in
        if bit_and first 128 == 0
        then header_of tag (offset + 2) first limit
        else long_form bytes tag (offset + 2) (bit_and first 127) limit)
