-- ===== src/Der/Bounds.antt =====
-- Where a header that `readDERElementHeader` of internal/scanner/pkcs12.go reads, and its element, lie.
use certfinder.Base.{
  ℕ, ◌+◌, ◌-◌, ◌^◌, ◌<◌, ◌≤◌, ◌≡◌, refl, Bool, true, false, ◌||◌, Option, none, some, Bytes, length,
  get_or, take, drop, leb, ltb, ◌==◌, if◌then◌else◌, bit_and, arith,
}
use certfinder.Der.{
  DerElementHeader, max_int, header_of, long_form, read_der_element_header, length_from,
}

-- What holds of a header that was read at `offset`: its content starts after the tag and the length,
-- 2 to 10 bytes that the data has, and ends within the limit at a number that an int can hold.
pub record IsHeaderAt (bytes : Bytes) (offset limit : ℕ) (h : DerElementHeader) : Type 0 where
  tag_read : h.tag ≡ get_or bytes offset 0
  after_length : offset + 2 ≤ h.content_offset
  length_size : h.content_offset ≤ offset + 10
  in_data : h.content_offset ≤ length bytes
  ordered : h.content_offset ≤ h.end
  within : h.end ≤ limit
  fits_int : h.end < 2 ^ 63

abbrev OnSome : {A : Type 0} → (A → Type 0) → Option A → Type 0
OnSome P none = Unit
OnSome P (some a) = P a

OnSome-if :
    {A : Type 0} (P : A → Type 0) (t : Bool) (m n : Option A)
    → (t ≡ true → OnSome P m)
    → (t ≡ false → OnSome P n)
    → OnSome P (if t then m else n)
OnSome-if P true m n h k = h refl
OnSome-if P false m n h k = k refl

on_some : {A : Type 0} (P : A → Type 0) {o : Option A} {a : A} → o ≡ some a → OnSome P o → P a
on_some P h p = rw h at p

module _ (bytes : Bytes) (offset limit : ℕ) where
  header_of-IsHeaderAt :
      (c n : ℕ)
      → offset + 2 ≤ c
      → c ≤ offset + 10
      → c ≤ length bytes
      → OnSome (IsHeaderAt bytes offset limit) (header_of (get_or bytes offset 0) c n limit)
  unfolding header_of
  header_of-IsHeaderAt c n a b d =
      OnSome-if (IsHeaderAt bytes offset limit) (ltb max_int n || ltb (max_int - n) c) _ _ (λ _. tt)
        (λ big.
          OnSome-if (IsHeaderAt bytes offset limit) (ltb limit (c + n)) _ _ (λ _. tt)
            (λ far. record {
              tag_read = refl;
              after_length = a;
              length_size = b;
              in_data = d;
              ordered = omega arith;
              within = ground arith;
              fits_int = ground arith;
            }))

  long_form-IsHeaderAt :
      (count : ℕ)
      → OnSome
          (IsHeaderAt bytes offset limit)
          (long_form bytes (get_or bytes offset 0) (offset + 2) count limit)
  unfolding long_form
  long_form-IsHeaderAt count =
      OnSome-if (IsHeaderAt bytes offset limit)
        (count == 0
          || ltb 8 count
          || ltb (length bytes) (offset + 2 + count)
          || get_or bytes (offset + 2) 0 == 0)
        _ _ (λ _. tt)
        (λ good.
          let n = length_from 0 (take count (drop (offset + 2) bytes)) in
          OnSome-if (IsHeaderAt bytes offset limit) (ltb n 128) _ _ (λ _. tt)
            (λ _.
              header_of-IsHeaderAt (offset + 2 + count) n (omega arith) (ground arith)
                (ground arith)))

  -- A header that `readDERElementHeader` returns is one of the data at the offset: the content starts
  -- behind 2 to 10 bytes of the data and ends within the limit.
  pub read_der_element_header-IsHeaderAt :
      (h : DerElementHeader)
      → read_der_element_header bytes offset limit ≡ some h
      → IsHeaderAt bytes offset limit h
  unfolding read_der_element_header
  read_der_element_header-IsHeaderAt h e =
      let first = get_or bytes (offset + 1) 0 in
      let P = IsHeaderAt bytes offset limit in
      on_some P e (
        OnSome-if P (ltb (length bytes) (offset + 2) || leb limit offset) _ _ (λ _. tt)
          (λ good.
            OnSome-if P (bit_and first 128 == 0) _ _
              (λ _.
                header_of-IsHeaderAt (offset + 2) first (omega arith) (omega arith) (ground arith))
              (λ _. long_form-IsHeaderAt (bit_and first 127))))
