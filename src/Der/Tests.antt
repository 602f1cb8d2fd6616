-- ===== src/Der/Tests.antt =====
-- A header with a length of two bytes.
use certfinder.Base.{◌≡◌, refl, some, [], ◌∷◌, Bytes}
use certfinder.Der.{DerElementHeader, read_der_element_header}
use certfinder.Der.Bounds.{IsHeaderAt, read_der_element_header-IsHeaderAt}

abbrev element : Bytes
element = 0x30 ∷ 0x81 ∷ 200 ∷ 1 ∷ 2 ∷ []

abbrev header : DerElementHeader
header = record { tag = 0x30; content_offset = 3; end = 203 }

header_of_element : read_der_element_header element 0 300 ≡ some header
unfolding read_der_element_header
header_of_element = refl

read_der_element_header-IsHeaderAt_example : IsHeaderAt element 0 300 header
read_der_element_header-IsHeaderAt_example =
    read_der_element_header-IsHeaderAt element 0 300 header header_of_element
