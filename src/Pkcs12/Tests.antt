-- ===== src/Pkcs12/Tests.antt =====
-- A letter and a high surrogate alone.
use certfinder.Base.{ℕ, ◌≡◌, List, [], ◌∷◌, ◌++◌, err, inl, arith}
use certfinder.Pkcs12.{decode_utf16_be}
use certfinder.Pkcs12.BigEndian.{encode_be, decode_utf16_be-encode_be}
use certfinder.Utf16.Spell.{lone_high, unpaired_high, utf16}

abbrev letter : List ℕ
letter = 0x41 ∷ []

decode_utf16_be-encode_be_example :
    decode_utf16_be (encode_be (utf16 letter ++ 0xd83d ∷ [])) ≡ err (unpaired_high 1)
decode_utf16_be-encode_be_example =
    decode_utf16_be-encode_be letter (0xd83d ∷ []) (err (unpaired_high 1)) (inl (omega arith), tt)
      (lone_high 0xd83d [] (omega arith) (omega arith) tt)
