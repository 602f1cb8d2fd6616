-- ===== src/Jks/Tests.antt =====
-- Runs of `parseJavaKeystore` on small files.
use certfinder.Base.Text.{codes}
use certfinder.Base.{
  ℕ, ◌≡◌, refl, true, none, some, List, [], ◌∷◌, ◌++◌, Bytes, length, foreign, Result, ok, err,
  take, ◌-◌, arith, inl, inr,
}
use certfinder.Jks.ModifiedUtf8.{code_units, decode_java_modified_utf8}
use certfinder.Jks.ModifiedUtf8.Canonical.{encode-code_units}
use certfinder.Jks.ModifiedUtf8.RoundTrip.{encode_units, decode-encode_units}
use certfinder.Jks.Parse.{parse_java_keystore, mac_size}
use certfinder.Jks.Parse.Slices.{IsReport, parse_java_keystore-IsReport}
use certfinder.Base.Utf8.{encode_runes}
use certfinder.Utf16.Spell.{complete, utf16}

-- A parser of DER that takes any bytes but none.
abbrev accept : Bytes → Result Bytes
accept [] = err (foreign (codes "empty"))
accept (b ∷ bs) = ok (b ∷ bs)

abbrev mac : Bytes
mac = codes "01234567890123456789"

abbrev trusted_file : Bytes
trusted_file =
    (0xfe ∷ 0xed ∷ 0xfe ∷ 0xed ∷ 0 ∷ 0 ∷ 0 ∷ 2 ∷ 0 ∷ 0 ∷ 0 ∷ 1 ∷ [])
    ++ (0 ∷ 0 ∷ 0 ∷ 2 ∷ 0 ∷ 2 ∷ [])
    ++ codes "ca"
    ++ (0 ∷ 0 ∷ 0 ∷ 0 ∷ 0 ∷ 0 ∷ 0 ∷ 0 ∷ 0 ∷ 5 ∷ [])
    ++ codes "X.509"
    ++ (0 ∷ 0 ∷ 0 ∷ 3 ∷ 7 ∷ 8 ∷ 9 ∷ [])
    ++ mac

parse_trusted_file : parse_java_keystore accept trusted_file ≡ (
  record {
    certificate = some (7 ∷ 8 ∷ 9 ∷ []);
    keystore = record {
      format = codes "JKS";
      alias = codes "ca";
      friendly_name = [];
      entry_type = codes "trustedCertEntry";
      chain_index = 0;
      truststore = true;
    };
  }
      ∷ [],
  none,
)
unfolding parse_java_keystore
parse_trusted_file = refl

parse_java_keystore-IsReport_example :
    IsReport accept
      (take (length trusted_file - mac_size) trusted_file)
      (parse_java_keystore accept trusted_file)
parse_java_keystore-IsReport_example = parse_java_keystore-IsReport accept trusted_file

-- A letter, the character 0 and one that takes a surrogate pair
abbrev characters : List ℕ
characters = 0x41 ∷ 0 ∷ 0x1f600 ∷ []

decode-encode_units_example :
    decode_java_modified_utf8 (encode_units (utf16 characters ++ [])) ≡ ok (encode_runes characters)
decode-encode_units_example =
    decode-encode_units characters [] (ok (encode_runes characters))
      (inl (omega arith), (inl (omega arith), (inr (omega arith, omega arith), tt))) tt complete

abbrev two_units : Bytes
two_units = 0x41 ∷ 0xc0 ∷ 0x80 ∷ []

units_of_two : code_units 0 two_units ≡ ok (0x41 ∷ 0 ∷ [])
unfolding code_units
units_of_two = refl

encode-code_units_example : encode_units (0x41 ∷ 0 ∷ []) ≡ two_units
encode-code_units_example =
    encode-code_units two_units 0 (0x41 ∷ 0 ∷ []) (omega arith, (omega arith, (omega arith, tt)))
      units_of_two
