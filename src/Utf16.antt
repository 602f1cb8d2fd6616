-- ===== src/Utf16.antt =====
-- The loop over UTF-16 code units that ends `decodeJavaModifiedUTF8` in internal/scanner/jks.go,
-- and that internal/scanner/pkcs12.go repeats in `decodeUTF16BE`.
pub mod Spell
use certfinder.Base.Utf8.{encode_runes}
use certfinder.Base.{
  ℕ, ◌+◌, ◌-◌, ◌*◌, ◌^◌, bit_or, Bool, ◌&&◌, ◌||◌, List, [], ◌∷◌, Bytes, leb, ltb, if◌then◌else◌,
  num, errorf, Result, ok, err, ◌>>=◌,
}

abbrev pub is_high : ℕ → Bool
is_high u = leb 0xd800 u && leb u 0xdbff

abbrev pub is_low : ℕ → Bool
is_low u = leb 0xdc00 u && leb u 0xdfff

-- `utf16.DecodeRune` of a surrogate pair
abbrev pub decode_rune : ℕ → ℕ → ℕ
decode_rune high low = bit_or ((high - 0xd800) * 2 ^ 10) (low - 0xdc00) + 0x10000

-- The runes of the code units; `index` is the place of the first unit that is left.
unfoldable pub decode_units : ℕ → List ℕ → Result (List ℕ)
decode_units index [] = ok []
decode_units index (unit ∷ []) =
    if is_high unit
    then err (errorf "unpaired high surrogate at code unit %d" (num index ∷ []))
    else if is_low unit
    then err (errorf "unpaired low surrogate at code unit %d" (num index ∷ []))
    else ok (unit ∷ [])
decode_units index (unit ∷ next ∷ units) =
    let after_pair = do runes ← decode_units (index + 2) units; ok (decode_rune unit next ∷ runes)
    in let after_unit = do runes ← decode_units (index + 1) (next ∷ units); ok (unit ∷ runes)
      in if is_high unit
        then (if ltb next 0xdc00 || ltb 0xdfff next
            then err (errorf "unpaired high surrogate at code unit %d" (num index ∷ []))
            else after_pair)
        else if is_low unit
        then err (errorf "unpaired low surrogate at code unit %d" (num index ∷ []))
        else after_unit

-- The text of the units, or the place of the first unpaired surrogate.
unfoldable pub units_to_string : List ℕ → Result Bytes
unfolding decode_units encode_runes
units_to_string units = do runes ← decode_units 0 units; ok (encode_runes runes)
