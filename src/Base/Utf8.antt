-- ===== src/Base/Utf8.antt =====
-- UTF-8, as Go's `string([]rune)`, `utf8.Valid` and `strings.ToValidUTF8` read and write it.
use Prim.Native.Nat.{ℕ, zero, suc, ◌+◌, ◌/◌, ◌%◌}
use mathlib.Core.Bool.{Bool, true, false, ◌&&◌, ◌||◌}
use mathlib.Core.List.{List, [], ◌∷◌, ◌++◌}
use certfinder.Base.Lists.{Bytes, length, take, drop}
use certfinder.Base.Tests.{leb, ltb, ◌==◌, if◌then◌else◌}

abbrev within : ℕ → ℕ → ℕ → Bool
within lo hi c = leb lo c && leb c hi

-- One rune; a surrogate or a value past U+10FFFF is written as U+FFFD.
unfoldable pub encode_rune : ℕ → Bytes
encode_rune r =
    if ltb r 0x80
    then r ∷ []
    else if ltb r 0x800
    then (0xc0 + r / 64) ∷ (0x80 + r % 64) ∷ []
    else if within 0xd800 0xdfff r || ltb 0x10ffff r
    then 0xef ∷ 0xbf ∷ 0xbd ∷ []
    else if ltb r 0x10000
    then (0xe0 + r / 4096) ∷ (0x80 + r / 64 % 64) ∷ (0x80 + r % 64) ∷ []
    else (0xf0 + r / 262144) ∷ (0x80 + r / 4096 % 64) ∷ (0x80 + r / 64 % 64) ∷ (0x80 + r % 64) ∷ []

-- `string(runes)`
unfoldable pub encode_runes : List ℕ → Bytes
unfolding encode_rune
encode_runes [] = []
encode_runes (r ∷ rs) = encode_rune r ++ encode_runes rs

abbrev continues : ℕ → Bool
continues = within 0x80 0xbf

-- The bounds of a second byte behind the first.
abbrev second_of_three : ℕ → ℕ → Bool
second_of_three a b =
    if a == 0xe0 then within 0xa0 0xbf b else if a == 0xed then within 0x80 0x9f b else continues b

abbrev second_of_four : ℕ → ℕ → Bool
second_of_four a b =
    if a == 0xf0 then within 0x90 0xbf b else if a == 0xf4 then within 0x80 0x8f b else continues b

-- The length of the rune that the bytes begin with, 0 where none begins there.
unfoldable pub rune_length : Bytes → ℕ
rune_length (a ∷ b ∷ c ∷ d ∷ rest) =
    if ltb a 0x80
    then 1
    else if within 0xc2 0xdf a && continues b
    then 2
    else if within 0xe0 0xef a && second_of_three a b && continues c
    then 3
    else if within 0xf0 0xf4 a && second_of_four a b && continues c && continues d
    then 4
    else 0
rune_length (a ∷ b ∷ c ∷ []) =
    if ltb a 0x80
    then 1
    else if within 0xc2 0xdf a && continues b
    then 2
    else if within 0xe0 0xef a && second_of_three a b && continues c
    then 3
    else 0
rune_length (a ∷ b ∷ []) =
    if ltb a 0x80 then 1 else if within 0xc2 0xdf a && continues b then 2 else 0
rune_length (a ∷ []) = if ltb a 0x80 then 1 else 0
rune_length [] = 0

-- Each round takes one byte at least, so the length of the text is fuel enough.
replace_invalid : ℕ → Bool → Bytes → Bytes → Bytes
replace_invalid zero inside mark s = []
replace_invalid (suc f) inside mark [] = []
replace_invalid (suc f) inside mark (b ∷ s) = elim (rune_length (b ∷ s)) [
  | zero ↦ (if inside then [] else mark) ++ replace_invalid f true mark s
  | suc n ↦ take (suc n) (b ∷ s) ++ replace_invalid f false mark (drop n s)
]

-- `strings.ToValidUTF8(s, mark)`: each run of invalid bytes becomes one `mark`.
unfoldable pub to_valid_utf8 : Bytes → Bytes → Bytes
unfolding replace_invalid rune_length
to_valid_utf8 s mark = replace_invalid (length s) false mark s

valid_fuel : ℕ → Bytes → Bool
valid_fuel zero s = true
valid_fuel (suc f) [] = true
valid_fuel (suc f) (b ∷ s) = elim (rune_length (b ∷ s)) [
  | zero ↦ false
  | suc n ↦ valid_fuel f (drop n s)
]

-- `utf8.Valid`
unfoldable pub valid_utf8 : Bytes → Bool
unfolding valid_fuel rune_length
valid_utf8 s = valid_fuel (length s) s
