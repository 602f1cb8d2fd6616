-- ===== src/Scanner/Pem/Tests.antt =====
-- A decoder that takes the first byte behind each line that begins a block.
use certfinder.Base.Text.{codes}
use certfinder.Base.{ℕ, ◌<◌, ◌≡◌, refl, ap, arith, Option, none, some, [], ◌∷◌, ◌++◌, Bytes, length}
use certfinder.Scanner.Pem.{Block, pem_begin, parse_pem}
use certfinder.Scanner.Pem.Blocks.{IsFound, parse_pem-IsFound}

abbrev certificate_block : Block
certificate_block = record { kind = codes "CERTIFICATE"; content = [] }

abbrev first_byte : Bytes → Option (Block × Bytes)
first_byte [] = none
first_byte (c ∷ bytes) = some (certificate_block, bytes)

abbrev always_five : Bytes → Option ℕ
always_five content = some 5

abbrev rest_or : Bytes → Option (Block × Bytes) → Bytes
rest_or d none = d
rest_or d (some (b, r)) = r

first_byte-takes :
    (bytes : Bytes) (block : Block) (rest : Bytes)
    → first_byte bytes ≡ some (block, rest)
    → length rest < length bytes
first_byte-takes [] block rest e = absurd (cc)
first_byte-takes (c ∷ bytes) block rest e =
    let same : bytes ≡ rest = ap (rest_or []) e in rw (← same) (omega arith)

parse_pem-IsFound_example :
    IsFound first_byte always_five
      (pem_begin ++ pem_begin)
      (parse_pem first_byte always_five (pem_begin ++ pem_begin))
parse_pem-IsFound_example =
    parse_pem-IsFound first_byte always_five first_byte-takes (pem_begin ++ pem_begin)

two_blocks : parse_pem first_byte always_five (pem_begin ++ pem_begin) ≡ some (5 ∷ 5 ∷ [])
unfolding parse_pem
two_blocks = refl
