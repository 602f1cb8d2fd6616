-- ===== src/Scanner/Pem.antt =====
-- The certificates in PEM of a file: `parsePEM` of internal/scanner/scanner.go. `decode` is pem.Decode
-- and `parse` is x509.ParseCertificate; the loop runs on fuel.
pub mod Blocks
mod Tests
use certfinder.Base.Text.{codes, bytes_eq}
use certfinder.Base.{
  ℕ, zero, suc, ◌+◌, Bool, true, false, Option, none, some, List, [], ◌∷◌, Bytes, length, drop,
  if◌then◌else◌,
}
use certfinder.Options.Strings.{has_prefix}

pub record Block : Type 0 where
  pub kind : Bytes
  pub content : Bytes

abbrev pub pem_begin : Bytes
pem_begin = codes "-----BEGIN CERTIFICATE-----"

-- `data[bytes.Index(data, pemBegin):]`, where it is found
unfoldable pub from_begin : Bytes → Option Bytes
unfolding has_prefix
from_begin [] = none
from_begin (c ∷ bytes) =
    let rest = from_begin bytes in
    if has_prefix (c ∷ bytes) pem_begin then some (c ∷ bytes) else rest

module _ {X : Type 0} (decode : Bytes → Option (Block × Bytes)) (parse : Bytes → Option X) where
  abbrev pub with_parsed : Option X → Option (List X) → Option (List X)
  with_parsed none rest = rest
  with_parsed (some x) none = none
  with_parsed (some x) (some xs) = some (x ∷ xs)

  unfoldable pub with_block : Block → Option (List X) → Option (List X)
  unfolding bytes_eq
  with_block block rest =
      if bytes_eq block.kind (codes "CERTIFICATE")
      then with_parsed (parse block.content) rest
      else rest

  -- What comes behind the start of a block: `again` is the rest of the loop.
  unfoldable pub decoded :
      (Bytes → Option (List X)) → Bytes → Option (Block × Bytes) → Option (List X)
  unfolding with_block
  decoded again bytes none = again (drop (length pem_begin) bytes)
  decoded again bytes (some (block, rest)) = with_block block (again rest)

  unfoldable pub at_begin : (Bytes → Option (List X)) → Option Bytes → Option (List X)
  unfolding decoded
  at_begin again none = some []
  at_begin again (some bytes) = decoded again bytes (decode bytes)

  unfoldable pub parse_pem_from : ℕ → Bytes → Option (List X)
  unfolding at_begin from_begin
  parse_pem_from zero bytes = none
  parse_pem_from (suc fuel) bytes = at_begin (parse_pem_from fuel) (from_begin bytes)

  unfoldable pub parse_pem : Bytes → Option (List X)
  unfolding parse_pem_from
  parse_pem bytes = parse_pem_from (length bytes + 1) bytes
