-- ===== src/Jks/Reader.antt =====
-- `javaKeystoreReader` and `detectJavaKeystore` of internal/scanner/jks.go. An `int` is 64 bits wide,
-- so that no length that a file holds is negative once it is converted.
pub mod Slices
use Prim.Native.String.{String}
use certfinder.Base.Text.{codes}
use certfinder.Base.{
  ℕ, ◌+◌, ◌-◌, ◌*◌, ◌^◌, Option, none, some, List, [], ◌∷◌, Bytes, length, drop, ltb, ◌==◌,
  if◌then◌else◌, sentinel, unexpected_eof, Result, ok, err, ◌>>=◌,
}
use certfinder.Base.{take as take_list}

abbrev pub jks_magic : ℕ
jks_magic = 0xfeedfeed

abbrev pub jceks_magic : ℕ
jceks_magic = 0xcececece

abbrev pub format_jks : Bytes
format_jks = codes "JKS"

abbrev pub format_jceks : Bytes
format_jceks = codes "JCEKS"

-- `data` and `offset`
pub record Reader : Type 0 where
  pub bytes : Bytes
  pub offset : ℕ

-- `binary.BigEndian.Uint16` and `Uint32`; the reads before them give all the bytes.
unfoldable pub be16 : Bytes → ℕ
be16 (a ∷ b ∷ _) = a * 2 ^ 8 + b
be16 _ = 0

unfoldable pub be32 : Bytes → ℕ
be32 (a ∷ b ∷ c ∷ d ∷ _) = a * 2 ^ 24 + b * 2 ^ 16 + c * 2 ^ 8 + d
be32 _ = 0

unfoldable pub detect_java_keystore : Bytes → Option Bytes
unfolding be32
detect_java_keystore bytes =
    if ltb (length bytes) 4
    then none
    else let magic = be32 (take_list 4 bytes) in
      if magic == jks_magic
      then some format_jks
      else if magic == jceks_magic
      then some format_jceks
      else none

unfoldable pub remaining : Reader → ℕ
remaining r = length r.bytes - r.offset

unfoldable pub take : ℕ → Reader → Result (Bytes × Reader)
unfolding remaining
take n r =
    if ltb (remaining r) n
    then err (sentinel unexpected_eof)
    else ok (take_list n (drop r.offset r.bytes), record r { offset = r.offset + n })

unfoldable pub uint32 : Reader → Result (ℕ × Reader)
unfolding take be32
uint32 r = do (four, r') ← take 4 r; ok (be32 four, r')

unfoldable pub length_prefixed_uint16 : Reader → Result (Bytes × Reader)
unfolding take be16
length_prefixed_uint16 r = do (two, r') ← take 2 r; take (be16 two) r'

unfoldable pub take_uint32 : ℕ → Reader → Result (Bytes × Reader)
unfolding take remaining
take_uint32 n r = if ltb (remaining r) n then err (sentinel unexpected_eof) else take n r

unfoldable pub skip : ℕ → Reader → Result Reader
unfolding take
skip n r = do (_, r') ← take n r; ok r'

unfoldable pub skip_uint32 : ℕ → Reader → Result Reader
unfolding take_uint32
skip_uint32 n r = do (_, r') ← take_uint32 n r; ok r'
