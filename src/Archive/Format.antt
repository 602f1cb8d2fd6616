-- ===== src/Archive/Format.antt =====
-- `detectArchiveFormat` of internal/scanner/archive.go.
use certfinder.Base.Text.{bytes_eq, codes}
use certfinder.Base.{
  Bool, ◌&&◌, ◌||◌, [], ◌∷◌, Bytes, length, take, drop, get_or, leb, ◌==◌, if◌then◌else◌, ◌++◌,
}

pub data ArchiveFormat : Type 0 where
  format_none format_zip format_tar format_gzip : ArchiveFormat

abbrev zip_magic : Bytes → Bytes → Bool
zip_magic bytes magic = leb 4 (length bytes) && bytes_eq (take 4 bytes) magic

abbrev ustar_at_257 : Bytes → Bytes
ustar_at_257 bytes = take 6 (drop 257 bytes)

unfoldable pub detect_archive_format : Bytes → ArchiveFormat
unfolding bytes_eq
detect_archive_format bytes =
    if zip_magic bytes (b'P' ∷ b'K' ∷ 3 ∷ 4 ∷ [])
      || zip_magic bytes (b'P' ∷ b'K' ∷ 5 ∷ 6 ∷ [])
      || zip_magic bytes (b'P' ∷ b'K' ∷ 7 ∷ 8 ∷ [])
    then format_zip
    else if leb 2 (length bytes) && get_or bytes 0 0 == 0x1f && get_or bytes 1 0 == 0x8b
    then format_gzip
    else if leb 263 (length bytes)
        && (bytes_eq (ustar_at_257 bytes) (codes "ustar" ++ 0 ∷ [])
            || bytes_eq (ustar_at_257 bytes) (codes "ustar "))
    then format_tar
    else format_none
