-- ===== src/Scanner/File.antt =====
-- One file of a scan: `scanFileContentsWithOptions` of internal/scanner/scanner.go. A file is the bytes
-- that it has, the error that ends them if it is not io.EOF, and the errors of `Open` and `Seek`.
pub mod Reads
mod Tests
use certfinder.Archive.Format.{ArchiveFormat, format_none, detect_archive_format}
use certfinder.Base.{
  ℕ, Bool, true, false, ◌&&◌, not, Option, none, some, [], Bytes, length, take, leb, ltb, ◌==◌,
  if◌then◌else◌, GoError,
}
use certfinder.Scanner.Content.{Outcome, Parsers, scan_content_data, scan_outcome}

pub record File : Type 0 where
  pub content : Bytes
  pub failure : Option GoError
  pub open_error : Option GoError
  pub seek_error : Option GoError

-- What a step has, or the error that ends the scan of the file
abbrev pub or_failed : {X : Type 0} → Option GoError → Outcome X → Outcome X
or_failed (some e) rest = scan_outcome [] [] false (some e)
or_failed none rest = rest

-- `io.ReadAll` of the file or of an `io.LimitReader` around it; a limit that is reached hides what
-- comes behind it.
unfoldable pub read_first : ℕ → File → Bytes × Option GoError
read_first max_bytes f =
    if ltb 0 max_bytes && leb max_bytes (length f.content)
    then (take max_bytes f.content, none)
    else (f.content, f.failure)

-- The read of one byte more, where as many were read as are allowed: whether the file ends, or the
-- error.
unfoldable pub read_extra : ℕ → Bytes → File → Bool × Option GoError
read_extra max_bytes bytes f =
    if ltb 0 max_bytes && length bytes == max_bytes
    then (if ltb max_bytes (length f.content) then (false, none) else (true, f.failure))
    else (true, none)

-- `scan_archive` is `scanArchiveFile`.
module _ {X : Type 0} (parsers : Parsers X) (scan_archive : Bytes → ArchiveFormat → Outcome X)
    (max_bytes : ℕ) (scan_archives : Bool) (path : Bytes) where
  abbrev pub is_none_format : ArchiveFormat → Bool
  is_none_format format_none = true
  is_none_format _ = false

  abbrev pub capped_if : Bool → Outcome X → Outcome X
  capped_if b o = record o { capped = b }

  unfoldable pub content_outcome : Bool → File → Outcome X × Bool → Outcome X
  unfolding scan_content_data
  content_outcome complete f (result, false) = capped_if (not complete) result
  content_outcome complete f (result, true) =
      or_failed f.seek_error
        (or_failed f.failure (capped_if false (scan_content_data parsers path f.content true).0))

  unfoldable pub known_outcome : Bytes → Bool → File → Outcome X
  unfolding detect_archive_format scan_content_data content_outcome
  known_outcome bytes complete f =
      let format = detect_archive_format bytes in
      if scan_archives && not (is_none_format format)
      then or_failed f.seek_error (scan_archive f.content format)
      else content_outcome complete f (scan_content_data parsers path bytes complete)

  unfoldable pub scan_file_contents : File → Outcome X
  unfolding read_first read_extra known_outcome
  scan_file_contents f =
      let (bytes, e) = read_first max_bytes f in
      let (complete, e') = read_extra max_bytes bytes f in
      or_failed f.open_error (or_failed e (or_failed e' (known_outcome bytes complete f)))
