-- ===== src/Archive/Scan/Entry.antt =====
-- One entry of an archive: `scanEntry` of internal/scanner/archive.go. The depth is what is left of it:
-- `deeper` scans a nested archive, and is none at the greatest depth.
use certfinder.Archive.Budget.{Stream}
use certfinder.Archive.Budget.Entry.{Prefix, read_prefix, read_full_entry}
use certfinder.Archive.Format.{ArchiveFormat, format_none, detect_archive_format}
use certfinder.Archive.Outcomes.{error_outcome, merge_scan_outcomes, attach_archive_entries}
use certfinder.Archive.Scan.{Limits, ScanState, Deeper, prefix_or, full_or}
use certfinder.Base.{
  ℕ, ◌+◌, ◌-◌, length, Bool, true, false, not, Option, none, some, List, [], ◌∷◌, Bytes,
  if◌then◌else◌, GoError, errorf, num,
}
use certfinder.Scanner.Content.{Outcome, Parsers, scan_content_data}

module _ {X : Type 0} (parsers : Parsers X) (limits : Limits) (outer_path : Bytes) where
  unfoldable pub read_entry_prefix : Stream → ScanState → Prefix
  unfolding read_prefix
  read_entry_prefix t s =
      prefix_or s.bytes_read t
        (read_prefix limits.max_bytes limits.archive_max_bytes s.bytes_read t)

  -- The data, the error, `bytesRead` and the bytes that were handed out behind the prefix
  abbrev pub Reading : Type 0
  Reading = Bytes × Option GoError × ℕ × ℕ

  abbrev pub behind : Prefix → Bytes × Option GoError × ℕ → Reading
  behind p (xs, e, b) = (xs, e, b, length xs - (length p.data_bytes + length p.overflow))

  unfoldable pub read_rest : Prefix → Reading
  unfolding read_full_entry
  read_rest p = behind p (
      full_or p.rest.bytes_read (
        read_full_entry limits.archive_max_bytes p.data_bytes p.overflow p.rest.bytes_read
          p.rest.stream))

  -- The outcome of an entry, its `capped`, and the state
  abbrev pub EntryResult : Type 0
  EntryResult = (Outcome X × Bool) × ScanState

  -- `m` bytes were handed out, and `bytesRead` is `b` then.
  abbrev pub read_bytes : ScanState → ℕ → ℕ → ScanState
  read_bytes s b m = record s { bytes_read = b; delivered = s.delivered + m }

  unfoldable pub nested_data :
      Deeper X → ArchiveFormat → List Bytes → ScanState → Reading → EntryResult
  unfolding error_outcome
  nested_data deeper format entries s (xs, some e, b, m) =
      ((error_outcome entries e, false), read_bytes s b m)
  nested_data deeper format entries s (xs, none, b, m) =
      let (o, s') = deeper xs format entries (read_bytes s b m) in ((o, false), s')

  -- An entry that is an archive; `none` stands for `depth >= ArchiveMaxDepth`.
  unfoldable pub nested_archive :
      Option (Deeper X) → ArchiveFormat → List Bytes → Prefix → ScanState → EntryResult
  unfolding error_outcome read_rest
  nested_archive none format entries p s = (
    (
      error_outcome entries
          (errorf "archive nesting depth exceeds %d" (num limits.archive_max_depth ∷ [])),
      false,
    ),
    s,
  )
  nested_archive (some deeper) format entries p s =
      nested_data deeper format entries s
        (if p.complete then (p.data_bytes, none, p.rest.bytes_read, 0) else read_rest p)

  unfoldable pub full_content : List Bytes → Outcome X → ScanState → Reading → EntryResult
  unfolding error_outcome merge_scan_outcomes attach_archive_entries scan_content_data
  full_content entries result s (xs, some e, b, m) = (
    (merge_scan_outcomes (attach_archive_entries entries result) (error_outcome entries e), false),
    read_bytes s b m,
  )
  full_content entries result s (xs, none, b, m) = (
    (attach_archive_entries entries (scan_content_data parsers outer_path xs true).0, false),
    read_bytes s b m,
  )

  -- An entry that is a file: `scanContentData` of the prefix decides whether it is read in full.
  unfoldable pub file_content : List Bytes → Prefix → ScanState → Outcome X × Bool → EntryResult
  unfolding error_outcome merge_scan_outcomes attach_archive_entries scan_content_data read_rest
  file_content entries p s (result, true) = full_content entries result s (read_rest p)
  file_content entries p s (result, false) =
      ((attach_archive_entries entries result, not p.complete), s)

  abbrev pub is_none_format : ArchiveFormat → Bool
  is_none_format format_none = true
  is_none_format _ = false

  unfoldable pub prefix_content :
      Option (Deeper X) → List Bytes → Prefix → ScanState → Option GoError → EntryResult
  unfolding error_outcome merge_scan_outcomes attach_archive_entries scan_content_data read_rest
      detect_archive_format
  prefix_content deeper entries p s (some e) = (
    (
      merge_scan_outcomes
          (attach_archive_entries entries
            (scan_content_data parsers outer_path p.data_bytes false).0)
          (error_outcome entries e),
      false,
    ),
    s,
  )
  prefix_content deeper entries p s none =
      let format = detect_archive_format p.data_bytes in
      if is_none_format format
      then file_content entries p s (scan_content_data parsers outer_path p.data_bytes p.complete)
      else nested_archive deeper format entries p s

  unfoldable pub scan_entry : Option (Deeper X) → Stream → List Bytes → ScanState → EntryResult
  unfolding error_outcome merge_scan_outcomes attach_archive_entries scan_content_data read_rest
      detect_archive_format read_entry_prefix
  scan_entry deeper t entries s =
      let p = read_entry_prefix t s in
      prefix_content deeper entries p
        (read_bytes s p.rest.bytes_read (length p.data_bytes + length p.overflow)) p.error
