-- ===== src/Archive/Scan/Origin.antt =====
-- Where an archive scan says that it found something in an entry: `scanEntry` of
-- internal/scanner/archive.go.
use certfinder.Archive.Budget.{Stream}
use certfinder.Archive.Budget.Entry.{Prefix}
use certfinder.Archive.Format.{ArchiveFormat, detect_archive_format}
use certfinder.Archive.Outcomes.{error_outcome, attach_archive_entries}
use certfinder.Archive.Scan.{Readers, Limits, ScanState, Deeper}
use certfinder.Archive.Scan.Entry.{
  read_rest, EntryResult, nested_data, nested_archive, full_content, file_content, is_none_format,
  prefix_content, scan_entry,
}
use certfinder.Archive.Scan.Names.{
  Named, Leads, Inside, Named-Inside, Named-error, Named-merge, Named-attach,
}
use certfinder.Archive.Scan.Walk.{close_outcome, closed, gzip_closed}
use certfinder.Base.{
  ℕ, ◌+◌, Bool, true, false, Option, none, some, List, [], Bytes, GoError, wrap, Bool-cases, inl,
  inr,
}
use certfinder.Scanner.Content.{Outcome, Parsers, scan_content_data}

module _ {X : Type 0} (parsers : Parsers X) (readers : Readers) (limits : Limits)
    (outer_path : Bytes) where
  -- What `scanArchiveBytes` of a nested archive finds is below its parents.
  abbrev pub Deep : ℕ → Option (Deeper X) → Type 0
  Deep l none = Unit
  Deep l (some deeper) =
      (bytes : Bytes) (format : ArchiveFormat) (parents : List Bytes) (s : ScanState)
      → Named (Leads readers outer_path bytes format parents) l parents
          (deeper bytes format parents s).0

  abbrev EntryNamed : ℕ → List Bytes → EntryResult parsers limits outer_path → Type 0
  EntryNamed l entries r = Named (Inside readers outer_path entries) l entries r.0.0

  nested_data-Named :
      (l : ℕ) (deeper : Deeper X) (format : ArchiveFormat) (entries : List Bytes) (s : ScanState)
      (d : Bytes × Option GoError × ℕ × ℕ)
      → Deep l (some deeper)
      → EntryNamed l entries (nested_data parsers limits outer_path deeper format entries s d)
  unfolding nested_data
  nested_data-Named l deeper format entries s (xs, some e, b, m) f = Named-error l entries entries e
  nested_data-Named l deeper format entries s (xs, none, b, m) f =
      Named-Inside readers outer_path xs format l entries _
        (f xs format entries (record s { bytes_read = b; delivered = s.delivered + m }))

  nested_archive-Named :
      (l : ℕ) (deeper : Option (Deeper X)) (format : ArchiveFormat) (entries : List Bytes)
      (p : Prefix) (s : ScanState)
      → Deep l deeper
      → EntryNamed l entries (nested_archive parsers limits outer_path deeper format entries p s)
  unfolding nested_archive
  nested_archive-Named l none format entries p s f = Named-error l entries entries _
  nested_archive-Named l (some deeper) format entries p s f =
      nested_data-Named l deeper format entries s _ f

  full_content-Named :
      (l : ℕ) (entries : List Bytes) (o : Outcome X) (s : ScanState)
      (d : Bytes × Option GoError × ℕ × ℕ)
      → EntryNamed l entries (full_content parsers limits outer_path entries o s d)
  unfolding full_content
  full_content-Named l entries o s (xs, some e, b, m) =
      Named-merge l entries (attach_archive_entries entries o) (error_outcome entries e)
        (Named-attach l entries o tt) (Named-error l entries entries e)
  full_content-Named l entries o s (xs, none, b, m) =
      Named-attach l entries (scan_content_data parsers outer_path xs true).0 tt

  file_content-Named :
      (l : ℕ) (entries : List Bytes) (p : Prefix) (s : ScanState) (r : Outcome X × Bool)
      → EntryNamed l entries (file_content parsers limits outer_path entries p s r)
  unfolding file_content
  file_content-Named l entries p s (o, true) =
      full_content-Named l entries o s (read_rest parsers limits outer_path p)
  file_content-Named l entries p s (o, false) = Named-attach l entries o tt

  prefix_content-Named :
      (l : ℕ) (deeper : Option (Deeper X)) (entries : List Bytes) (p : Prefix) (s : ScanState)
      (e : Option GoError)
      → Deep l deeper
      → EntryNamed l entries (prefix_content parsers limits outer_path deeper entries p s e)
  unfolding prefix_content
  prefix_content-Named l deeper entries p s (some e) f =
      let o = (scan_content_data parsers outer_path p.data_bytes false).0 in
      Named-merge l entries (attach_archive_entries entries o) (error_outcome entries e)
        (Named-attach l entries o tt) (Named-error l entries entries e)
  prefix_content-Named l deeper entries p s none f =
      let format = detect_archive_format p.data_bytes in
      elim (Bool-cases (is_none_format parsers limits outer_path format)) [
        | inl y ↦ rw y (
            file_content-Named l entries p s
              (scan_content_data parsers outer_path p.data_bytes p.complete))
        | inr z ↦ rw z (nested_archive-Named l deeper format entries p s f)
      ]

  pub scan_entry-Named :
      (l : ℕ) (deeper : Option (Deeper X)) (t : Stream) (entries : List Bytes) (s : ScanState)
      → Deep l deeper
      → EntryNamed l entries (scan_entry parsers limits outer_path deeper t entries s)
  unfolding scan_entry
  scan_entry-Named l deeper t entries s f = prefix_content-Named l deeper entries _ _ _ f

  pub closed-Named :
      (l : ℕ) (entries : List Bytes) (e : Option GoError) (o : Outcome X)
      → Named (Inside readers outer_path entries) l entries o
      → Named
          (Inside readers outer_path entries)
          l
          entries
          (closed parsers readers limits outer_path entries e o)
  unfolding closed close_outcome
  closed-Named l entries none o h = h
  closed-Named l entries (some e) o h =
      Named-merge l entries o _ h (Named-error l entries entries (wrap "close ZIP entry: %w" [] e))

  pub gzip_closed-Named :
      (l : ℕ) (entries : List Bytes) (e : Option GoError) (o : Outcome X)
      → Named (Inside readers outer_path entries) l entries o
      → Named
          (Inside readers outer_path entries)
          l
          entries
          (gzip_closed parsers readers limits outer_path entries e o)
  unfolding gzip_closed close_outcome
  gzip_closed-Named l entries none o h = h
  gzip_closed-Named l entries (some e) o h =
      Named-merge l entries o _ h
        (Named-error l entries entries (wrap "close gzip archive: %w" [] e))
