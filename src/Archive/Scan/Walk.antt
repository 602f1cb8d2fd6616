-- ===== src/Archive/Scan/Walk.antt =====
-- The loops over the entries of an archive and the recursion into nested ones: `scanZIP`, `scanTAR`,
-- `scanGZIP`, `scanArchiveBytes` and `scanArchiveFile` of internal/scanner/archive.go.
use certfinder.Archive.Budget.{Stream}
use certfinder.Archive.Format.{ArchiveFormat, format_none, format_zip, format_tar, format_gzip}
use certfinder.Archive.Outcomes.{
  Entries, begin_entry, finish_entry, error_outcome, merge_scan_outcomes, append_archive_entry,
  default_gzip_entry_name,
}
use certfinder.Archive.Scan.{
  ZipEntry, TarEntry, GzipFile, Readers, Limits, ScanState, Scanned, Deeper, is_limit_error,
}
use certfinder.Archive.Scan.Entry.{scan_entry}
use certfinder.Archive.Zip.{check_zip_entry_count}
use certfinder.Base.{
  ℕ, zero, suc, ◌-◌, Bool, true, false, ◌&&◌, not, Option, none, some, List, [], ◌∷◌, Bytes,
  if◌then◌else◌, GoError, errorf, wrap, Result, ok, err,
}
use certfinder.Scanner.Content.{Outcome, Parsers, scan_outcome, empty_outcome}

module _ {X : Type 0} (parsers : Parsers X) (readers : Readers) (limits : Limits)
    (outer_path : Bytes) where
  -- What the loop does with an entry: its outcome, whether it looks for the error of a used up budget, and
  -- the state.
  abbrev pub Visited : Type 0
  Visited = (Outcome X × Bool) × ScanState

  abbrev pub count : ScanState → Entries → ScanState
  count s c = record s { counters = c }

  unfoldable pub finished : Bool → ScanState → ScanState
  unfolding finish_entry
  finished capped s = count s (finish_entry capped s.counters)

  unfoldable pub close_outcome : List Bytes → GoError → Outcome X → Outcome X
  unfolding error_outcome merge_scan_outcomes
  close_outcome entries e result = merge_scan_outcomes result (error_outcome entries e)

  unfoldable pub closed : List Bytes → Option GoError → Outcome X → Outcome X
  unfolding error_outcome merge_scan_outcomes
  closed entries none result = result
  closed entries (some e) result = close_outcome entries (wrap "close ZIP entry: %w" [] e) result

  unfoldable pub zip_content :
      Option (Deeper X) → ZipEntry → List Bytes → ScanState → Result Stream → Visited
  unfolding scan_entry error_outcome merge_scan_outcomes finish_entry
  zip_content deeper z entries s (err e) =
      ((error_outcome entries (wrap "open ZIP entry: %w" [] e), false), finished false s)
  zip_content deeper z entries s (ok t) =
      let ((o, capped), s') = scan_entry parsers limits outer_path deeper t entries s in
      ((closed entries z.close_error o, true), finished capped s')

  -- An entry of a ZIP archive that was counted; `none` is the `continue` for one that is no file.
  unfoldable pub zip_entry : Option (Deeper X) → ZipEntry → List Bytes → ScanState → Visited
  unfolding scan_entry error_outcome merge_scan_outcomes finish_entry
  zip_entry deeper z entries s =
      if not z.is_regular
      then ((empty_outcome, false), s)
      else if z.is_encrypted
      then (
        (error_outcome entries (errorf "encrypted ZIP entry is unsupported" []), false),
        finished false s,
      )
      else zip_content deeper z entries s z.opened

  -- Whether the loop stops behind an entry: the budget is used up.
  unfoldable pub merged : Outcome X → Visited → (Outcome X → ScanState → Scanned X) → Scanned X
  unfolding merge_scan_outcomes is_limit_error
  merged result ((o, looks), s) go =
      let rest = go (merge_scan_outcomes result o) s in
      if looks && is_limit_error o.error then (merge_scan_outcomes result o, s) else rest

  -- `beginEntry` and what follows it: `stopped` is the outcome for its error.
  abbrev pub begun :
      (GoError → Outcome X) → ScanState → Option GoError → (ScanState → Scanned X) → Scanned X
  begun stopped s (some e) go = (stopped e, s)
  begun stopped s none go = go s

  unfoldable pub begin : (GoError → Outcome X) → ScanState → (ScanState → Scanned X) → Scanned X
  unfolding begin_entry
  begin stopped s go =
      let (c, e) = begin_entry limits.archive_max_entries s.counters in
      begun stopped (count s c) e go

  unfoldable pub stopped_at : List Bytes → Outcome X → GoError → Outcome X
  unfolding error_outcome merge_scan_outcomes
  stopped_at entries result e = merge_scan_outcomes result (error_outcome entries e)

  unfoldable pub scan_zip :
      Option (Deeper X) → List ZipEntry → List Bytes → Outcome X → ScanState → Scanned X
  unfolding scan_entry error_outcome merge_scan_outcomes begin_entry finish_entry
      append_archive_entry is_limit_error
  scan_zip deeper [] parents result s = (result, s)
  scan_zip deeper (z ∷ zs) parents result s =
      let entries = append_archive_entry readers.clean parents z.name in
      begin (stopped_at entries result) s (λ s₁.
        merged result (zip_entry deeper z entries s₁) (λ r t. scan_zip deeper zs parents r t))

  unfoldable pub tar_entry : Option (Deeper X) → TarEntry → List Bytes → ScanState → Visited
  unfolding scan_entry finish_entry
  tar_entry deeper h entries s =
      if not h.is_regular
      then ((empty_outcome, false), s)
      else (let ((o, capped), s') =
            scan_entry parsers limits outer_path deeper h.content entries s in
          ((o, true), finished capped s'))

  unfoldable pub tar_end : List Bytes → Outcome X → ScanState → Option GoError → Scanned X
  unfolding error_outcome merge_scan_outcomes
  tar_end parents result s none = (result, s)
  tar_end parents result s (some e) =
      (merge_scan_outcomes result (error_outcome parents (wrap "parse TAR archive: %w" [] e)), s)

  unfoldable pub scan_tar :
      Option (Deeper X)
      → List TarEntry
      → Option GoError
      → List Bytes
      → Outcome X
      → ScanState
      → Scanned X
  unfolding scan_entry error_outcome merge_scan_outcomes begin_entry finish_entry
      append_archive_entry is_limit_error
  scan_tar deeper [] last parents result s = tar_end parents result s last
  scan_tar deeper (h ∷ hs) last parents result s =
      let entries = append_archive_entry readers.clean parents h.name in
      begin (stopped_at entries result) s (λ s₁.
        merged result (tar_entry deeper h entries s₁) (λ r t. scan_tar deeper hs last parents r t))

  unfoldable pub gzip_closed : List Bytes → Option GoError → Outcome X → Outcome X
  unfolding error_outcome merge_scan_outcomes
  gzip_closed entries none result = result
  gzip_closed entries (some e) result =
      close_outcome entries (wrap "close gzip archive: %w" [] e) result

  unfoldable pub gzip_name : Bytes → List Bytes → Bytes
  unfolding default_gzip_entry_name
  gzip_name [] parents =
      default_gzip_entry_name readers.file_base readers.path_base outer_path parents
  gzip_name (c ∷ name) parents = c ∷ name

  unfoldable pub scan_gzip :
      Option (Deeper X) → Result GzipFile → List Bytes → ScanState → Scanned X
  unfolding scan_entry error_outcome merge_scan_outcomes begin_entry finish_entry
      append_archive_entry default_gzip_entry_name
  scan_gzip deeper (err e) parents s =
      (error_outcome parents (wrap "parse gzip archive: %w" [] e), s)
  scan_gzip deeper (ok g) parents s =
      let entries = append_archive_entry readers.clean parents (gzip_name g.name parents) in
      begin (error_outcome entries) s (λ s₁.
        let ((o, capped), s') = scan_entry parsers limits outer_path deeper g.content entries s₁ in
        (gzip_closed entries g.close_error o, finished capped s'))

  unfoldable pub zip_error : List Bytes → GoError → ScanState → Scanned X
  unfolding error_outcome
  zip_error parents e s = (error_outcome parents (wrap "parse ZIP archive: %w" [] e), s)

  unfoldable pub zip_opened :
      Option (Deeper X) → List Bytes → ScanState → Result (List ZipEntry) → Scanned X
  unfolding scan_zip error_outcome
  zip_opened deeper parents s (err e) = zip_error parents e s
  zip_opened deeper parents s (ok zs) = scan_zip deeper zs parents empty_outcome s

  -- `ArchiveMaxEntries - entries` is not negative where an entry of an archive is scanned.
  unfoldable pub zip_checked :
      Option (Deeper X) → Bytes → List Bytes → ScanState → Option GoError → Scanned X
  unfolding scan_zip error_outcome
  zip_checked deeper bytes parents s (some e) = zip_error parents e s
  zip_checked deeper bytes parents s none = zip_opened deeper parents s (readers.zip bytes)

  unfoldable pub scan_archive_bytes : Option (Deeper X) → Deeper X
  unfolding scan_zip scan_tar scan_gzip error_outcome check_zip_entry_count
  scan_archive_bytes deeper bytes format_zip parents s =
      zip_checked deeper bytes parents s
        (check_zip_entry_count (limits.archive_max_entries - s.counters.entries) bytes)
  scan_archive_bytes deeper bytes format_tar parents s =
      let (hs, last) = readers.tar bytes in scan_tar deeper hs last parents empty_outcome s
  scan_archive_bytes deeper bytes format_gzip parents s =
      scan_gzip deeper (readers.gzip bytes) parents s
  scan_archive_bytes deeper bytes format_none parents s =
      (error_outcome parents (errorf "unsupported nested archive format" []), s)

  -- `levels` are the nesting levels that are left below, `ArchiveMaxDepth - depth`.
  unfoldable pub deeper_at : ℕ → Option (Deeper X)
  unfolding scan_archive_bytes
  deeper_at zero = none
  deeper_at (suc levels) = some (scan_archive_bytes (deeper_at levels))

  abbrev pub new_state : ScanState
  new_state = record {
    bytes_read = 0;
    delivered = 0;
    counters = record { entries = 0; discovered = 0; scanned = 0; capped = 0 };
  }

  -- A file that `Stat` and the readers can read; the outermost archive has depth 1.
  unfoldable pub scan_archive_file : Bytes → ArchiveFormat → Scanned X
  unfolding scan_archive_bytes deeper_at
  scan_archive_file bytes format_none =
      (scan_outcome [] [] false (some (errorf "unsupported archive format" [])), new_state)
  scan_archive_file bytes format =
      scan_archive_bytes (deeper_at (limits.archive_max_depth - 1)) bytes format [] new_state
