-- ===== src/Archive/Scan/Whole.antt =====
-- A whole archive within the limits of its scan: `scanArchiveBytes` and `scanArchiveFile` of
-- internal/scanner/archive.go.
use certfinder.Archive.Scan.Loops.{scan_zip-Held, scan_tar-Held, scan_gzip-Held}
use mathlib.Core.Path.{subst}
use certfinder.Archive.Format.{ArchiveFormat, format_none, format_zip, format_tar, format_gzip}
use certfinder.Archive.Scan.{ZipEntry, Readers, Limits, ScanState, Deeper}
use certfinder.Archive.Scan.Held.{Deep}
use certfinder.Archive.Scan.Kept.{Kept, Held, Held-quiet}
use certfinder.Archive.Scan.Walk.{
  zip_error, zip_opened, zip_checked, scan_archive_bytes, deeper_at, new_state, scan_archive_file,
}
use certfinder.Archive.Zip.{check_zip_entry_count}
use certfinder.Base.{
  ℕ, zero, suc, ◌+◌, ◌-◌, ◌≡◌, refl, arith, Option, none, some, List, [], Bytes, GoError, Result,
  ok, err,
}
use certfinder.Scanner.Content.{Parsers, empty_outcome}

module _ {X : Type 0} (parsers : Parsers X) (readers : Readers) (limits : Limits)
    (outer_path : Bytes) where
  abbrev max : ℕ
  max = limits.archive_max_entries

  zip_opened-Held :
      (l n : ℕ) (deeper : Option (Deeper X)) (parents : List Bytes) (s : ScanState)
      (r : Result (List ZipEntry))
      → Deep parsers limits outer_path l deeper
      → Kept limits 0 n s
      → Held limits (l + 1) n (zip_opened parsers readers limits outer_path deeper parents s r)
  unfolding zip_opened zip_error
  zip_opened-Held l n deeper parents s (err e) f h = Held-quiet limits (l + 1) n _ s h
  zip_opened-Held l n deeper parents s (ok zs) f h =
      scan_zip-Held parsers readers limits outer_path l n deeper zs parents empty_outcome s f
        (Held-quiet limits l n empty_outcome s h)

  zip_checked-Held :
      (l n : ℕ) (deeper : Option (Deeper X)) (bytes : Bytes) (parents : List Bytes) (s : ScanState)
      (e : Option GoError)
      → Deep parsers limits outer_path l deeper
      → Kept limits 0 n s
      → Held limits
          (l + 1)
          n
          (zip_checked parsers readers limits outer_path deeper bytes parents s e)
  unfolding zip_checked zip_error
  zip_checked-Held l n deeper bytes parents s (some e) f h = Held-quiet limits (l + 1) n _ s h
  zip_checked-Held l n deeper bytes parents s none f h =
      zip_opened-Held l n deeper parents s (readers.zip bytes) f h

  scan_archive_bytes-Held :
      (l : ℕ) (deeper : Option (Deeper X))
      → Deep parsers limits outer_path l deeper
      → Deep parsers limits outer_path
          (l + 1)
          (some (scan_archive_bytes parsers readers limits outer_path deeper))
  unfolding scan_archive_bytes
  scan_archive_bytes-Held l deeper f bytes format_zip parents n s h =
      zip_checked-Held l n deeper bytes parents s
        (check_zip_entry_count (max - s.counters.entries) bytes) f h
  scan_archive_bytes-Held l deeper f bytes format_tar parents n s h =
      let r = readers.tar bytes in
      scan_tar-Held parsers readers limits outer_path l n deeper r.0 r.1 parents empty_outcome s f
        (Held-quiet limits l n empty_outcome s h)
  scan_archive_bytes-Held l deeper f bytes format_gzip parents n s h =
      scan_gzip-Held parsers readers limits outer_path l n deeper (readers.gzip bytes) parents s f h
  scan_archive_bytes-Held l deeper f bytes format_none parents n s h =
      Held-quiet limits (l + 1) n _ s h

  deeper_at-Deep :
      (levels : ℕ)
      → Deep parsers limits outer_path levels (deeper_at parsers readers limits outer_path levels)
  unfolding deeper_at
  deeper_at-Deep zero = tt
  deeper_at-Deep (suc levels) =
      let deeper = deeper_at parsers readers limits outer_path levels in
      let e : levels + 1 ≡ suc levels = omega arith in
      subst
        (λ k.
          Deep parsers limits outer_path k
            (some (scan_archive_bytes parsers readers limits outer_path deeper)))
        e (scan_archive_bytes-Held levels deeper (deeper_at-Deep levels))

  new_state-Kept : Kept limits 0 0 (new_state parsers readers limits outer_path)
  new_state-Kept = record {
    within = omega arith;
    delivered = refl;
    told = refl;
    begun = omega arith;
    admitted = omega arith;
    some_capped = omega arith;
    bounded = omega arith;
  }

  scan_outermost-Held :
      (bytes : Bytes) (format : ArchiveFormat)
      → (let l = limits.archive_max_depth - 1 in
          Held limits (l + 1) 0 (
            scan_archive_bytes parsers readers limits outer_path
              (deeper_at parsers readers limits outer_path l)
              bytes
              format
              []
              (new_state parsers readers limits outer_path)))
  scan_outermost-Held bytes format =
      let l = limits.archive_max_depth - 1 in
      scan_archive_bytes-Held l (deeper_at parsers readers limits outer_path l) (deeper_at-Deep l)
        bytes format [] 0 (new_state parsers readers limits outer_path) new_state-Kept

  -- A scan of an archive with all its nested archives, whatever they hold: `bytesRead` is the number
  -- of the decompressed bytes that its readers handed out, the byte that tells whether there are more
  -- left aside, and at most `ArchiveMaxBytes`. It tells every entry that it begins, it finishes at most
  -- the entries that it began, and at most `ArchiveMaxEntries`, of which it caps some, it begins at
  -- most one entry more for each nesting level, and if it began an entry too many then its outcome has
  -- an error.
  pub scan_archive_file-Held :
      (bytes : Bytes) (format : ArchiveFormat)
      → Held limits
          (limits.archive_max_depth - 1 + 1)
          0
          (scan_archive_file parsers readers limits outer_path bytes format)
  unfolding scan_archive_file
  scan_archive_file-Held bytes format_none =
      Held-quiet limits (limits.archive_max_depth - 1 + 1) 0 _
        (new_state parsers readers limits outer_path) new_state-Kept
  scan_archive_file-Held bytes format_zip = scan_outermost-Held bytes format_zip
  scan_archive_file-Held bytes format_tar = scan_outermost-Held bytes format_tar
  scan_archive_file-Held bytes format_gzip = scan_outermost-Held bytes format_gzip
