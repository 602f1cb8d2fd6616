-- ===== src/Archive/Scan/Found.antt =====
-- Where the scan of an archive file says that it found something: `scanArchiveFile` of
-- internal/scanner/archive.go.
use certfinder.Archive.Format.{ArchiveFormat, format_none, format_zip, format_tar, format_gzip}
use certfinder.Archive.Scan.{ZipEntry, Readers, Limits, ScanState, Deeper}
use certfinder.Archive.Scan.Depth.{scan_zip-Named, scan_tar-Named, scan_gzip-Named}
use certfinder.Archive.Scan.Names.{
  Named, Leads, HasEntry, in_zip, in_tar, Named-nothing, Named-error,
}
use certfinder.Archive.Scan.Origin.{Deep}
use certfinder.Archive.Scan.Walk.{
  zip_error, zip_opened, zip_checked, scan_archive_bytes, deeper_at, new_state, scan_archive_file,
}
use certfinder.Archive.Zip.{check_zip_entry_count}
use mathlib.Core.Path.{subst}
use certfinder.Base.{
  ℕ, zero, suc, ◌+◌, ◌-◌, ◌≡◌, refl, sym, ap, ◌∙◌, arith, Option, none, some, List, [], ◌∷◌, ◌++◌,
  append_assoc, All, Bytes, GoError, Result, ok, err,
}
use certfinder.Scanner.Content.{Parsers, empty_outcome}

-- What holds of each element that stands somewhere in a list holds of all the elements behind a part.
each_in :
    {A : Type 0} (whole : List A) (P : A → Type 0) (before rest : List A)
    → whole ≡ before ++ rest
    → ((b : List A) (a : A) (c : List A) → whole ≡ b ++ a ∷ c → P a)
    → All P rest
each_in whole P before [] e f = tt
each_in whole P before (a ∷ rest) e f = (
  f before a rest e,
  each_in whole P (before ++ a ∷ []) rest (e ∙ sym (append_assoc before (a ∷ []) rest)) f,
)

module _ {X : Type 0} (parsers : Parsers X) (readers : Readers) (limits : Limits)
    (outer_path : Bytes) where
  zip_opened-Named :
      (bytes : Bytes) (l : ℕ) (deeper : Option (Deeper X)) (parents : List Bytes) (s : ScanState)
      (r : Result (List ZipEntry))
      → readers.zip bytes ≡ r
      → Deep parsers readers limits outer_path l deeper
      → Named
          (Leads readers outer_path bytes format_zip parents)
          (l + 1)
          parents
          (zip_opened parsers readers limits outer_path deeper parents s r).0
  unfolding zip_opened zip_error
  zip_opened-Named bytes l deeper parents s (err e) p f = Named-error (l + 1) parents parents _
  zip_opened-Named bytes l deeper parents s (ok zs) p f =
      scan_zip-Named parsers readers limits outer_path bytes l deeper zs parents empty_outcome s
        (each_in zs (λ z. HasEntry readers outer_path bytes format_zip parents z.name) [] zs refl
          (λ before z after e. in_zip parents before after z (p ∙ ap ok e)))
        f (Named-nothing (l + 1) parents)

  zip_checked-Named :
      (l : ℕ) (deeper : Option (Deeper X)) (bytes : Bytes) (parents : List Bytes) (s : ScanState)
      (e : Option GoError)
      → Deep parsers readers limits outer_path l deeper
      → Named
          (Leads readers outer_path bytes format_zip parents)
          (l + 1)
          parents
          (zip_checked parsers readers limits outer_path deeper bytes parents s e).0
  unfolding zip_checked zip_error
  zip_checked-Named l deeper bytes parents s (some e) f = Named-error (l + 1) parents parents _
  zip_checked-Named l deeper bytes parents s none f =
      zip_opened-Named bytes l deeper parents s (readers.zip bytes) refl f

  scan_archive_bytes-Named :
      (l : ℕ) (deeper : Option (Deeper X))
      → Deep parsers readers limits outer_path l deeper
      → Deep parsers readers limits outer_path
          (l + 1)
          (some (scan_archive_bytes parsers readers limits outer_path deeper))
  unfolding scan_archive_bytes
  scan_archive_bytes-Named l deeper f bytes format_zip parents s =
      zip_checked-Named l deeper bytes parents s
        (check_zip_entry_count (limits.archive_max_entries - s.counters.entries) bytes) f
  scan_archive_bytes-Named l deeper f bytes format_tar parents s =
      let r = readers.tar bytes in
      scan_tar-Named parsers readers limits outer_path bytes l deeper r.0 r.1 parents empty_outcome
        s
        (each_in r.0 (λ t. HasEntry readers outer_path bytes format_tar parents t.name) [] r.0 refl
          (λ before t after e. in_tar parents before after t e))
        f (Named-nothing (l + 1) parents)
  scan_archive_bytes-Named l deeper f bytes format_gzip parents s =
      scan_gzip-Named parsers readers limits outer_path bytes l deeper (readers.gzip bytes) parents
        s refl f
  scan_archive_bytes-Named l deeper f bytes format_none parents s =
      Named-error (l + 1) parents parents _

  deeper_at-Deep :
      (levels : ℕ)
      → Deep parsers readers limits outer_path levels
          (deeper_at parsers readers limits outer_path levels)
  unfolding deeper_at
  deeper_at-Deep zero = tt
  deeper_at-Deep (suc levels) =
      let deeper = deeper_at parsers readers limits outer_path levels in
      let e : levels + 1 ≡ suc levels = omega arith in
      subst
        (λ k.
          Deep parsers readers limits outer_path k
            (some (scan_archive_bytes parsers readers limits outer_path deeper)))
        e (scan_archive_bytes-Named levels deeper (deeper_at-Deep levels))

  scan_outermost-Named :
      (bytes : Bytes) (format : ArchiveFormat)
      → (let l = limits.archive_max_depth - 1 in
          Named
            (Leads readers outer_path bytes format [])
            (l + 1)
            []
            (scan_archive_bytes parsers readers limits outer_path
              (deeper_at parsers readers limits outer_path l)
              bytes
              format
              []
              (new_state parsers readers limits outer_path)).0)
  scan_outermost-Named bytes format =
      let l = limits.archive_max_depth - 1 in
      scan_archive_bytes-Named l (deeper_at parsers readers limits outer_path l) (deeper_at-Deep l)
        bytes format [] (new_state parsers readers limits outer_path)

  -- Every certificate and every finding of an archive file carries names of entries: the first is how
  -- an entry of this file is shown (its cleaned name, or `(unnamed)`), each further one how an entry
  -- of some archive is, whose parents are the names before it; there is at least one name, and no
  -- more than the greatest depth (one where that is 0).
  pub scan_archive_file-Named :
      (bytes : Bytes) (format : ArchiveFormat)
      → Named
          (Leads readers outer_path bytes format [])
          (limits.archive_max_depth - 1 + 1)
          []
          (scan_archive_file parsers readers limits outer_path bytes format).0
  unfolding scan_archive_file
  scan_archive_file-Named bytes format_none = record { on_certificates = tt; on_findings = tt }
  scan_archive_file-Named bytes format_zip = scan_outermost-Named bytes format_zip
  scan_archive_file-Named bytes format_tar = scan_outermost-Named bytes format_tar
  scan_archive_file-Named bytes format_gzip = scan_outermost-Named bytes format_gzip
