-- ===== src/Archive/Scan/Counted.antt =====
-- A whole archive within the limits of its scan: `scanZIP`, `scanTAR`, `scanGZIP`, `scanArchiveBytes`
-- and `scanArchiveFile` of internal/scanner/archive.go.
use certfinder.Archive.Budget.{Stream}
use certfinder.Archive.Outcomes.{finish_entry, error_outcome, merge_scan_outcomes}
use certfinder.Archive.Scan.{ZipEntry, TarEntry, Readers, Limits, ScanState, Deeper}
use certfinder.Archive.Scan.Entry.{scan_entry}
use certfinder.Archive.Scan.Held.{Deep, scan_entry-Held}
use certfinder.Archive.Scan.Kept.{
  Kept, Held, Kept-mono, Kept-finish, Held-quiet, Held-error, join_two-left, join_two-right,
}
use certfinder.Archive.Scan.Walk.{
  Visited, finished, close_outcome, closed, zip_content, zip_entry, tar_entry, gzip_closed,
}
use certfinder.Base.{
  if-both, ℕ, ◌+◌, arith, Bool, false, not, Option, none, some, List, [], Bytes, GoError, wrap,
  Result, ok, err,
}
use certfinder.Scanner.Content.{Outcome, Parsers, empty_outcome}

module _ {X : Type 0} (parsers : Parsers X) (readers : Readers) (limits : Limits)
    (outer_path : Bytes) where
  pub merge-right :
      (l n : ℕ) (a b : Outcome X) (s : ScanState)
      → Held limits l n (b, s)
      → Held limits l n (merge_scan_outcomes a b, s)
  unfolding merge_scan_outcomes
  merge-right l n a b s h =
      Held-error limits l n b (merge_scan_outcomes a b) s (join_two-right a.error b.error) h

  pub merge-left :
      (l n : ℕ) (a b : Outcome X) (s : ScanState)
      → Held limits l n (a, s)
      → Held limits l n (merge_scan_outcomes a b, s)
  unfolding merge_scan_outcomes
  merge-left l n a b s h =
      Held-error limits l n a (merge_scan_outcomes a b) s (join_two-left a.error b.error) h

  pub finished-Held :
      (l n : ℕ) (o : Outcome X) (s : ScanState) (capped : Bool)
      → Held limits l (n + 1) (o, s)
      → Held limits l n (o, finished parsers readers limits outer_path capped s)
  unfolding finished finish_entry
  finished-Held l n o s capped h = record {
    kept = Kept-finish limits l n s capped h.kept;
    reported = λ k. h.reported k;
  }

  closed-Held :
      (l n : ℕ) (entries : List Bytes) (e : Option GoError) (o : Outcome X) (s : ScanState)
      → Held limits l n (o, s)
      → Held limits l n (closed parsers readers limits outer_path entries e o, s)
  unfolding closed close_outcome
  closed-Held l n entries none o s h = h
  closed-Held l n entries (some e) o s h =
      merge-left l n o (error_outcome entries (wrap "close ZIP entry: %w" [] e)) s h

  pub gzip_closed-Held :
      (l n : ℕ) (entries : List Bytes) (e : Option GoError) (o : Outcome X) (s : ScanState)
      → Held limits l n (o, s)
      → Held limits l n (gzip_closed parsers readers limits outer_path entries e o, s)
  unfolding gzip_closed close_outcome
  gzip_closed-Held l n entries none o s h = h
  gzip_closed-Held l n entries (some e) o s h =
      merge-left l n o (error_outcome entries (wrap "close gzip archive: %w" [] e)) s h

  -- An entry that was counted, and what the loop makes of it
  abbrev pub HeldVisit : ℕ → ℕ → Visited parsers readers limits outer_path → Type 0
  HeldVisit l n v = Held limits l n (v.0.0, v.1)

  zip_content-Held :
      (l n : ℕ) (deeper : Option (Deeper X)) (z : ZipEntry) (entries : List Bytes) (s : ScanState)
      (r : Result Stream)
      → Deep parsers limits outer_path l deeper
      → Kept limits 0 (n + 1) s
      → HeldVisit l n (zip_content parsers readers limits outer_path deeper z entries s r)
  unfolding zip_content
  zip_content-Held l n deeper z entries s (err e) f h =
      finished-Held l n _ s false (Held-quiet limits l (n + 1) _ s h)
  zip_content-Held l n deeper z entries s (ok t) f h =
      let r = scan_entry parsers limits outer_path deeper t entries s in
      finished-Held l n (closed parsers readers limits outer_path entries z.close_error r.0.0) r.1
        r.0.1
        (closed-Held l (n + 1) entries z.close_error r.0.0 r.1
          (scan_entry-Held parsers limits outer_path l (n + 1) deeper t entries s f h))

  skipped-Held :
      (l n : ℕ) (s : ScanState)
      → Kept limits 0 (n + 1) s
      → Held limits {X = X} l n (empty_outcome, s)
  skipped-Held l n s h =
      Held-quiet limits l n empty_outcome s
        (Kept-mono limits 0 0 (n + 1) n s (omega arith) (omega arith) h)

  pub zip_entry-Held :
      (l n : ℕ) (deeper : Option (Deeper X)) (z : ZipEntry) (entries : List Bytes) (s : ScanState)
      → Deep parsers limits outer_path l deeper
      → Kept limits 0 (n + 1) s
      → HeldVisit l n (zip_entry parsers readers limits outer_path deeper z entries s)
  unfolding zip_entry
  zip_entry-Held l n deeper z entries s f h =
      if-both (HeldVisit l n) (not z.is_regular) _ _ (skipped-Held l n s h) (
        if-both (HeldVisit l n) z.is_encrypted _ _
          (finished-Held l n _ s false (Held-quiet limits l (n + 1) _ s h))
          (zip_content-Held l n deeper z entries s z.opened f h))

  pub tar_entry-Held :
      (l n : ℕ) (deeper : Option (Deeper X)) (t : TarEntry) (entries : List Bytes) (s : ScanState)
      → Deep parsers limits outer_path l deeper
      → Kept limits 0 (n + 1) s
      → HeldVisit l n (tar_entry parsers readers limits outer_path deeper t entries s)
  unfolding tar_entry
  tar_entry-Held l n deeper t entries s f h =
      let r = scan_entry parsers limits outer_path deeper t.content entries s in
      if-both (HeldVisit l n) (not t.is_regular) _ _ (skipped-Held l n s h) (
        finished-Held l n r.0.0 r.1 r.0.1
          (scan_entry-Held parsers limits outer_path l (n + 1) deeper t.content entries s f h))
