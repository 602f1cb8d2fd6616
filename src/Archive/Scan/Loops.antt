-- ===== src/Archive/Scan/Loops.antt =====
-- The loops over the entries of an archive within its limits: `scanZIP`, `scanTAR` and `scanGZIP` of
-- internal/scanner/archive.go.
use certfinder.Archive.Outcomes.{
  begin_entry, error_outcome, merge_scan_outcomes, append_archive_entry,
}
use certfinder.Archive.Scan.{
  ZipEntry, TarEntry, GzipFile, Readers, Limits, ScanState, Scanned, Deeper, is_limit_error,
}
use certfinder.Archive.Scan.Counted.{
  merge-left, merge-right, finished-Held, gzip_closed-Held, HeldVisit, zip_entry-Held,
  tar_entry-Held,
}
use certfinder.Archive.Scan.Entry.{scan_entry}
use certfinder.Archive.Scan.Held.{Deep, scan_entry-Held}
use certfinder.Archive.Scan.Kept.{
  Kept, Held, Kept-mono, Kept-begin, Kept-refused, Held-quiet, join_two-right,
}
use certfinder.Archive.Scan.Walk.{
  Visited, zip_entry, merged, begin, stopped_at, scan_zip, tar_entry, tar_end, scan_tar,
  gzip_closed, gzip_name, scan_gzip,
}
use certfinder.Base.{
  ℕ, ◌+◌, ◌≢◌, arith, ◌&&◌, Option, none, some, List, [], ◌∷◌, Bytes, ltb, GoError, wrap, Result,
  ok, err, Bool-cases, inl, inr,
}
use certfinder.Scanner.Content.{Outcome, Parsers}

module _ {X : Type 0} (parsers : Parsers X) (readers : Readers) (limits : Limits)
    (outer_path : Bytes) where
  abbrev max : ℕ
  max = limits.archive_max_entries

  pub Held-up : (l n : ℕ) (x : Scanned X) → Held limits l n x → Held limits (l + 1) n x
  Held-up l n x h = record {
    kept = Kept-mono limits l (l + 1) n n x.1 (omega arith) (omega arith) h.kept;
    reported = h.reported;
  }

  error_outcome-error :
      (entries : List Bytes) (e : GoError) → (error_outcome {X = X} entries e).error ≢ none
  unfolding error_outcome
  error_outcome-error [] e h = cc
  error_outcome-error (x ∷ xs) e h = cc

  stopped_at-error :
      (entries : List Bytes) (o : Outcome X) (e : GoError)
      → (stopped_at parsers readers limits outer_path entries o e).error ≢ none
  unfolding stopped_at merge_scan_outcomes
  stopped_at-error entries o e =
      join_two-right o.error (error_outcome {X = X} entries e).error (error_outcome-error entries e)

  begin-Held :
      (l n : ℕ) (stopped : GoError → Outcome X) (s : ScanState) (go : ScanState → Scanned X)
      → ((e : GoError) → (stopped e).error ≢ none)
      → Kept limits l n s
      → ((t : ScanState) → Kept limits 0 (n + 1) t → Held limits (l + 1) n (go t))
      → Held limits (l + 1) n (begin parsers readers limits outer_path stopped s go)
  unfolding begin begin_entry
  begin-Held l n stopped s go f h g = elim (Bool-cases (ltb max (s.counters.entries + 1))) [
    | inl y ↦
        rw y
          (record { kept = unfold begin_entry in Kept-refused limits l n s h; reported = λ _. f _ })
    | inr z ↦ rw z (g _ (Kept-begin limits l n s h (ground arith)))
  ]

  merged-Held :
      (l n : ℕ) (o : Outcome X) (v : Visited parsers readers limits outer_path)
      (go : Outcome X → ScanState → Scanned X)
      → HeldVisit parsers readers limits outer_path l n v
      → ((r : Outcome X) (t : ScanState) → Held limits l n (r, t) → Held limits (l + 1) n (go r t))
      → Held limits (l + 1) n (merged parsers readers limits outer_path o v go)
  unfolding merged
  merged-Held l n o ((r, looks), s) go h g =
      let m = merge-right parsers readers limits outer_path l n o r s h in
      elim (Bool-cases (looks && is_limit_error r.error)) [
        | inl y ↦ rw y (Held-up l n (merge_scan_outcomes o r, s) m)
        | inr z ↦ rw z (g (merge_scan_outcomes o r) s m)
      ]

  pub scan_zip-Held :
      (l n : ℕ) (deeper : Option (Deeper X)) (zs : List ZipEntry) (parents : List Bytes)
      (o : Outcome X) (s : ScanState)
      → Deep parsers limits outer_path l deeper
      → Held limits l n (o, s)
      → Held limits (l + 1) n (scan_zip parsers readers limits outer_path deeper zs parents o s)
  unfolding scan_zip
  scan_zip-Held l n deeper [] parents o s f h = Held-up l n (o, s) h
  scan_zip-Held l n deeper (z ∷ zs) parents o s f h =
      let entries = append_archive_entry readers.clean parents z.name in
      begin-Held l n (stopped_at parsers readers limits outer_path entries o) s _
        (stopped_at-error entries o) h.kept
        (λ t k.
          merged-Held l n o (zip_entry parsers readers limits outer_path deeper z entries t) _
            (zip_entry-Held parsers readers limits outer_path l n deeper z entries t f k)
            (λ r u. scan_zip-Held l n deeper zs parents r u f))

  pub scan_tar-Held :
      (l n : ℕ) (deeper : Option (Deeper X)) (hs : List TarEntry) (last : Option GoError)
      (parents : List Bytes) (o : Outcome X) (s : ScanState)
      → Deep parsers limits outer_path l deeper
      → Held limits l n (o, s)
      → Held limits
          (l + 1)
          n
          (scan_tar parsers readers limits outer_path deeper hs last parents o s)
  unfolding scan_tar tar_end
  scan_tar-Held l n deeper [] none parents o s f h = Held-up l n (o, s) h
  scan_tar-Held l n deeper [] (some e) parents o s f h = Held-up l n _ (
      merge-left parsers readers limits outer_path l n o
        (error_outcome parents (wrap "parse TAR archive: %w" [] e)) s h)
  scan_tar-Held l n deeper (t ∷ hs) last parents o s f h =
      let entries = append_archive_entry readers.clean parents t.name in
      begin-Held l n (stopped_at parsers readers limits outer_path entries o) s _
        (stopped_at-error entries o) h.kept
        (λ u k.
          merged-Held l n o (tar_entry parsers readers limits outer_path deeper t entries u) _
            (tar_entry-Held parsers readers limits outer_path l n deeper t entries u f k)
            (λ r v. scan_tar-Held l n deeper hs last parents r v f))

  pub scan_gzip-Held :
      (l n : ℕ) (deeper : Option (Deeper X)) (r : Result GzipFile) (parents : List Bytes)
      (s : ScanState)
      → Deep parsers limits outer_path l deeper
      → Kept limits 0 n s
      → Held limits (l + 1) n (scan_gzip parsers readers limits outer_path deeper r parents s)
  unfolding scan_gzip
  scan_gzip-Held l n deeper (err e) parents s f h = Held-quiet limits (l + 1) n _ s h
  scan_gzip-Held l n deeper (ok g) parents s f h =
      let name = gzip_name parsers readers limits outer_path g.name parents in
      let entries = append_archive_entry readers.clean parents name in
      begin-Held l n (error_outcome entries) s _ (error_outcome-error entries)
        (Kept-mono limits 0 l n n s (omega arith) (omega arith) h)
        (λ t k.
          let r = scan_entry parsers limits outer_path deeper g.content entries t in
          let o = gzip_closed parsers readers limits outer_path entries g.close_error r.0.0 in
          Held-up l n _ (
            finished-Held parsers readers limits outer_path l n o r.1 r.0.1 (
              gzip_closed-Held parsers readers limits outer_path l (n + 1) entries g.close_error
                r.0.0 r.1
                (scan_entry-Held parsers limits outer_path l (n + 1) deeper g.content entries t f
                  k))))
