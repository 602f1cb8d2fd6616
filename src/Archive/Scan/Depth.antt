-- ===== src/Archive/Scan/Depth.antt =====
-- Where a scan of a whole archive says that it found something: the loops and the recursion of
-- internal/scanner/archive.go.
use certfinder.Archive.Budget.{Stream}
use mathlib.Core.Path.{subst}
use certfinder.Archive.Format.{ArchiveFormat, format_zip, format_tar, format_gzip}
use certfinder.Archive.Outcomes.{
  begin_entry, error_outcome, merge_scan_outcomes, append_archive_entry,
}
use certfinder.Archive.Scan.{
  ZipEntry, TarEntry, GzipFile, Readers, Limits, ScanState, Scanned, Deeper, is_limit_error,
}
use certfinder.Archive.Scan.Names.{
  Named, Leads, Inside, HasEntry, in_gzip, in_gzip_unnamed, Named-up, Named-nothing, Named-error,
  Named-merge,
}
use certfinder.Archive.Scan.Walk.{
  Visited, zip_content, zip_entry, merged, begin, stopped_at, scan_zip, tar_entry, tar_end,
  scan_tar, gzip_name, scan_gzip,
}
use certfinder.Base.{
  if-both, ℕ, ◌+◌, ◌≡◌, refl, All, ◌&&◌, not, Option, none, some, List, [], ◌∷◌, Bytes, ltb,
  GoError, wrap, Result, ok, err, Bool-cases, inl, inr,
}
use certfinder.Scanner.Content.{Outcome, Parsers}
use certfinder.Archive.Scan.Origin.{Deep, scan_entry-Named, closed-Named, gzip_closed-Named}

module _ {X : Type 0} (parsers : Parsers X) (readers : Readers) (limits : Limits)
    (outer_path : Bytes) where
  abbrev VisitNamed : ℕ → List Bytes → Visited parsers readers limits outer_path → Type 0
  VisitNamed l entries v = Named (Inside readers outer_path entries) l entries v.0.0

  zip_content-Named :
      (l : ℕ) (deeper : Option (Deeper X)) (z : ZipEntry) (entries : List Bytes) (s : ScanState)
      (r : Result Stream)
      → Deep parsers readers limits outer_path l deeper
      → VisitNamed l entries (zip_content parsers readers limits outer_path deeper z entries s r)
  unfolding zip_content
  zip_content-Named l deeper z entries s (err e) f = Named-error l entries entries _
  zip_content-Named l deeper z entries s (ok t) f =
      closed-Named parsers readers limits outer_path l entries z.close_error _
        (scan_entry-Named parsers readers limits outer_path l deeper t entries s f)

  zip_entry-Named :
      (l : ℕ) (deeper : Option (Deeper X)) (z : ZipEntry) (entries : List Bytes) (s : ScanState)
      → Deep parsers readers limits outer_path l deeper
      → VisitNamed l entries (zip_entry parsers readers limits outer_path deeper z entries s)
  unfolding zip_entry
  zip_entry-Named l deeper z entries s f =
      if-both (VisitNamed l entries) (not z.is_regular) _ _ (Named-nothing l entries) (
        if-both (VisitNamed l entries) z.is_encrypted _ _ (Named-error l entries entries _)
          (zip_content-Named l deeper z entries s z.opened f))

  tar_entry-Named :
      (l : ℕ) (deeper : Option (Deeper X)) (t : TarEntry) (entries : List Bytes) (s : ScanState)
      → Deep parsers readers limits outer_path l deeper
      → VisitNamed l entries (tar_entry parsers readers limits outer_path deeper t entries s)
  unfolding tar_entry
  tar_entry-Named l deeper t entries s f =
      if-both (VisitNamed l entries) (not t.is_regular) _ _ (Named-nothing l entries)
        (scan_entry-Named parsers readers limits outer_path l deeper t.content entries s f)

  begin-Named :
      {P : List Bytes → Type 0} (l : ℕ) (parents : List Bytes) (stopped : GoError → Outcome X)
      (s : ScanState) (go : ScanState → Scanned X)
      → ((e : GoError) → Named P l parents (stopped e))
      → ((t : ScanState) → Named P l parents (go t).0)
      → Named P l parents (begin parsers readers limits outer_path stopped s go).0
  unfolding begin begin_entry
  begin-Named l parents stopped s go f g =
      elim (Bool-cases (ltb limits.archive_max_entries (s.counters.entries + 1))) [
        | inl y ↦ rw y (f _)
        | inr z ↦ rw z (g _)
      ]

  stopped_at-Named :
      {P : List Bytes → Type 0} (l : ℕ) (parents entries : List Bytes) (o : Outcome X) (e : GoError)
      → Named P l parents o
      → Named P l parents (stopped_at parsers readers limits outer_path entries o e)
  unfolding stopped_at
  stopped_at-Named l parents entries o e h =
      Named-merge l parents o (error_outcome entries e) h (Named-error l parents entries e)

  merged-Named :
      (bytes : Bytes) (format : ArchiveFormat) (l : ℕ) (parents : List Bytes) (name : Bytes)
      (o : Outcome X) (v : Visited parsers readers limits outer_path)
      (go : Outcome X → ScanState → Scanned X)
      → HasEntry readers outer_path bytes format parents name
      → Named (Leads readers outer_path bytes format parents) (l + 1) parents o
      → VisitNamed l (append_archive_entry readers.clean parents name) v
      → ((r : Outcome X) (t : ScanState)
          → Named (Leads readers outer_path bytes format parents) (l + 1) parents r
          → Named (Leads readers outer_path bytes format parents) (l + 1) parents (go r t).0)
      → Named
          (Leads readers outer_path bytes format parents)
          (l + 1)
          parents
          (merged parsers readers limits outer_path o v go).0
  unfolding merged
  merged-Named bytes format l parents name o ((r, looks), s) go e h k g =
      let m =
        Named-merge (l + 1) parents o r h
          (Named-up readers outer_path bytes format l parents name r e k) in
      elim (Bool-cases (looks && is_limit_error r.error)) [
        | inl y ↦ rw y m
        | inr z ↦ rw z (g (merge_scan_outcomes o r) s m)
      ]

  pub scan_zip-Named :
      (bytes : Bytes) (l : ℕ) (deeper : Option (Deeper X)) (zs : List ZipEntry)
      (parents : List Bytes) (o : Outcome X) (s : ScanState)
      → All (λ z. HasEntry readers outer_path bytes format_zip parents z.name) zs
      → Deep parsers readers limits outer_path l deeper
      → Named (Leads readers outer_path bytes format_zip parents) (l + 1) parents o
      → Named
          (Leads readers outer_path bytes format_zip parents)
          (l + 1)
          parents
          (scan_zip parsers readers limits outer_path deeper zs parents o s).0
  unfolding scan_zip
  scan_zip-Named bytes l deeper [] parents o s e f h = h
  scan_zip-Named bytes l deeper (z ∷ zs) parents o s e f h =
      let entries = append_archive_entry readers.clean parents z.name in
      begin-Named (l + 1) parents (stopped_at parsers readers limits outer_path entries o) s _
        (λ x. stopped_at-Named (l + 1) parents entries o x h)
        (λ t.
          merged-Named bytes format_zip l parents z.name o
            (zip_entry parsers readers limits outer_path deeper z entries t) _ e.0 h
            (zip_entry-Named l deeper z entries t f)
            (λ r u. scan_zip-Named bytes l deeper zs parents r u e.1 f))

  pub scan_tar-Named :
      (bytes : Bytes) (l : ℕ) (deeper : Option (Deeper X)) (hs : List TarEntry)
      (last : Option GoError) (parents : List Bytes) (o : Outcome X) (s : ScanState)
      → All (λ t. HasEntry readers outer_path bytes format_tar parents t.name) hs
      → Deep parsers readers limits outer_path l deeper
      → Named (Leads readers outer_path bytes format_tar parents) (l + 1) parents o
      → Named
          (Leads readers outer_path bytes format_tar parents)
          (l + 1)
          parents
          (scan_tar parsers readers limits outer_path deeper hs last parents o s).0
  unfolding scan_tar tar_end
  scan_tar-Named bytes l deeper [] none parents o s e f h = h
  scan_tar-Named bytes l deeper [] (some x) parents o s e f h =
      Named-merge (l + 1) parents o _ h
        (Named-error (l + 1) parents parents (wrap "parse TAR archive: %w" [] x))
  scan_tar-Named bytes l deeper (t ∷ hs) last parents o s e f h =
      let entries = append_archive_entry readers.clean parents t.name in
      begin-Named (l + 1) parents (stopped_at parsers readers limits outer_path entries o) s _
        (λ x. stopped_at-Named (l + 1) parents entries o x h)
        (λ u.
          merged-Named bytes format_tar l parents t.name o
            (tar_entry parsers readers limits outer_path deeper t entries u) _ e.0 h
            (tar_entry-Named l deeper t entries u f)
            (λ r v. scan_tar-Named bytes l deeper hs last parents r v e.1 f))

  gzip_name-HasEntry :
      (bytes : Bytes) (g : GzipFile) (name : Bytes) (parents : List Bytes)
      → readers.gzip bytes ≡ ok g
      → g.name ≡ name
      → HasEntry readers outer_path bytes format_gzip parents
          (gzip_name parsers readers limits outer_path name parents)
  unfolding gzip_name
  gzip_name-HasEntry bytes g [] parents p e = in_gzip_unnamed parents g p e
  gzip_name-HasEntry bytes g (c ∷ name) parents p e =
      subst (HasEntry readers outer_path bytes format_gzip parents) e
        (in_gzip parents g p (λ k. cc (e, k)))

  pub scan_gzip-Named :
      (bytes : Bytes) (l : ℕ) (deeper : Option (Deeper X)) (r : Result GzipFile)
      (parents : List Bytes) (s : ScanState)
      → readers.gzip bytes ≡ r
      → Deep parsers readers limits outer_path l deeper
      → Named
          (Leads readers outer_path bytes format_gzip parents)
          (l + 1)
          parents
          (scan_gzip parsers readers limits outer_path deeper r parents s).0
  unfolding scan_gzip
  scan_gzip-Named bytes l deeper (err e) parents s p f = Named-error (l + 1) parents parents _
  scan_gzip-Named bytes l deeper (ok g) parents s p f =
      let name = gzip_name parsers readers limits outer_path g.name parents in
      let entries = append_archive_entry readers.clean parents name in
      begin-Named (l + 1) parents (error_outcome entries) s _
        (λ e. Named-error (l + 1) parents entries e)
        (λ t.
          Named-up readers outer_path bytes format_gzip l parents name _
            (gzip_name-HasEntry bytes g g.name parents p refl)
            (gzip_closed-Named parsers readers limits outer_path l entries g.close_error _
              (scan_entry-Named parsers readers limits outer_path l deeper g.content entries t f)))
