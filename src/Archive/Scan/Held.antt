-- ===== src/Archive/Scan/Held.antt =====
-- One entry of an archive within the limits of the scan: `scanEntry` of internal/scanner/archive.go.
use certfinder.Archive.Budget.{Stream}
use certfinder.Archive.Budget.Ends.{
  read_prefix-Ended, read_full_entry-Ended, read_prefix-counted, read_full_entry-counted,
}
use certfinder.Archive.Budget.Entry.{Prefix}
use certfinder.Archive.Format.{ArchiveFormat, detect_archive_format}
use certfinder.Archive.Outcomes.{error_outcome}
use certfinder.Archive.Scan.{Limits, ScanState, Deeper}
use certfinder.Archive.Scan.Entry.{
  read_entry_prefix, read_rest, EntryResult, nested_data, nested_archive, full_content,
  file_content, is_none_format, prefix_content, scan_entry,
}
use certfinder.Archive.Scan.Kept.{Kept, Held, Kept-read, Held-quiet}
use certfinder.Base.{
  ℕ, ◌+◌, ◌≡◌, refl, arith, length, ◌≤◌, Bool, true, false, Option, none, some, List, Bytes,
  if◌then◌else◌, GoError, Bool-cases, inl, inr,
}
use certfinder.Scanner.Content.{Outcome, Parsers, scan_content_data}

module _ {X : Type 0} (parsers : Parsers X) (limits : Limits) (outer_path : Bytes) where
  -- What `scanArchiveBytes` of a nested archive keeps
  abbrev pub Deep : ℕ → Option (Deeper X) → Type 0
  Deep l none = Unit
  Deep l (some deeper) =
      (bytes : Bytes) (format : ArchiveFormat) (parents : List Bytes) (n : ℕ) (s : ScanState)
      → Kept limits 0 n s
      → Held limits l n (deeper bytes format parents s)

  abbrev pub HeldEntry : ℕ → ℕ → EntryResult parsers limits outer_path → Type 0
  HeldEntry l n r = Held limits l n (r.0.0, r.1)

  pub read_entry_prefix-le :
      (t : Stream) (s : ScanState)
      → s.bytes_read ≤ limits.archive_max_bytes
      → (read_entry_prefix parsers limits outer_path t s).rest.bytes_read ≤ limits.archive_max_bytes
  unfolding read_entry_prefix
  read_entry_prefix-le t s h =
      let (p, e, _, m) =
        read_prefix-Ended limits.archive_max_bytes limits.max_bytes s.bytes_read t h in
      rw e m

  read_rest-le :
      (p : Prefix)
      → p.rest.bytes_read ≤ limits.archive_max_bytes
      → (read_rest parsers limits outer_path p).2 ≤ limits.archive_max_bytes
  unfolding read_rest
  read_rest-le p h =
      let (x, e, _, m) =
        read_full_entry-Ended limits.archive_max_bytes p.data_bytes p.overflow p.rest.bytes_read
          p.rest.stream h in
      rw e m

  read_entry_prefix-counted :
      (t : Stream) (s : ScanState)
      → (let p = read_entry_prefix parsers limits outer_path t s in
          p.rest.bytes_read ≡ s.bytes_read + (length p.data_bytes + length p.overflow))
  unfolding read_entry_prefix
  read_entry_prefix-counted t s =
      let (p, e, c) =
        read_prefix-counted limits.archive_max_bytes limits.max_bytes s.bytes_read t in
      rw e c

  read_rest-counted :
      (p : Prefix)
      → (let r = read_rest parsers limits outer_path p in r.2 ≡ p.rest.bytes_read + r.3)
  unfolding read_rest
  read_rest-counted p =
      let (x, e, c) =
        read_full_entry-counted limits.archive_max_bytes p.data_bytes p.overflow p.rest.bytes_read
          p.rest.stream in
      rw e c

  nested_data-Held :
      (l n : ℕ) (deeper : Deeper X) (format : ArchiveFormat) (entries : List Bytes) (s : ScanState)
      (d : Bytes × Option GoError × ℕ × ℕ)
      → Deep l (some deeper)
      → Kept limits 0 n s
      → d.2 ≤ limits.archive_max_bytes
      → d.2 ≡ s.bytes_read + d.3
      → HeldEntry l n (nested_data parsers limits outer_path deeper format entries s d)
  unfolding nested_data
  nested_data-Held l n deeper format entries s (xs, some e, b, q) f h m c =
      Held-quiet limits l n (error_outcome entries e)
        (record s { bytes_read = b; delivered = s.delivered + q })
        (Kept-read limits 0 n s b q m c h)
  nested_data-Held l n deeper format entries s (xs, none, b, q) f h m c =
      f xs format entries n (record s { bytes_read = b; delivered = s.delivered + q })
        (Kept-read limits 0 n s b q m c h)

  nested_archive-Held :
      (l n : ℕ) (deeper : Option (Deeper X)) (format : ArchiveFormat) (entries : List Bytes)
      (p : Prefix) (s : ScanState)
      → Deep l deeper
      → Kept limits 0 n s
      → p.rest.bytes_read ≤ limits.archive_max_bytes
      → p.rest.bytes_read ≡ s.bytes_read
      → HeldEntry l n (nested_archive parsers limits outer_path deeper format entries p s)
  unfolding nested_archive
  nested_archive-Held l n none format entries p s f h m c = Held-quiet limits l n _ s h
  nested_archive-Held l n (some deeper) format entries p s f h m c =
      nested_data-Held l n deeper format entries s
        (if p.complete
          then (p.data_bytes, none, p.rest.bytes_read, 0)
          else read_rest parsers limits outer_path p)
        f h (elim (Bool-cases p.complete) [ inl y ↦ rw y m | inr z ↦ rw z (read_rest-le p m) ])
        (elim (Bool-cases p.complete) [
          | inl y ↦ rw y (omega arith)
          | inr z ↦ rw z (omega (arith, read_rest-counted p))
        ])

  full_content-Held :
      (l n : ℕ) (entries : List Bytes) (o : Outcome X) (s : ScanState)
      (d : Bytes × Option GoError × ℕ × ℕ)
      → Kept limits 0 n s
      → d.2 ≤ limits.archive_max_bytes
      → d.2 ≡ s.bytes_read + d.3
      → HeldEntry l n (full_content parsers limits outer_path entries o s d)
  unfolding full_content
  full_content-Held l n entries o s (xs, some e, b, q) h m c =
      Held-quiet limits l n _ (record s { bytes_read = b; delivered = s.delivered + q })
        (Kept-read limits 0 n s b q m c h)
  full_content-Held l n entries o s (xs, none, b, q) h m c =
      Held-quiet limits l n _ (record s { bytes_read = b; delivered = s.delivered + q })
        (Kept-read limits 0 n s b q m c h)

  file_content-Held :
      (l n : ℕ) (entries : List Bytes) (p : Prefix) (s : ScanState) (r : Outcome X × Bool)
      → Kept limits 0 n s
      → p.rest.bytes_read ≤ limits.archive_max_bytes
      → p.rest.bytes_read ≡ s.bytes_read
      → HeldEntry l n (file_content parsers limits outer_path entries p s r)
  unfolding file_content
  file_content-Held l n entries p s (o, true) h m c =
      full_content-Held l n entries o s (read_rest parsers limits outer_path p) h (read_rest-le p m)
        (omega (arith, read_rest-counted p))
  file_content-Held l n entries p s (o, false) h m c = Held-quiet limits l n _ s h

  prefix_content-Held :
      (l n : ℕ) (deeper : Option (Deeper X)) (entries : List Bytes) (p : Prefix) (s : ScanState)
      (e : Option GoError)
      → Deep l deeper
      → Kept limits 0 n s
      → p.rest.bytes_read ≤ limits.archive_max_bytes
      → p.rest.bytes_read ≡ s.bytes_read
      → HeldEntry l n (prefix_content parsers limits outer_path deeper entries p s e)
  unfolding prefix_content
  prefix_content-Held l n deeper entries p s (some e) f h m c = Held-quiet limits l n _ s h
  prefix_content-Held l n deeper entries p s none f h m c =
      let format = detect_archive_format p.data_bytes in
      elim (Bool-cases (is_none_format parsers limits outer_path format)) [
        | inl y ↦ rw y (
            file_content-Held l n entries p s
              (scan_content_data parsers outer_path p.data_bytes p.complete) h m c)
        | inr z ↦ rw z (nested_archive-Held l n deeper format entries p s f h m c)
      ]

  pub scan_entry-Held :
      (l n : ℕ) (deeper : Option (Deeper X)) (t : Stream) (entries : List Bytes) (s : ScanState)
      → Deep l deeper
      → Kept limits 0 n s
      → HeldEntry l n (scan_entry parsers limits outer_path deeper t entries s)
  unfolding scan_entry
  scan_entry-Held l n deeper t entries s f h =
      let p = read_entry_prefix parsers limits outer_path t s in
      let m = read_entry_prefix-le t s h.within in
      let q = length p.data_bytes + length p.overflow in
      prefix_content-Held l n deeper entries p
        (record s { bytes_read = p.rest.bytes_read; delivered = s.delivered + q }) p.error f
        (Kept-read limits 0 n s p.rest.bytes_read q m (read_entry_prefix-counted t s) h) m refl
