-- ===== src/Scanner/File/Reads.antt =====
-- What a scan reads of a file: `scanFileContentsWithOptions` of internal/scanner/scanner.go against a
-- description without readers.
use certfinder.Archive.Format.{ArchiveFormat, detect_archive_format}
use certfinder.Base.{
  ℕ, zero, suc, ◌≤◌, ◌≡◌, refl, ◌∙◌, ap, arith, Bool, true, false, ◌&&◌, ◌||◌, not, none, [], ◌∷◌,
  Bytes, length, length-take, take, leb, ◌==◌, if◌then◌else◌, Bool-cases, inl, inr,
}
use certfinder.Scanner.Content.{Outcome, Parsers, scan_content_data}
use certfinder.Scanner.File.{
  File, read_first, read_extra, is_none_format, content_outcome, known_outcome, scan_file_contents,
}

take-all : (n : ℕ) (xs : Bytes) → length xs ≤ n → take n xs ≡ xs
take-all zero [] h = refl
take-all zero (x ∷ xs) h = absurd (omega arith)
take-all (suc n) [] h = refl
take-all (suc n) (x ∷ xs) h = ap (λ ys. x ∷ ys) (take-all n xs (omega arith))

-- Whether `MaxBytes` lets the whole file be read
abbrev pub fits : ℕ → Bytes → Bool
fits max_bytes bytes = max_bytes == 0 || leb (length bytes) max_bytes

read_first-fits :
    (max_bytes : ℕ) (f : File)
    → f.failure ≡ none
    → fits max_bytes f.content ≡ true
    → read_first max_bytes f ≡ (f.content, none)
unfolding read_first
read_first-fits max_bytes f e h = ground (arith, e, take-all max_bytes f.content)

read_extra-fits :
    (max_bytes : ℕ) (f : File)
    → f.failure ≡ none
    → fits max_bytes f.content ≡ true
    → read_extra max_bytes f.content f ≡ (true, none)
unfolding read_extra
read_extra-fits max_bytes f e h = ground (arith, e)

read_first-long :
    (max_bytes : ℕ) (f : File)
    → fits max_bytes f.content ≡ false
    → read_first max_bytes f ≡ (take max_bytes f.content, none)
unfolding read_first
read_first-long max_bytes f h = ground arith

read_extra-long :
    (max_bytes : ℕ) (f : File)
    → fits max_bytes f.content ≡ false
    → read_extra max_bytes (take max_bytes f.content) f ≡ (false, none)
unfolding read_extra
read_extra-long max_bytes f h = ground (arith, length-take max_bytes f.content)

module _ {X : Type 0} (parsers : Parsers X) (scan_archive : Bytes → ArchiveFormat → Outcome X)
    (max_bytes : ℕ) (scan_archives : Bool) (path : Bytes) where
  abbrev pub whole : File → Outcome X
  whole f = record (scan_content_data parsers path f.content true).0 { capped = false }

  -- A file without an archive: the prefix is enough where it shows no keystore and no PEM block, and then
  -- the file is capped.
  unfoldable pub described_content : File → Outcome X
  described_content f =
      let part = scan_content_data parsers path (take max_bytes f.content) false in
      if fits max_bytes f.content
      then whole f
      else if part.1
      then whole f
      else record part.0 { capped = true }

  unfoldable pub described : File → Outcome X
  described f =
      let seen = if fits max_bytes f.content then f.content else take max_bytes f.content in
      let format = detect_archive_format seen in
      if scan_archives
        && not (is_none_format parsers scan_archive max_bytes scan_archives path format)
      then scan_archive f.content format
      else described_content f

  -- No call on the file has an error.
  pub record IsReadable (f : File) : Type 0 where
    pub opens : f.open_error ≡ none
    pub seeks : f.seek_error ≡ none
    pub reads : f.failure ≡ none

  content_outcome-whole :
      (f : File) (r : Outcome X × Bool)
      → IsReadable f
      → record r.0 { capped = false } ≡ whole f
      → content_outcome parsers scan_archive max_bytes scan_archives path true f r ≡ whole f
  unfolding content_outcome
  content_outcome-whole f (result, false) h e = e
  content_outcome-whole f (result, true) h e = rw (h.seeks, h.reads) refl

  content_outcome-part :
      (f : File) (r : Outcome X × Bool)
      → IsReadable f
      → content_outcome parsers scan_archive max_bytes scan_archives path false f r
        ≡ (if r.1 then whole f else record r.0 { capped = true })
  unfolding content_outcome
  content_outcome-part f (result, false) h = refl
  content_outcome-part f (result, true) h = rw (h.seeks, h.reads) refl

  known_outcome-either :
      (f : File) (bytes : Bytes) (complete : Bool) (o : Outcome X)
      → IsReadable f
      → content_outcome parsers scan_archive max_bytes scan_archives path complete f
          (scan_content_data parsers path bytes complete)
        ≡ o
      → known_outcome parsers scan_archive max_bytes scan_archives path bytes complete f ≡ (
          if scan_archives
            && not (
                is_none_format parsers scan_archive max_bytes scan_archives path
                  (detect_archive_format bytes))
          then scan_archive f.content (detect_archive_format bytes)
          else o)
  unfolding known_outcome
  known_outcome-either f bytes complete o h e = rw (e, h.seeks) refl

  scan_file_contents-after :
      (f : File) (bytes : Bytes) (complete : Bool)
      → IsReadable f
      → read_first max_bytes f ≡ (bytes, none)
      → read_extra max_bytes bytes f ≡ (complete, none)
      → scan_file_contents parsers scan_archive max_bytes scan_archives path f
        ≡ known_outcome parsers scan_archive max_bytes scan_archives path bytes complete f
  unfolding scan_file_contents
  scan_file_contents-after f bytes complete h r x = rw (h.opens, r, x) refl

  -- A file that opens, seeks and reads without an error: the scan is the one of the whole file, or of
  -- its first `MaxBytes` bytes where it is longer and these show nothing that needs the rest, and then it
  -- says that it was capped. An archive is known by the bytes that are read first, and scanned as a whole.
  pub scan_file_contents-described :
      (f : File)
      → IsReadable f
      → scan_file_contents parsers scan_archive max_bytes scan_archives path f ≡ described f
  unfolding described described_content
  scan_file_contents-described f h = elim (Bool-cases (fits max_bytes f.content)) [
    | inl y ↦
        scan_file_contents-after f f.content true h (read_first-fits max_bytes f h.reads y)
          (read_extra-fits max_bytes f h.reads y)
        ∙ known_outcome-either f f.content true (whole f) h (content_outcome-whole f _ h refl)
        ∙ rw y refl
    | inr z ↦
        scan_file_contents-after f (take max_bytes f.content) false h
          (read_first-long max_bytes f z) (read_extra-long max_bytes f z)
        ∙ known_outcome-either f (take max_bytes f.content) false _ h (content_outcome-part f _ h)
        ∙ rw z refl
  ]
