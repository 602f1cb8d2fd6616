-- ===== src/Archive/Scan.antt =====
-- The recursive scan of an archive, of internal/scanner/archive.go: the state and the readers. The readers of archive/zip, archive/tar and
-- compress/gzip are the interface `Readers`: a reader of entries is the list of what it hands out.
pub mod Entry
pub mod Kept
pub mod Held
pub mod Counted
pub mod Loops
pub mod Whole
pub mod Names
pub mod Origin
pub mod Depth
pub mod Found
mod Tests
pub mod Walk
use certfinder.Archive.Budget.{Stream, Source}
use certfinder.Archive.Budget.Entry.{Prefix, source}
use certfinder.Archive.Format.{ArchiveFormat}
use certfinder.Archive.Outcomes.{Entries}
use certfinder.Base.{
  ℕ, Bool, false, Option, none, some, List, [], Bytes, GoError, archive_decompressed_bytes, foreign,
  is_error, Result,
}
use certfinder.Scanner.Content.{Outcome}

-- A zip.File: its name, whether it is a regular file, bit 0 of its flags, what `Open` returns, and
-- the error of `Close`
pub record ZipEntry : Type 0 where
  pub name : Bytes
  pub is_regular : Bool
  pub is_encrypted : Bool
  pub opened : Result Stream
  pub close_error : Option GoError

pub record TarEntry : Type 0 where
  pub name : Bytes
  pub is_regular : Bool
  pub content : Stream

pub record GzipFile : Type 0 where
  pub name : Bytes
  pub content : Stream
  pub close_error : Option GoError

pub record Readers : Type 0 where
  pub zip : Bytes → Result (List ZipEntry)
  -- The headers that `Next` returns, and the error that ends them if it is not io.EOF
  pub tar : Bytes → List TarEntry × Option GoError
  pub gzip : Bytes → Result GzipFile
  pub clean : Bytes → Bytes
  pub file_base : Bytes → Bytes
  pub path_base : Bytes → Bytes

pub record Limits : Type 0 where
  pub max_bytes : ℕ
  pub archive_max_bytes : ℕ
  pub archive_max_entries : ℕ
  pub archive_max_depth : ℕ

-- archiveScanner, with the number of bytes that its readers have handed out, which the code does not keep
pub record ScanState : Type 0 where
  pub bytes_read : ℕ
  pub delivered : ℕ
  pub counters : Entries

abbrev pub Scanned : Type 0 → Type 0
Scanned X = Outcome X × ScanState

-- `scanArchiveBytes` at some depth
abbrev pub Deeper : Type 0 → Type 0
Deeper X = Bytes → ArchiveFormat → List Bytes → ScanState → Scanned X

-- `io.ReadAll` always ends, so that the last clauses stand for no run.
abbrev pub out_of_fuel : GoError
out_of_fuel = foreign []

abbrev pub prefix_or : ℕ → Stream → Option Prefix → Prefix
prefix_or b t (some p) = p
prefix_or b t none = record {
  data_bytes = [];
  overflow = [];
  complete = false;
  error = some out_of_fuel;
  rest = source none b t;
}

abbrev pub full_or : ℕ → Option (Bytes × Option GoError × Source) → Bytes × Option GoError × ℕ
full_or b (some (xs, e, s)) = (xs, e, s.bytes_read)
full_or b none = ([], some out_of_fuel, b)

unfoldable pub is_limit_error : Option GoError → Bool
unfolding is_error
is_limit_error none = false
is_limit_error (some e) = is_error e archive_decompressed_bytes
