-- ===== src/Lib.antt =====
-- certfinder: a verification library for the certificate scanner.
--
-- The program walks a filesystem, looks at the first bytes of each file, recognises PEM and DER
-- certificates, Java keystores, PKCS#12 files and archives of these, and prints or groups the
-- certificates that it finds, filtered by options and with their chains verified if that is asked
-- for.
--
-- Base holds what the parts share: Go's `error` values as trees (Base.Errors), lists over the
-- native numbers (Base.Lists), orders and sorting (Base.Order), strings as bytes (Base.Text),
-- UTF-8 (Base.Utf8) and the Boolean tests (Base.Tests).
--
-- Model: the records of internal/scanner/scanner.go. A pointer that may be nil is an Option, an
--   x509.Certificate a type that the definitions take as a parameter, an instant a natural number.
-- Utf16 and Jks: internal/scanner/jks.go. Utf16.Spell has UTF-16 as the Unicode standard writes it,
--   apart from the code. Jks.Reader is `javaKeystoreReader`, a record of the
--   bytes and the offset that each operation returns anew; Jks.ModifiedUtf8 is
--   `decodeJavaModifiedUTF8`; Jks.Parse is `parseJavaKeystore`, whose loop over the entries passes a
--   record of the reader, the certificates, the errors and the counters, and either goes on or
--   returns early.
-- Archive: internal/scanner/archive.go. Archive.Format detects the format; Archive.Budget is
--   `archiveBudgetReader` with `io.ReadAll` and `io.LimitReader` over a reader that hands out its
--   bytes in pieces, and Archive.Budget.Entry is `readPrefix` and `readFullEntry`; Archive.Zip is
--   `checkZIPEntryCount`, and Archive.Outcomes the small operations on counters, outcomes and names.
--   `io.ReadAll` runs on fuel: one round for each byte and each piece of the stream and one more,
--   which is enough since a round takes a byte or a piece. Archive.Scan.Entry is `scanEntry` and
--   Archive.Scan.Walk the loops `scanZIP`, `scanTAR` and `scanGZIP` with `scanArchiveBytes` and
--   `scanArchiveFile`, which pass the state of the scanner on. A reader of archive/zip, archive/tar
--   or compress/gzip is the list of the entries that it hands out, in the interface `Readers`. The
--   recursion into nested archives is on the levels that `ArchiveMaxDepth` leaves.
-- Der and Pkcs12: internal/scanner/pkcs12.go. Der is `readDERElementHeader`, Pkcs12.Detect
--   `detectPKCS12`, Pkcs12.Asn1 the helpers over an interface of `asn1.Unmarshal`, Pkcs12.Bag,
--   Pkcs12.Strings and Pkcs12.Encrypted the parts of a file, and Pkcs12.Contents `parsePKCS12` and
--   `parseSafeContents`, which pass the parser's record on. The nesting of contents is bounded by
--   the code, and the model recurs on the levels that are left.
-- Scanner: `scanContentData`, the names of usages, the validity, the exclude patterns and
--   extensions, and `sortReport` of internal/scanner/scanner.go. The parsers that `scanContentData`
--   calls are the fields of an interface. `sort.Slice` is a sort that keeps equal keys in their
--   order. Scanner.File and Scanner.Pem: `scanFileContentsWithOptions` over a file that is its bytes
--   and its errors, and `parsePEM` over pem.Decode, whose loop runs on the length of the data and
--   one: it takes at least one byte in each round. Scanner.Collect: the loop of `Scan` over the
--   outcomes that its workers send, in whatever order they arrive, with its counters. Scanner.Walk:
--   `discoveryWalker` of internal/scanner/scanner.go, over an interface of the filesystem. What a
--   look at the context finds, and whether a send to a channel is refused, is a parameter. The
--   recursion of `walkDirectory` runs on fuel: one more than the directories that there are is
--   enough, since each is entered once.
-- Verify: internal/scanner/verify.go, over an interface of crypto/x509.
-- Groups: the grouping of duplicates.go and the counts of main.go.
-- Display: progress.go. A method is what it does under its lock, and a write is an element of the
--   log, with an error that is a parameter of the model; Display.Start is what `Start` writes, and
--   Display.Run has `Stop`, with its wait for `refreshLoop` and the channel `done`, and the steps in which the goroutines
--   interleave.
-- Options: the flags of main.go, its durations, host names and usages, its trust anchors, and
--   `certificateMatches`. White space and letters are those of ASCII; filepath.Clean, path.Match,
--   netip.ParseAddr and the parsers of numbers and durations are parameters.
--
-- Not modelled: the start of the workers of a scan and their channels, the callbacks for progress,
-- text and JSON output and the build information, which are input and output; and
-- filepath.WalkDir, which the walk without symbolic links is a function for. Numbers of type int
-- and int64 are natural numbers where the code keeps them non-negative; the places where their 64
-- bits matter are written out.
pub mod Archive
pub mod Base
pub mod Der
pub mod Display
pub mod Groups
pub mod Jks
pub mod Model
pub mod Options
pub mod Pkcs12
pub mod Scanner
pub mod Utf16
pub mod Verify
