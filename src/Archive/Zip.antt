-- ===== src/Archive/Zip.antt =====
-- The check of a ZIP archive's directory before it is opened: `checkZIPEntryCount` and
-- `readZIP64EntryCount` of internal/scanner/archive.go. `ReadAt` reads from the bytes of the archive;
-- a read past their end is an error.
pub mod Counts
use certfinder.Base.{
  ℕ, zero, suc, ◌+◌, ◌*◌, ◌-◌, ◌^◌, Bool, false, ◌||◌, not, Option, none, some, List, [], ◌∷◌,
  Bytes, length, take, drop, ltb, ◌==◌, if◌then◌else◌, GoError, errorf, num, min, Result, ok, err,
  ◌>>=◌, sentinel, unexpected_eof, wrap_err,
}

-- `binary.LittleEndian`
unfoldable pub little : Bytes → ℕ
little [] = 0
little (b ∷ bs) = b + 256 * little bs

abbrev pub field : ℕ → ℕ → Bytes → ℕ
unfolding little
field at size bytes = little (take size (drop at bytes))

abbrev pub end_record_size : ℕ
end_record_size = 22

abbrev pub read_at : ℕ → ℕ → Bytes → Result Bytes
read_at size at bytes =
    if ltb (length bytes) (at + size)
    then err (sentinel unexpected_eof)
    else ok (take size (drop at bytes))

abbrev pub count_at : Bytes → Result ℕ
count_at record_bytes =
    if not (field 0 4 record_bytes == 0x06064b50)
    then err (errorf "ZIP64 end-of-central-directory record is missing" [])
    else ok (field 32 8 record_bytes)

abbrev pub count_by : Bytes → Bytes → Result ℕ
count_by bytes locator =
    if not (field 0 4 locator == 0x07064b50)
    then err (errorf "ZIP64 locator is missing" [])
    else if ltb (2 ^ 63 - 1) (field 8 8 locator)
    then err (errorf "ZIP64 directory offset exceeds the supported file size" [])
    else read_at 56 (field 8 8 locator) bytes >>= count_at

unfoldable pub read_zip64_entry_count : Bytes → ℕ → Result ℕ
unfolding little
read_zip64_entry_count bytes end_record_offset =
    if ltb end_record_offset 20
    then err (errorf "ZIP64 locator is missing" [])
    else read_at 20 (end_record_offset - 20) bytes >>= count_by bytes

abbrev pub or_count : ℕ → Result ℕ → ℕ
or_count n (ok m) = m
or_count n (err e) = n

-- The entries that the end record at `offset` of the tail counts; `start` is where the tail begins.
unfoldable pub entry_count : Bytes → Bytes → ℕ → ℕ → ℕ
unfolding read_zip64_entry_count little
entry_count bytes tail start offset =
    let n = field (offset + 10) 2 tail in
    if n == 2 ^ 16 - 1 then or_count n (read_zip64_entry_count bytes (start + offset)) else n

-- An end record whose comment ends with the tail
abbrev pub is_end_record : Bytes → ℕ → Bool
is_end_record tail offset =
    if not (field offset 4 tail == 0x06054b50)
    then false
    else offset + end_record_size + field (offset + 20) 2 tail == length tail

abbrev pub missing_end_record : GoError
missing_end_record = errorf "ZIP end-of-central-directory record is missing" []

-- `remaining` is `ArchiveMaxEntries - entries`.
abbrev pub check_count : ℕ → ℕ → Option GoError
check_count remaining n =
    if ltb remaining n
    then some (
        errorf "ZIP entry count %d exceeds remaining archive entry limit %d"
          (num n ∷ num remaining ∷ []))
    else none

-- The loop from the last offset down, over `count` offsets.
unfoldable pub check_from : ℕ → Bytes → Bytes → ℕ → ℕ → Option GoError
unfolding entry_count little
check_from remaining bytes tail start zero = some missing_end_record
check_from remaining bytes tail start (suc offset) =
    let rest = check_from remaining bytes tail start offset in
    if is_end_record tail offset
    then check_count remaining (entry_count bytes tail start offset)
    else rest

unfoldable pub check_zip_entry_count : ℕ → Bytes → Option GoError
unfolding check_from
check_zip_entry_count remaining bytes =
    let tail_size = min (length bytes) (end_record_size + (2 ^ 16 - 1)) in
    if ltb tail_size end_record_size
    then some missing_end_record
    else (let start = length bytes - tail_size in
        check_from remaining bytes (drop start bytes) start (tail_size - end_record_size + 1))
