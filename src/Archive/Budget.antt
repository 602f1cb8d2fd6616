-- ===== src/Archive/Budget.antt =====
-- Reading an archive entry within the limits: `archiveBudgetReader`, `readPrefix` and
-- `readFullEntry` of internal/scanner/archive.go, over readers whose every `Read` may return less
-- than it is asked for.
pub mod Entry
pub mod Rounds
pub mod Drain
pub mod Ends
pub mod Whole
use certfinder.Base.{
  ℕ, zero, suc, ◌+◌, ◌-◌, ◌^◌, ◌<◌, min, Bool, true, false, Option, none, some, List, [], ◌∷◌, ◌++◌,
  Bytes, length, take, drop, leb, ltb, ◌==◌, if◌then◌else◌, num, wrap, sentinel,
  archive_decompressed_bytes, GoError,
}

-- What a reader still has: the pieces that its `Read` hands out, then `io.EOF` or an error.
pub record Stream : Type 0 where
  pub pieces : List Bytes
  pub failure : Option GoError

pub data ReadError : Type 0 where
  eof : ReadError
  failed : GoError → ReadError

abbrev pub end_of : Option GoError → ReadError
end_of none = eof
end_of (some e) = failed e

-- `reader.Read(buffer)` of the entry's own reader, for a buffer of `n` bytes
unfoldable pub read_pieces : ℕ → List Bytes → Option GoError → Bytes × Option ReadError × List Bytes
read_pieces n [] f = ([], some (end_of f), [])
read_pieces n (p ∷ ps) f =
    if leb (length p) n then (p, none, ps) else (take n p, none, drop n p ∷ ps)

-- The budget reader together with what it reads: `limit` is what an `io.LimitReader` around it
-- still lets through, if there is one, and `bytes_read` is the field of the scanner.
pub record Source : Type 0 where
  pub limit : Option ℕ
  pub bytes_read : ℕ
  pub stream : Stream

abbrev pub limit_error : ℕ → GoError
limit_error max_bytes =
    wrap "%w (maximum %d bytes)" (num max_bytes ∷ []) (sentinel archive_decompressed_bytes)

-- `count > 0` is the negation.
abbrev pub is_empty : Bytes → Bool
is_empty [] = true
is_empty (b ∷ bs) = false

-- `archiveBudgetReader.Read`. Past the budget one byte is read to see if there is more.
unfoldable pub budget_read : ℕ → ℕ → Source → Bytes × Option ReadError × Source
unfolding read_pieces
budget_read max_bytes n s =
    let remaining = max_bytes - s.bytes_read in
    if remaining == 0
    then (let (probe, e, ps) = read_pieces 1 s.stream.pieces s.stream.failure in
        let s' = record s { stream = record s.stream { pieces = ps } } in
        if is_empty probe then ([], e, s') else ([], some (failed (limit_error max_bytes)), s'))
    else (let n' = if ltb remaining n then remaining else n in
        let (got, e, ps) = read_pieces n' s.stream.pieces s.stream.failure in
        (
          got,
          e,
          record s {
            bytes_read = s.bytes_read + length got;
            stream = record s.stream { pieces = ps };
          },
        ))

-- `io.LimitedReader.Read` where there is a limit
unfoldable pub limited_read : ℕ → ℕ → Source → Option ℕ → Bytes × Option ReadError × Source
unfolding budget_read
limited_read max_bytes n s none = budget_read max_bytes n s
limited_read max_bytes n s (some zero) = ([], some eof, s)
limited_read max_bytes n s (some (suc k)) =
    let (got, e, s') = budget_read max_bytes (if ltb (suc k) n then suc k else n) s in
    (got, e, record s' { limit = some (suc k - length got) })

-- `io.ReadAll` with a buffer of 512 free bytes in each round: the data, the error other than EOF, and
-- the reader. `none` means that the fuel ran out.
unfoldable pub read_all : ℕ → ℕ → Source → Bytes → Option (Bytes × Option GoError × Source)
unfolding limited_read
read_all zero max_bytes s out = none
read_all (suc fuel) max_bytes s out =
    let (got, e, s') = limited_read max_bytes 512 s s.limit in
    elim e [
      | none ↦ read_all fuel max_bytes s' (out ++ got)
      | some eof ↦ some (out ++ got, none, s')
      | some (failed x) ↦ some (out ++ got, some x, s')
    ]

-- The rounds that a stream can take: each takes a byte or a piece.
unfoldable pub rounds : List Bytes → ℕ
rounds [] = 0
rounds (p ∷ ps) = length p + 1 + rounds ps

abbrev pub fuel_for : Source → ℕ
fuel_for s = rounds s.stream.pieces + 1
