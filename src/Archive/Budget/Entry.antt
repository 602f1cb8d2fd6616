-- ===== src/Archive/Budget/Entry.antt =====
-- Reading one archive entry, in the two phases of internal/scanner/archive.go: `readPrefix` reads the
-- bytes that a file scan may look at and `readFullEntry` the rest.
use certfinder.Archive.Budget.{Stream, Source, read_all, fuel_for}
use mathlib.Core.Option
use certfinder.Base.{
  ℕ, ◌+◌, ◌-◌, ◌^◌, Bool, true, false, Option, none, some, [], ◌++◌, Bytes, length, take, drop, leb,
  ltb, ◌==◌, if◌then◌else◌, ◌&&◌, not, GoError,
}

pub record Prefix : Type 0 where
  pub data_bytes : Bytes
  pub overflow : Bytes
  pub complete : Bool
  pub error : Option GoError
  pub rest : Source

-- The source of an entry: the scanner's `bytesRead` and the entry's own reader.
abbrev pub source : Option ℕ → ℕ → Stream → Source
source l b t = record { limit = l; bytes_read = b; stream = t }

abbrev pub is_none : {A : Type 0} → Option A → Bool
is_none none = true
is_none (some x) = false

-- Where `prefixLimit` is the greatest int64 it is not increased.
abbrev pub prefix_limit : ℕ → ℕ
prefix_limit max_bytes = if ltb max_bytes (2 ^ 63 - 1) then max_bytes + 1 else max_bytes

-- What `readPrefix` makes of what `io.ReadAll` returned, without and with a limit
abbrev pub whole_prefix : Bytes × Option GoError × Source → Prefix
whole_prefix (xs, e, s) = record {
  data_bytes = xs;
  overflow = [];
  complete = is_none e;
  error = e;
  rest = s;
}

abbrev pub limited_prefix : ℕ → Bytes × Option GoError × Source → Prefix
limited_prefix max_bytes (xs, some e, s) = record {
  data_bytes = xs;
  overflow = [];
  complete = false;
  error = some e;
  rest = s;
}
limited_prefix max_bytes (xs, none, s) =
    if leb (length xs) max_bytes
    then record { data_bytes = xs; overflow = []; complete = true; error = none; rest = s }
    else record {
      data_bytes = take max_bytes xs;
      overflow = drop max_bytes xs;
      complete = false;
      error = none;
      rest = s;
    }

unfoldable pub read_prefix : ℕ → ℕ → ℕ → Stream → Option Prefix
read_prefix max_bytes archive_max_bytes b t =
    if max_bytes == 0
    then (let s = source none b t in
        Option.map whole_prefix (read_all (fuel_for s) archive_max_bytes s []))
    else (let s = source (some (prefix_limit max_bytes)) b t in
        Option.map (limited_prefix max_bytes) (read_all (fuel_for s) archive_max_bytes s []))

unfoldable pub read_full_entry :
    ℕ → Bytes → Bytes → ℕ → Stream → Option (Bytes × Option GoError × Source)
read_full_entry archive_max_bytes prefix overflow b t =
    let s = source none b t in
    Option.map (λ r. (prefix ++ overflow ++ r.0, r.1, r.2))
      (read_all (fuel_for s) archive_max_bytes s [])

-- The two phases as `scanEntry` composes them for an entry that it needs in full.
abbrev pub complete_entry : ℕ → Prefix → Option (Bytes × Option GoError × Source)
complete_entry archive_max_bytes p =
    if is_none p.error && not p.complete
    then read_full_entry archive_max_bytes p.data_bytes p.overflow p.rest.bytes_read p.rest.stream
    else some (p.data_bytes, p.error, p.rest)

abbrev pub entry_of : ℕ → Option Prefix → Option (Bytes × Option GoError × Source)
entry_of archive_max_bytes none = none
entry_of archive_max_bytes (some p) = complete_entry archive_max_bytes p

unfoldable pub read_entry : ℕ → ℕ → ℕ → Stream → Option (Bytes × Option GoError × Source)
unfolding read_prefix
read_entry max_bytes archive_max_bytes b t =
    entry_of archive_max_bytes (read_prefix max_bytes archive_max_bytes b t)
