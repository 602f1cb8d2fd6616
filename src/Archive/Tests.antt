-- ===== src/Archive/Tests.antt =====
-- An entry of four bytes in two pieces, of which the budget has three.
use certfinder.Archive.Budget.{Stream}
use certfinder.Archive.Budget.Ends.{PrefixEnded, read_prefix-Ended}
use certfinder.Archive.Budget.Drain.{plain}
use certfinder.Archive.Budget.Rounds.{flat}
use certfinder.Archive.Budget.Entry.{read_entry, read_prefix}
use certfinder.Archive.Budget.Whole.{Read, read_entry-Read}
use certfinder.Base.{Bytes, ◌-◌, none, [], ◌∷◌, length, arith}

abbrev in_two_pieces : Stream
in_two_pieces = record { pieces = (1 ∷ 2 ∷ 3 ∷ []) ∷ (4 ∷ []) ∷ []; failure = none }

read_entry-Read_example :
    (let d = plain 3 (3 - 0) none (flat in_two_pieces.pieces) in
      Read 3 0 d (length d.0) (read_entry 2 3 0 in_two_pieces))
read_entry-Read_example = read_entry-Read 3 2 0 in_two_pieces (omega arith)

read_prefix-Ended_example : PrefixEnded 3 1 (read_prefix 2 3 1 in_two_pieces)
read_prefix-Ended_example = read_prefix-Ended 3 2 1 in_two_pieces (omega arith)

-- An empty ZIP archive: its end record counts no entry.
abbrev empty_zip : Bytes
empty_zip =
    0x50 ∷ 0x4b ∷ 5 ∷ 6 ∷ 0 ∷ 0 ∷ 0 ∷ 0 ∷ 0 ∷ 0 ∷ 0 ∷ 0 ∷ 0 ∷ 0 ∷ 0 ∷ 0 ∷ 0 ∷ 0 ∷ 0 ∷ 0 ∷ 0 ∷ 0 ∷ []
