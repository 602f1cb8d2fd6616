-- ===== src/Archive/Zip/Counts.antt =====
-- Which ZIP archives pass `checkZIPEntryCount` of internal/scanner/archive.go.
use certfinder.Archive.Zip.{end_record_size}
use certfinder.Base.{
  ℕ, ◌+◌, ◌*◌, ◌-◌, ◌^◌, ◌<◌, ◌≤◌, ◌≡◌, ◌≢◌, [], ◌∷◌, Bytes, length, take, drop, min,
}

-- The number whose digits to the base 256 are the bytes, the first byte being the last digit that
-- is multiplied with `w`.
abbrev pub place_value : ℕ → Bytes → ℕ
place_value w [] = 0
place_value w (b ∷ bs) = w * b + place_value (256 * w) bs

-- The number in `size` bytes that begin at `at`.
abbrev pub number_at : ℕ → ℕ → Bytes → ℕ
number_at at size bytes = place_value 1 (take size (drop at bytes))

-- An end record begins at the offset, and its comment ends with the tail.
pub record IsEnd (tail : Bytes) (offset : ℕ) : Type 0 where
  signature : number_at offset 4 tail ≡ 0x06054b50
  comment : offset + 22 + number_at (offset + 20) 2 tail ≡ length tail

-- The ZIP64 locator that stands before `end_offset` refers to a record that counts `m` entries.
pub record IsZip64Count (bytes : Bytes) (end_offset m : ℕ) : Type 0 where
  in_file : end_offset ≤ length bytes
  has_locator : 20 ≤ end_offset
  locator_signature : place_value 1 (take 4 (take 20 (drop (end_offset - 20) bytes))) ≡ 0x07064b50
  directory : ℕ
  at_directory :
      directory ≡ place_value 1 (take 8 (drop 8 (take 20 (drop (end_offset - 20) bytes))))
  supported : directory < 2 ^ 63
  has_record : directory + 56 ≤ length bytes
  record_signature : place_value 1 (take 4 (take 56 (drop directory bytes))) ≡ 0x06064b50
  counted : m ≡ place_value 1 (take 8 (drop 32 (take 56 (drop directory bytes))))

-- The last end record of the tail is at `offset`, and counts no more entries than are left.
pub record Admitted (remaining : ℕ) (bytes tail : Bytes) (start size : ℕ) : Type 0 where
  offset : ℕ
  in_range : offset < size
  is_end : IsEnd tail offset
  is_last : (later : ℕ) → offset < later → later < size → ¬ IsEnd tail later
  few_entries :
      number_at (offset + 10) 2 tail ≢ 2 ^ 16 - 1 → number_at (offset + 10) 2 tail ≤ remaining
  few_zip64_entries :
      number_at (offset + 10) 2 tail ≡ 2 ^ 16 - 1
      → (m : ℕ) → IsZip64Count bytes (start + offset) m
      → m ≤ remaining

-- The reading of a count that goes through, with its numbers as the code computes them.
module _ (bytes : Bytes) (end_offset directory m : ℕ) where
  abbrev locator : Bytes
  locator = take 20 (drop (end_offset - 20) bytes)

  abbrev zip64_record : Bytes
  zip64_record = take 56 (drop directory bytes)

-- Where the tail begins that `checkZIPEntryCount` searches.
abbrev pub tail_start : Bytes → ℕ
tail_start bytes = length bytes - min (length bytes) (end_record_size + (2 ^ 16 - 1))
