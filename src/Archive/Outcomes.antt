-- ===== src/Archive/Outcomes.antt =====
-- The outcomes and counters of an archive scan: the small operations of internal/scanner/archive.go.
use certfinder.Base.Text.{codes, bytes_eq, to_lower}
use certfinder.Base.{
  ℕ, ◌+◌, Bool, false, ◌||◌, Option, none, some, List, [], ◌∷◌, ◌++◌, map, Bytes, ltb,
  if◌then◌else◌, GoError, errorf, wrap, num, text, join_two,
}
use certfinder.Model.{Certificate, Pkcs12EncryptedContent}
use certfinder.Scanner.Content.{Outcome, scan_outcome}

-- The counter of the scanner, with what it has reported to its `progress` callback.
pub record Entries : Type 0 where
  pub entries : ℕ
  pub discovered : ℕ
  pub scanned : ℕ
  pub capped : ℕ

unfoldable pub begin_entry : ℕ → Entries → Entries × Option GoError
begin_entry archive_max_entries s =
    let s' = record s { entries = s.entries + 1; discovered = s.discovered + 1 } in
    (
      s',
      if ltb archive_max_entries s'.entries
          then some (errorf "archive entry count exceeds %d" (num archive_max_entries ∷ []))
          else none,
    )

unfoldable pub finish_entry : Bool → Entries → Entries
finish_entry capped s = record s {
  scanned = s.scanned + 1;
  capped = if capped then s.capped + 1 else s.capped;
}

-- `strings.Join(entries, ":")`
unfoldable pub join_entries : List Bytes → Bytes
join_entries [] = []
join_entries (e ∷ []) = e
join_entries (e ∷ f ∷ es) = e ++ b':' ∷ join_entries (f ∷ es)

abbrev pub name_finding : List Bytes → Pkcs12EncryptedContent → Pkcs12EncryptedContent
name_finding entries c = record c { archive_entries = entries }

module _ {X : Type 0} where
  unfoldable pub error_outcome : List Bytes → GoError → Outcome X
  unfolding join_entries
  error_outcome [] e = scan_outcome [] [] false (some e)
  error_outcome (n ∷ ns) e =
      scan_outcome [] [] false
        (some (wrap "archive entry %q: %w" (text (join_entries (n ∷ ns)) ∷ []) e))

  unfoldable pub merge_scan_outcomes : Outcome X → Outcome X → Outcome X
  merge_scan_outcomes target source = record target {
    certificates = target.certificates ++ source.certificates;
    pkcs12_encrypted = target.pkcs12_encrypted ++ source.pkcs12_encrypted;
    error = join_two target.error source.error;
  }

  abbrev pub name_certificate : List Bytes → Certificate X → Certificate X
  name_certificate entries c = record c { archive_entries = entries }

  unfoldable pub attach_archive_entries : List Bytes → Outcome X → Outcome X
  attach_archive_entries entries result = record result {
    certificates = map (name_certificate entries) result.certificates;
    pkcs12_encrypted = map (name_finding entries) result.pkcs12_encrypted;
  }

-- `clean` is path.Clean of filepath.ToSlash.
unfoldable pub append_archive_entry : (Bytes → Bytes) → List Bytes → Bytes → List Bytes
unfolding bytes_eq
append_archive_entry clean parents name =
    let n = clean name in
    parents ++ (if bytes_eq n (codes ".") || bytes_eq n [] then codes "(unnamed)" else n) ∷ []

abbrev pub last_or : Bytes → List Bytes → Bytes
last_or d [] = d
last_or d (x ∷ []) = x
last_or d (x ∷ y ∷ ys) = last_or d (y ∷ ys)

abbrev pub base_name : (Bytes → Bytes) → (Bytes → Bytes) → Bytes → List Bytes → Bytes
base_name file_base path_base outer_path [] = file_base outer_path
base_name file_base path_base outer_path (p ∷ ps) = path_base (last_or p ps)

-- The name without a `.gz` at its end, in either case
unfoldable pub without_gz : Bytes → Bytes
unfolding bytes_eq to_lower
without_gz [] = []
without_gz (c ∷ s) =
    let rest = without_gz s in if bytes_eq (to_lower (c ∷ s)) (codes ".gz") then [] else c ∷ rest

abbrev pub or_content : Bytes → Bytes
unfolding bytes_eq
or_content name = if bytes_eq name [] || bytes_eq name (codes ".") then codes "content" else name

-- `file_base` and `path_base` are filepath.Base and path.Base.
unfoldable pub default_gzip_entry_name :
    (Bytes → Bytes) → (Bytes → Bytes) → Bytes → List Bytes → Bytes
unfolding without_gz bytes_eq
default_gzip_entry_name file_base path_base outer_path parents =
    or_content (without_gz (base_name file_base path_base outer_path parents))
