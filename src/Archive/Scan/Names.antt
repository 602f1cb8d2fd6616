-- ===== src/Archive/Scan/Names.antt =====
-- The names on what an archive scan finds: the `ArchiveEntries` of internal/scanner/archive.go.
use mathlib.Core.Path.{subst}
use certfinder.Base.Text.{codes, bytes_eq_iff}
use certfinder.Archive.Format.{ArchiveFormat, format_zip, format_tar, format_gzip}
use certfinder.Archive.Scan.{ZipEntry, TarEntry, GzipFile, Readers}
use certfinder.Archive.Outcomes.{
  default_gzip_entry_name, error_outcome, merge_scan_outcomes, attach_archive_entries,
  append_archive_entry, name_certificate, name_finding,
}
use certfinder.Base.Lists.{All, All-any, All-append, All-mono, All-map}
use certfinder.Base.{
  ℕ, ◌+◌, ◌≤◌, ◌≡◌, ◌≢◌, ◌⊎◌, refl, ok, sym, ◌∙◌, List, [], ◌∷◌, ◌++◌, append_assoc, append-nil,
  Bytes, length, arith, GoError,
}
use certfinder.Scanner.Content.{Outcome, empty_outcome}

-- How the name of an entry is shown.
abbrev pub IsShown : (Bytes → Bytes) → Bytes → Bytes → Type 0
IsShown clean name n =
    (((clean name ≡ []) ⊎ (clean name ≡ codes ".")) × (n ≡ codes "(unnamed)"))
    ⊎ ((clean name ≢ []) × (clean name ≢ codes ".") × (n ≡ clean name))

append_archive_entry-IsShown :
    (clean : Bytes → Bytes) (parents : List Bytes) (name : Bytes)
    → (n : Bytes) × (append_archive_entry clean parents name ≡ parents ++ n ∷ [])
      × IsShown clean name n
unfolding append_archive_entry
append_archive_entry-IsShown clean parents name =
    (_, refl, ground (arith, bytes_eq_iff (clean name) (codes "."), bytes_eq_iff (clean name) []))

module _ (readers : Readers) (outer_path : Bytes) where
  -- An archive among `parents` has an entry of some name: a ZIP or TAR archive has those that its
  -- reader hands out, a gzip archive the one of its header, or of its file's name.
  pub data HasEntry (bytes : Bytes) : ArchiveFormat → List Bytes → Bytes → Type 0 where
    in_zip :
        (parents : List Bytes) (before after : List ZipEntry) (z : ZipEntry)
        → readers.zip bytes ≡ ok (before ++ z ∷ after)
        → HasEntry bytes format_zip parents z.name
    in_tar :
        (parents : List Bytes) (before after : List TarEntry) (t : TarEntry)
        → (readers.tar bytes).0 ≡ before ++ t ∷ after
        → HasEntry bytes format_tar parents t.name
    in_gzip :
        (parents : List Bytes) (g : GzipFile)
        → readers.gzip bytes ≡ ok g
        → g.name ≢ []
        → HasEntry bytes format_gzip parents g.name
    in_gzip_unnamed :
        (parents : List Bytes) (g : GzipFile)
        → readers.gzip bytes ≡ ok g
        → g.name ≡ []
        → HasEntry bytes format_gzip parents
            (default_gzip_entry_name readers.file_base readers.path_base outer_path parents)

  -- The names below the archive's parents: that of an entry of the archive, and then either none
  -- or those that lead on in an archive whose parents end with this entry.
  pub data Leads : Bytes → ArchiveFormat → List Bytes → List Bytes → Type 0 where
    to_entry :
        (bytes : Bytes) (format : ArchiveFormat) (parents : List Bytes) (name n : Bytes)
        → HasEntry bytes format parents name
        → IsShown readers.clean name n
        → Leads bytes format parents (n ∷ [])
    through :
        (bytes : Bytes) (format : ArchiveFormat) (parents : List Bytes) (name n nested : Bytes)
        (nested_format : ArchiveFormat) (names : List Bytes)
        → HasEntry bytes format parents name
        → IsShown readers.clean name n
        → Leads nested nested_format (parents ++ n ∷ []) names
        → Leads bytes format parents (n ∷ names)

  -- The names below an entry
  abbrev pub Inside : List Bytes → List Bytes → Type 0
  Inside entries [] = Unit
  Inside entries (n ∷ ns) =
      (nested : Bytes) × (format : ArchiveFormat) × Leads nested format entries (n ∷ ns)

  pub Inside-Leads :
      (nested : Bytes) (format : ArchiveFormat) (entries names : List Bytes)
      → Leads nested format entries names
      → Inside entries names
  Inside-Leads nested format entries [] h = tt
  Inside-Leads nested format entries (n ∷ ns) h = (nested, format, h)

  Leads-Inside :
      (bytes : Bytes) (format : ArchiveFormat) (parents : List Bytes) (name n : Bytes)
      (names : List Bytes)
      → HasEntry bytes format parents name
      → IsShown readers.clean name n
      → Inside (parents ++ n ∷ []) names
      → Leads bytes format parents (n ∷ names)
  Leads-Inside bytes format parents name n [] e i h = to_entry bytes format parents name n e i
  Leads-Inside bytes format parents name n (m ∷ ns) e i (nested, f, h) =
      through bytes format parents name n nested f (m ∷ ns) e i h

-- `names` is `parents` and then up to `hi` names that satisfy `P`.
pub record Under (P : List Bytes → Type 0) (hi : ℕ) (parents names : List Bytes) : Type 0 where
  pub below : List Bytes
  pub same : names ≡ parents ++ below
  pub leads : P below
  pub shallow : length below ≤ hi

Under-here : {P : List Bytes → Type 0} (hi : ℕ) (names : List Bytes) → P [] → Under P hi names names
Under-here hi names h = record {
  below = [];
  same = sym (append-nil names);
  leads = h;
  shallow = omega arith;
}

Under-up :
    {P Q : List Bytes → Type 0} (hi : ℕ) (parents : List Bytes) (n : Bytes) (names : List Bytes)
    → ((ns : List Bytes) → P ns → Q (n ∷ ns))
    → Under P hi (parents ++ n ∷ []) names
    → Under Q (hi + 1) parents names
Under-up hi parents n names f u = record {
  below = n ∷ u.below;
  same = u.same ∙ append_assoc parents (n ∷ []) u.below;
  leads = f u.below u.leads;
  shallow = omega (arith, u.shallow);
}

module _ {X : Type 0} where
  -- Each certificate and each finding of an outcome is named so.
  pub record Named (P : List Bytes → Type 0) (hi : ℕ) (parents : List Bytes) (o : Outcome X)
      : Type 0 where
    pub on_certificates : All (λ c. Under P hi parents c.archive_entries) o.certificates
    pub on_findings : All (λ c. Under P hi parents c.archive_entries) o.pkcs12_encrypted

  Named-map :
      {P Q : List Bytes → Type 0} (hi hi' : ℕ) (parents parents' : List Bytes) (o : Outcome X)
      → ((names : List Bytes) → Under P hi parents names → Under Q hi' parents' names)
      → Named P hi parents o
      → Named Q hi' parents' o
  Named-map hi hi' parents parents' o f h = record {
    on_certificates = All-mono o.certificates (λ c. f c.archive_entries) h.on_certificates;
    on_findings = All-mono o.pkcs12_encrypted (λ c. f c.archive_entries) h.on_findings;
  }

  pub Named-Inside :
      (readers : Readers) (outer_path nested : Bytes) (format : ArchiveFormat) (hi : ℕ)
      (entries : List Bytes) (o : Outcome X)
      → Named (Leads readers outer_path nested format entries) hi entries o
      → Named (Inside readers outer_path entries) hi entries o
  Named-Inside readers outer_path nested format hi entries o =
      Named-map hi hi entries entries o (λ names u. record {
        below = u.below;
        same = u.same;
        leads = Inside-Leads readers outer_path nested format entries u.below u.leads;
        shallow = u.shallow;
      })

  pub Named-up :
      (readers : Readers) (outer_path bytes : Bytes) (format : ArchiveFormat) (hi : ℕ)
      (parents : List Bytes) (name : Bytes) (o : Outcome X)
      → HasEntry readers outer_path bytes format parents name
      → (let entries = append_archive_entry readers.clean parents name in
          Named (Inside readers outer_path entries) hi entries o)
      → Named (Leads readers outer_path bytes format parents) (hi + 1) parents o
  Named-up readers outer_path bytes format hi parents name o e h =
      let (n, same, i) = append_archive_entry-IsShown readers.clean parents name in
      Named-map hi (hi + 1) (parents ++ n ∷ []) parents o
        (λ names.
          Under-up hi parents n names
            (λ ns. Leads-Inside readers outer_path bytes format parents name n ns e i))
        (subst (λ entries. Named (Inside readers outer_path entries) hi entries o) same h)

  pub Named-nothing :
      {P : List Bytes → Type 0} (hi : ℕ) (parents : List Bytes) → Named P hi parents empty_outcome
  Named-nothing hi parents = record { on_certificates = tt; on_findings = tt }

  pub Named-error :
      {P : List Bytes → Type 0} (hi : ℕ) (parents entries : List Bytes) (e : GoError)
      → Named P hi parents (error_outcome entries e)
  unfolding error_outcome
  Named-error hi parents [] e = record { on_certificates = tt; on_findings = tt }
  Named-error hi parents (n ∷ ns) e = record { on_certificates = tt; on_findings = tt }

  pub Named-merge :
      {P : List Bytes → Type 0} (hi : ℕ) (parents : List Bytes) (a b : Outcome X)
      → Named P hi parents a
      → Named P hi parents b
      → Named P hi parents (merge_scan_outcomes a b)
  unfolding merge_scan_outcomes
  Named-merge hi parents a b h k = record {
    on_certificates =
        All-append _ a.certificates b.certificates h.on_certificates k.on_certificates;
    on_findings = All-append _ a.pkcs12_encrypted b.pkcs12_encrypted h.on_findings k.on_findings;
  }

  pub Named-attach :
      {P : List Bytes → Type 0} (hi : ℕ) (entries : List Bytes) (o : Outcome X)
      → P []
      → Named P hi entries (attach_archive_entries entries o)
  unfolding attach_archive_entries
  Named-attach {P} hi entries o h = record {
    on_certificates =
        All-map (λ c. Under P hi entries c.archive_entries) (name_certificate entries)
          o.certificates (All-any _ o.certificates (λ c. Under-here hi entries h));
    on_findings =
        All-map (λ c. Under P hi entries c.archive_entries) (name_finding entries)
          o.pkcs12_encrypted (All-any _ o.pkcs12_encrypted (λ c. Under-here hi entries h));
  }
