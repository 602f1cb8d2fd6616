-- ===== src/Display.antt =====
-- The progress display of progress.go: its state, and what each of its methods does under its lock.
pub mod Run
pub mod Order
pub mod Start
pub mod Tests
pub mod Writes
use certfinder.Base.Format.{FormatArg, dec, str, flag, sprintf, join_strings}
use certfinder.Base.Text.{codes}
use certfinder.Base.{
  ℕ, ◌-◌, max, Bool, true, false, ◌||◌, ◌&&◌, not, Option, none, some, List, [], ◌∷◌, ◌++◌, Bytes,
  ltb, ◌==◌, if◌then◌else◌, GoError,
}
use certfinder.Groups.{CertificateIdentitySummary}

-- scanner.Progress
pub record Progress : Type 0 where
  pub files_discovered : ℕ
  pub files_scanned : ℕ
  pub files_capped : ℕ
  pub archive_entries_discovered : ℕ
  pub archive_entries_scanned : ℕ
  pub archive_entries_capped : ℕ
  pub certificates_found : ℕ
  pub pkcs12_encrypted : ℕ
  pub scan_errors : ℕ
  pub discovery_complete : Bool

-- What is written: a text to the progress output, or a result to the output of certificates.
pub data Written (R : Type 0) : Type 0 where
  progress_text : Bytes → Written R
  result : R → Written R

pub record ProgressDisplay (R : Type 0) : Type 0 where
  pub show_results : Bool
  pub quiet : Bool
  pub terminal : Bool
  pub progress : Progress
  pub identity_summary : CertificateIdentitySummary
  pub identity_summary_set : Bool
  pub stopped : Bool
  pub write_err : Option GoError
  pub log : List (Written R)

unfoldable pub merge_progress : Progress → Progress → Progress
merge_progress a b = record {
  files_discovered = max a.files_discovered b.files_discovered;
  files_scanned = max a.files_scanned b.files_scanned;
  files_capped = max a.files_capped b.files_capped;
  archive_entries_discovered = max a.archive_entries_discovered b.archive_entries_discovered;
  archive_entries_scanned = max a.archive_entries_scanned b.archive_entries_scanned;
  archive_entries_capped = max a.archive_entries_capped b.archive_entries_capped;
  certificates_found = max a.certificates_found b.certificates_found;
  pkcs12_encrypted = max a.pkcs12_encrypted b.pkcs12_encrypted;
  scan_errors = max a.scan_errors b.scan_errors;
  discovery_complete = a.discovery_complete || b.discovery_complete;
}

unfoldable pub plural : ℕ → Bytes → Bytes → Bytes
plural count singular multiple = if count == 1 then singular else multiple

unfoldable pub format_option_list : List Bytes → Bytes → Bytes
unfolding join_strings
format_option_list [] empty = empty
format_option_list (v ∷ vs) empty = join_strings (codes ",") (v ∷ vs)

unfoldable pub status : Progress → Bytes
unfolding plural sprintf
status p =
    let text =
      sprintf
        "Scanning: %d/%d files scanned; %d pending; %d/%d archive entries scanned; %d %s found; %s"
        (dec p.files_scanned
          ∷ dec p.files_discovered
          ∷ dec (p.files_discovered - p.files_scanned)
          ∷ dec p.archive_entries_scanned
          ∷ dec p.archive_entries_discovered
          ∷ dec p.certificates_found
          ∷ str (plural p.certificates_found (codes "certificate") (codes "certificates"))
          ∷ str (
              if p.discovery_complete
              then codes "discovery complete"
              else codes "discovering files...")
          ∷ []) in
    if ltb 0 p.pkcs12_encrypted
    then sprintf "%s; %d encrypted PKCS#12 %s" (
        str text
        ∷ dec p.pkcs12_encrypted
        ∷ str (plural p.pkcs12_encrypted (codes "content") (codes "contents"))
        ∷ [])
    else text

module _ {R : Type 0} where
  unfoldable pub update : Progress → ProgressDisplay R → ProgressDisplay R
  unfolding merge_progress
  update p d = if d.stopped then d else record d { progress = merge_progress d.progress p }

  unfoldable pub set_identity_summary :
      CertificateIdentitySummary → ProgressDisplay R → ProgressDisplay R
  set_identity_summary s d = record d { identity_summary = s; identity_summary_set = true }

-- `fails` is the error of a write behind those that were made before.
module _ {R : Type 0} (fails : List (Written R) → Written R → Option GoError) where
  abbrev pub write_after : Option GoError → Written R → ProgressDisplay R → ProgressDisplay R
  write_after (some e) w d = d
  write_after none w d = record d { log = d.log ++ w ∷ []; write_err = fails d.log w }

  unfoldable pub write : Written R → ProgressDisplay R → ProgressDisplay R
  write w d = write_after d.write_err w d

  unfoldable pub write_progress : Bytes → ProgressDisplay R → ProgressDisplay R
  unfolding write
  write_progress text = write (progress_text text)

  -- "\r\x1b[2K"
  abbrev pub erase_line : Bytes
  erase_line = 13 ∷ 27 ∷ codes "[2K"

  unfoldable pub clear_status_locked : ProgressDisplay R → ProgressDisplay R
  unfolding write_progress
  clear_status_locked = write_progress erase_line

  unfoldable pub draw_status_locked : ProgressDisplay R → ProgressDisplay R
  unfolding write_progress clear_status_locked status
  draw_status_locked d =
      let text = status d.progress in
      if d.terminal
      then write_progress text (clear_status_locked d)
      else write_progress (text ++ 10 ∷ []) d

  unfoldable pub redraw : ProgressDisplay R → ProgressDisplay R
  unfolding write_progress draw_status_locked
  redraw d = if d.quiet then d else draw_status_locked (write_progress (10 ∷ []) d)

  unfoldable pub cleared : Bool → ProgressDisplay R → ProgressDisplay R
  unfolding clear_status_locked
  cleared b d = if b then clear_status_locked d else d

  unfoldable pub write_result : R → ProgressDisplay R → ProgressDisplay R
  unfolding write write_progress clear_status_locked draw_status_locked
  write_result r d =
      if d.stopped || not d.show_results
      then d
      else redraw (write (result r) (cleared (not d.quiet && d.terminal) d))

  -- A tick of `refreshLoop`
  unfoldable pub tick : ProgressDisplay R → ProgressDisplay R
  unfolding draw_status_locked
  tick d = if d.stopped then d else draw_status_locked d
