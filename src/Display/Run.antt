-- ===== src/Display/Run.antt =====
-- The progress display while it runs: `Stop` of progress.go, which has two critical sections with
-- a wait for `refreshLoop` between them, and the steps in which the methods interleave.
pub mod Ends
pub mod Closing
pub mod Errors
pub mod Quiet
pub mod Growth
use certfinder.Base.Format.{FormatArg, dec, str, sprintf}
use certfinder.Base.Text.{codes}
use certfinder.Base.{
  ℕ, Bool, true, false, not, Option, none, some, List, [], ◌∷◌, Bytes, ltb, ◌≡◌, if◌then◌else◌,
  GoError,
}
use certfinder.Display.{
  Progress, ProgressDisplay, Written, plural, write_progress, cleared, update, set_identity_summary,
  write_result, tick,
}
use certfinder.Groups.{CertificateIdentitySummary}

-- How far the call of `Stop` is that stops the display; it knows whether the scan was completed.
pub data Phase : Type 0 where
  running : Phase
  waiting : Bool → Phase
  ended : Phase

-- The display, the goroutine `refreshLoop`, the channel `done` and `Stop`
pub record Run (R : Type 0) : Type 0 where
  pub display : ProgressDisplay R
  pub refreshing : Bool
  pub done_closed : Bool
  pub phase : Phase

unfoldable pub identity_text : Bool → CertificateIdentitySummary → Bytes
unfolding sprintf plural
identity_text false i = []
identity_text true i = sprintf " %d %s matched; %d unique %s; %d duplicate %s;" (
    dec i.matched
    ∷ str (plural i.matched (codes "certificate") (codes "certificates"))
    ∷ dec i.unique
    ∷ str (plural i.unique (codes "certificate") (codes "certificates"))
    ∷ dec i.duplicate_occurrences
    ∷ str (plural i.duplicate_occurrences (codes "occurrence") (codes "occurrences"))
    ∷ [])

unfoldable pub pkcs12_text : ℕ → Bytes
unfolding sprintf plural
pkcs12_text n =
    if ltb 0 n
    then sprintf " %d encrypted PKCS#12 %s;"
        (dec n ∷ str (plural n (codes "content") (codes "contents")) ∷ [])
    else []

unfoldable pub summary : {R : Type 0} → Bool → Bytes → ProgressDisplay R → Bytes
unfolding sprintf plural identity_text pkcs12_text
summary completed elapsed d =
    let p = d.progress in
    sprintf
      "%s: %d %s scanned, %d stopped at max-bytes; %d archive %s scanned, %d stopped at max-bytes; %d %s found;%s%s %d %s; elapsed %s\n"
      (str (if completed then codes "Scan complete" else codes "Scan stopped")
        ∷ dec p.files_scanned
        ∷ str (plural p.files_scanned (codes "file") (codes "files"))
        ∷ dec p.files_capped
        ∷ dec p.archive_entries_scanned
        ∷ str (plural p.archive_entries_scanned (codes "entry") (codes "entries"))
        ∷ dec p.archive_entries_capped
        ∷ dec p.certificates_found
        ∷ str (plural p.certificates_found (codes "certificate") (codes "certificates"))
        ∷ str (identity_text d.identity_summary_set d.identity_summary)
        ∷ str (pkcs12_text p.pkcs12_encrypted)
        ∷ dec p.scan_errors
        ∷ str (plural p.scan_errors (codes "error") (codes "errors"))
        ∷ str elapsed
        ∷ [])

module _ {R : Type 0} (fails : List (Written R) → Written R → Option GoError) where
  -- The first critical section of `Stop`; a later call finds `stopped` and returns.
  unfoldable pub stop_first : Bool → Run R → Run R
  stop_first completed r = if r.display.stopped then r else record r {
    display = record r.display { stopped = true };
    done_closed = true;
    phase = waiting completed;
  }

  -- The second one, behind the wait
  unfoldable pub write_summary : Bool → Bytes → ProgressDisplay R → ProgressDisplay R
  unfolding cleared write_progress summary
  write_summary completed elapsed d =
      let text = summary completed elapsed d in
      if d.quiet then d else write_progress fails text (cleared fails d.terminal d)

  unfoldable pub stop_second : Bool → Bytes → Run R → Run R
  unfolding write_summary
  stop_second completed elapsed r = record r {
    display = write_summary completed elapsed r.display;
    phase = ended;
  }

  abbrev pub with_display : Run R → ProgressDisplay R → Run R
  with_display r d = record r { display = d }

  -- A critical section of any of the goroutines, and what `refreshLoop` and `Stop` do between theirs
  pub data Step : Run R → Run R → Type 0 where
    updates : (r : Run R) (p : Progress) → Step r (with_display r (update p r.display))
    prints : (r : Run R) (x : R) → Step r (with_display r (write_result fails x r.display))
    summarizes :
        (r : Run R) (s : CertificateIdentitySummary)
        → Step r (with_display r (set_identity_summary s r.display))
    ticks : (r : Run R) → r.refreshing ≡ true → Step r (with_display r (tick fails r.display))
    stops : (r : Run R) (completed : Bool) → Step r (stop_first completed r)
    leaves :
        (r : Run R)
        → r.refreshing ≡ true
        → r.done_closed ≡ true
        → Step r (record r { refreshing = false })
    finishes :
        (r : Run R) (completed : Bool) (elapsed : Bytes)
        → r.phase ≡ waiting completed
        → r.refreshing ≡ false
        → Step r (stop_second completed elapsed r)

  pub data Reach (r : Run R) : Run R → Type 0 where
    here : Reach r r
    next : {s t : Run R} → Reach r s → Step s t → Reach r t
