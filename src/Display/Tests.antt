-- ===== src/Display/Tests.antt =====
-- A display that has just started, and a run of it in which a write fails.
use mathlib.Core.List.{Permᴰ}
use certfinder.Base.Text.{codes}
use certfinder.Base.{
  ℕ, Bool, true, false, not, Option, none, some, List, [], ◌∷◌, ◌≡◌, refl, inl, GoError, foreign,
}
use certfinder.Display.{
  Progress, ProgressDisplay, Written, status, update, cleared, redraw, write_result,
}
use certfinder.Display.Order.{update_all, update_all-perm}
use certfinder.Display.Run.{Run, running, waiting, prints, stops, updates, here, next, stop_first}
use certfinder.Display.Run.Ends.{IsStopping, Reach-IsStopping}
use certfinder.Display.Run.Errors.{HasFailed, Reach-HasFailed}
use certfinder.Display.Run.Growth.{IsBelow, Reach-IsBelow}
use certfinder.Display.Run.Quiet.{IsQuiet, Reach-IsQuiet}

-- The second write fails.
abbrev fails : List (Written ℕ) → Written ℕ → Option GoError
fails [] w = none
fails (v ∷ vs) w = some (foreign [])

abbrev no_progress : Progress
no_progress = record {
  files_discovered = 0;
  files_scanned = 0;
  files_capped = 0;
  archive_entries_discovered = 0;
  archive_entries_scanned = 0;
  archive_entries_capped = 0;
  certificates_found = 0;
  pkcs12_encrypted = 0;
  scan_errors = 0;
  discovery_complete = false;
}

abbrev two_found : Progress
two_found = record no_progress { files_discovered = 12; files_scanned = 3; certificates_found = 2 }

abbrev one_encrypted : Progress
one_encrypted = record no_progress {
  files_scanned = 4;
  pkcs12_encrypted = 1;
  discovery_complete = true;
}

abbrev started : Bool → ProgressDisplay ℕ
started quiet = record {
  show_results = true;
  quiet = quiet;
  terminal = false;
  progress = no_progress;
  identity_summary = record { matched = 0; unique = 0; duplicate_occurrences = 0 };
  identity_summary_set = false;
  stopped = false;
  write_err = none;
  log = [];
}

abbrev run_of : Bool → Run ℕ
run_of quiet = record {
  display = started quiet;
  refreshing = not quiet;
  done_closed = false;
  phase = running;
}

two_found-status :
    status two_found
    ≡ codes
        "Scanning: 3/12 files scanned; 9 pending; 0/0 archive entries scanned; 2 certificates found; discovering files..."
unfolding status
two_found-status = refl

abbrev failed : Run ℕ
failed = record (run_of false) { display = write_result fails 7 (started false) }

failed-HasFailed : HasFailed fails (foreign []) failed.display.log failed
unfolding write_result redraw cleared
failed-HasFailed = (refl, refl)

Reach-HasFailed_example :
    HasFailed fails (foreign []) failed.display.log (stop_first fails true failed)
Reach-HasFailed_example =
    Reach-HasFailed fails (foreign []) failed.display.log failed-HasFailed
      (next here (stops failed true))

abbrev stopping : Run ℕ
stopping = record {
  display = record (started false) { stopped = true };
  refreshing = true;
  done_closed = true;
  phase = waiting true;
}

Reach-IsStopping_example :
    IsStopping fails true stopping.display
      (record stopping { display = write_result fails 7 stopping.display })
Reach-IsStopping_example =
    Reach-IsStopping fails true stopping.display
      (
        refl,
        inl (
          refl,
          record {
            identity = record { matched = 0; unique = 0; duplicate_occurrences = 0 };
            is_set = false;
            same = refl;
          },
        ),
      )
      (next here (prints stopping 7))

Reach-IsQuiet_example :
    IsQuiet fails (record (run_of true) { display = write_result fails 7 (started true) })
Reach-IsQuiet_example =
    Reach-IsQuiet fails (record { quiet = refl; not_refreshing = refl; only_results = tt })
      (next here (prints (run_of true) 7))

Reach-IsBelow_example : IsBelow no_progress (update two_found (started false)).progress
Reach-IsBelow_example = Reach-IsBelow fails (next here (updates (run_of false) two_found))

update_all-perm_example :
    update_all (two_found ∷ one_encrypted ∷ []) (started false)
    ≡ update_all (one_encrypted ∷ two_found ∷ []) (started false)
update_all-perm_example = update_all-perm (started false) (Permᴰ.swap refl refl)
