-- ===== src/Display/Run/Growth.antt =====
-- The counters of the progress display of progress.go: `Update` takes the greater of what it has and
-- what it is told, in whatever order the workers tell it.
use certfinder.Base.{◌≤◌, Bool, true, ◌||◌, Option, List, ◌≡◌, refl, arith, GoError, if-both}
use certfinder.Display.{
  Progress, ProgressDisplay, Written, merge_progress, update, set_identity_summary,
}
use certfinder.Display.Run.{
  Run, Step, Reach, updates, prints, summarizes, ticks, stops, leaves, finishes, here, next,
  stop_first, stop_second,
}
use certfinder.Display.Writes.{write_result-keeps, tick-keeps, write_summary-keeps}

pub record IsBelow (a b : Progress) : Type 0 where
  pub files_discovered : a.files_discovered ≤ b.files_discovered
  pub files_scanned : a.files_scanned ≤ b.files_scanned
  pub files_capped : a.files_capped ≤ b.files_capped
  pub archive_entries_discovered : a.archive_entries_discovered ≤ b.archive_entries_discovered
  pub archive_entries_scanned : a.archive_entries_scanned ≤ b.archive_entries_scanned
  pub archive_entries_capped : a.archive_entries_capped ≤ b.archive_entries_capped
  pub certificates_found : a.certificates_found ≤ b.certificates_found
  pub pkcs12_encrypted : a.pkcs12_encrypted ≤ b.pkcs12_encrypted
  pub scan_errors : a.scan_errors ≤ b.scan_errors
  pub discovery_complete : a.discovery_complete ≡ true → b.discovery_complete ≡ true

IsBelow-refl : (a : Progress) → IsBelow a a
IsBelow-refl a = record {
  files_discovered = omega arith;
  files_scanned = omega arith;
  files_capped = omega arith;
  archive_entries_discovered = omega arith;
  archive_entries_scanned = omega arith;
  archive_entries_capped = omega arith;
  certificates_found = omega arith;
  pkcs12_encrypted = omega arith;
  scan_errors = omega arith;
  discovery_complete = λ h. h;
}

IsBelow-trans : (a b c : Progress) → IsBelow a b → IsBelow b c → IsBelow a c
IsBelow-trans a b c h k = record {
  files_discovered = omega (arith, h.files_discovered, k.files_discovered);
  files_scanned = omega (arith, h.files_scanned, k.files_scanned);
  files_capped = omega (arith, h.files_capped, k.files_capped);
  archive_entries_discovered =
      omega (arith, h.archive_entries_discovered, k.archive_entries_discovered);
  archive_entries_scanned = omega (arith, h.archive_entries_scanned, k.archive_entries_scanned);
  archive_entries_capped = omega (arith, h.archive_entries_capped, k.archive_entries_capped);
  certificates_found = omega (arith, h.certificates_found, k.certificates_found);
  pkcs12_encrypted = omega (arith, h.pkcs12_encrypted, k.pkcs12_encrypted);
  scan_errors = omega (arith, h.scan_errors, k.scan_errors);
  discovery_complete = λ x. k.discovery_complete (h.discovery_complete x);
}

or-left : (a b : Bool) → a ≡ true → a || b ≡ true
or-left a b h = rw h refl

merge_progress-IsBelow : (a b : Progress) → IsBelow a (merge_progress a b)
unfolding merge_progress
merge_progress-IsBelow a b = record {
  files_discovered = omega arith;
  files_scanned = omega arith;
  files_capped = omega arith;
  archive_entries_discovered = omega arith;
  archive_entries_scanned = omega arith;
  archive_entries_capped = omega arith;
  certificates_found = omega arith;
  pkcs12_encrypted = omega arith;
  scan_errors = omega arith;
  discovery_complete = or-left a.discovery_complete b.discovery_complete;
}

module _ {R : Type 0} (fails : List (Written R) → Written R → Option GoError) where
  update-IsBelow : (p : Progress) (d : ProgressDisplay R) → IsBelow d.progress (update p d).progress
  unfolding update
  update-IsBelow p d =
      if-both (λ (c : ProgressDisplay R). IsBelow d.progress c.progress) d.stopped _ _
        (IsBelow-refl d.progress) (merge_progress-IsBelow d.progress p)

  same-IsBelow : (a b : Progress) → b ≡ a → IsBelow a b
  same-IsBelow a b e = rw e (IsBelow-refl a)

  stop_first-progress :
      (completed : Bool) (r : Run R)
      → (stop_first fails completed r).display.progress ≡ r.display.progress
  unfolding stop_first
  stop_first-progress completed r =
      if-both (λ (c : Run R). c.display.progress ≡ r.display.progress) r.display.stopped _ _ refl
        refl

  Step-IsBelow : {r s : Run R} → Step fails r s → IsBelow r.display.progress s.display.progress
  Step-IsBelow (updates r p) = update-IsBelow p r.display
  Step-IsBelow (prints r x) =
      same-IsBelow r.display.progress _
        (write_result-keeps fails (λ d. d.progress) (λ d l e. refl) x r.display)
  Step-IsBelow (summarizes r i) = unfold set_identity_summary in IsBelow-refl r.display.progress
  Step-IsBelow (ticks r _) =
      same-IsBelow r.display.progress _
        (tick-keeps fails (λ d. d.progress) (λ d l e. refl) r.display)
  Step-IsBelow (stops r c) = same-IsBelow r.display.progress _ (stop_first-progress c r)
  Step-IsBelow (leaves r _ _) = IsBelow-refl r.display.progress
  Step-IsBelow (finishes r c elapsed _ _) =
      unfold stop_second in
      same-IsBelow r.display.progress _
        (write_summary-keeps fails (λ d. d.progress) (λ d l e. refl) c elapsed r.display)

  -- No step takes a counter of the display back, nor the end of the discovery.
  pub Reach-IsBelow :
      {r s : Run R} → Reach fails r s → IsBelow r.display.progress s.display.progress
  Reach-IsBelow {r} here = IsBelow-refl r.display.progress
  Reach-IsBelow (next p st) = IsBelow-trans _ _ _ (Reach-IsBelow p) (Step-IsBelow st)
