-- ===== src/Display/Run/Quiet.antt =====
-- The progress display where it is quiet: `quiet` of progress.go.
use mathlib.Core.Path.{subst}
use certfinder.Base.Lists.{All, All-append}
use certfinder.Base.{
  Bool, true, false, not, ◌||◌, ◌&&◌, Bytes, Option, none, some, List, [], ◌∷◌, ◌≡◌, refl, sym,
  GoError, if-both,
}
use certfinder.Display.{
  Progress, ProgressDisplay, Written, progress_text, result, write_after, write, cleared, redraw,
  update, set_identity_summary, write_result,
}
use certfinder.Display.Run.{
  Run, Step, Reach, updates, prints, summarizes, ticks, stops, leaves, finishes, here, next,
  stop_first, stop_second, write_summary,
}

module _ {R : Type 0} (fails : List (Written R) → Written R → Option GoError) where
  abbrev IsResult : Written R → Type 0
  IsResult (progress_text t) = ⊥
  IsResult (result x) = Unit

  -- A display that is quiet has no `refreshLoop` and has written results only.
  pub record IsQuiet (r : Run R) : Type 0 where
    pub quiet : r.display.quiet ≡ true
    pub not_refreshing : r.refreshing ≡ false
    pub only_results : All IsResult r.display.log

  abbrev Keeps : ProgressDisplay R → Type 0
  Keeps d = (d.quiet ≡ true) × All IsResult d.log

  write_after-Keeps :
      (e : Option GoError) (x : R) (d : ProgressDisplay R)
      → Keeps d
      → Keeps (write_after fails e (result x) d)
  write_after-Keeps (some e) x d h = h
  write_after-Keeps none x d h = (h.0, All-append IsResult d.log (result x ∷ []) h.1 (tt, tt))

  write-Keeps : (x : R) (d : ProgressDisplay R) → Keeps d → Keeps (write fails (result x) d)
  unfolding write
  write-Keeps x d h = write_after-Keeps d.write_err x d h

  redraw-quiet : (d : ProgressDisplay R) → d.quiet ≡ true → redraw fails d ≡ d
  unfolding redraw
  redraw-quiet d h = rw h refl

  redraw-Keeps : (d : ProgressDisplay R) → Keeps d → Keeps (redraw fails d)
  redraw-Keeps d h = subst Keeps (sym (redraw-quiet d h.0)) h

  cleared-quiet :
      (d : ProgressDisplay R) → d.quiet ≡ true → cleared fails (not d.quiet && d.terminal) d ≡ d
  unfolding cleared
  cleared-quiet d h = rw h refl

  cleared-Keeps :
      (d : ProgressDisplay R) → Keeps d → Keeps (cleared fails (not d.quiet && d.terminal) d)
  cleared-Keeps d h = subst Keeps (sym (cleared-quiet d h.0)) h

  write_result-Keeps : (x : R) (d : ProgressDisplay R) → Keeps d → Keeps (write_result fails x d)
  unfolding write_result
  write_result-Keeps x d h =
      if-both Keeps (d.stopped || not d.show_results) _ _ h
        (redraw-Keeps _ (write-Keeps x _ (cleared-Keeps d h)))

  update-Keeps : (p : Progress) (d : ProgressDisplay R) → Keeps d → Keeps (update p d)
  unfolding update
  update-Keeps p d h = if-both Keeps d.stopped _ _ h h

  write_summary-quiet :
      (c : Bool) (elapsed : Bytes) (d : ProgressDisplay R)
      → d.quiet ≡ true
      → write_summary fails c elapsed d ≡ d
  unfolding write_summary
  write_summary-quiet c elapsed d h = rw h refl

  stop_first-IsQuiet : (c : Bool) (r : Run R) → IsQuiet r → IsQuiet (stop_first fails c r)
  unfolding stop_first
  stop_first-IsQuiet c r h =
      if-both IsQuiet r.display.stopped _ _ h (record {
        quiet = h.quiet;
        not_refreshing = h.not_refreshing;
        only_results = h.only_results;
      })

  with-IsQuiet :
      (r : Run R) (d : ProgressDisplay R) → IsQuiet r → Keeps d → IsQuiet (record r { display = d })
  with-IsQuiet r d h k = record {
    quiet = k.0;
    not_refreshing = h.not_refreshing;
    only_results = k.1;
  }

  Step-IsQuiet : {r s : Run R} → Step fails r s → IsQuiet r → IsQuiet s
  Step-IsQuiet (updates r p) h =
      with-IsQuiet r _ h (update-Keeps p r.display (h.quiet, h.only_results))
  Step-IsQuiet (prints r x) h =
      with-IsQuiet r _ h (write_result-Keeps x r.display (h.quiet, h.only_results))
  Step-IsQuiet (summarizes r i) h =
      unfold set_identity_summary in with-IsQuiet r _ h (h.quiet, h.only_results)
  Step-IsQuiet (ticks r k) h = absurd (cc (k, h.not_refreshing))
  Step-IsQuiet (stops r c) h = stop_first-IsQuiet c r h
  Step-IsQuiet (leaves r _ _) h = record {
    quiet = h.quiet;
    not_refreshing = refl;
    only_results = h.only_results;
  }
  Step-IsQuiet (finishes r c elapsed _ _) h =
      let k =
        subst Keeps (sym (write_summary-quiet c elapsed r.display h.quiet))
          (h.quiet, h.only_results) in
      unfold stop_second in
      record { quiet = k.0; not_refreshing = h.not_refreshing; only_results = k.1 }

  -- A quiet display never writes to the progress output, not even its summary.
  pub Reach-IsQuiet : {r s : Run R} → IsQuiet r → Reach fails r s → IsQuiet s
  Reach-IsQuiet h here = h
  Reach-IsQuiet h (next p st) = Step-IsQuiet st (Reach-IsQuiet h p)
