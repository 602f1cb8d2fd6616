-- ===== src/Display/Run/Errors.antt =====
-- The progress display behind an error of a write: the `writeErr` of progress.go.
use certfinder.Base.{
  Bool, not, ◌||◌, ◌&&◌, Option, some, List, [], ◌∷◌, Bytes, ◌≡◌, refl, ◌∙◌, ap, if-both, GoError,
  Bool-cases, inl, inr,
}
use certfinder.Display.{
  Progress, ProgressDisplay, Written, result, write, write_progress, clear_status_locked, cleared,
  draw_status_locked, redraw, update, set_identity_summary, write_result, tick,
}
use certfinder.Display.Run.{
  Run, Step, Reach, updates, prints, summarizes, ticks, stops, leaves, finishes, here, next,
  stop_first, write_summary, stop_second, summary,
}

module _ {R : Type 0} (fails : List (Written R) → Written R → Option GoError) (e : GoError) where
  module _ (d : ProgressDisplay R) (h : d.write_err ≡ some e) where
    pub write-failed : (w : Written R) → write fails w d ≡ d
    unfolding write
    write-failed w = rw h refl

    write_progress-failed : (text : Bytes) → write_progress fails text d ≡ d
    unfolding write_progress
    write_progress-failed text = write-failed _

    clear_status_locked-failed : clear_status_locked fails d ≡ d
    unfolding clear_status_locked
    clear_status_locked-failed = write_progress-failed _

    pub draw_status_locked-failed : draw_status_locked fails d ≡ d
    unfolding draw_status_locked
    draw_status_locked-failed =
        if-both (λ c. c ≡ d) d.terminal _ _
          (rw clear_status_locked-failed (write_progress-failed _)) (write_progress-failed _)

    cleared-failed : (b : Bool) → cleared fails b d ≡ d
    unfolding cleared
    cleared-failed b = if-both (λ c. c ≡ d) b _ _ clear_status_locked-failed refl

    redraw-failed : redraw fails d ≡ d
    unfolding redraw
    redraw-failed =
        if-both (λ c. c ≡ d) d.quiet _ _ refl
          (rw (write_progress-failed (10 ∷ [])) draw_status_locked-failed)

    write_result-failed : (x : R) → write_result fails x d ≡ d
    unfolding write_result
    write_result-failed x =
        if-both (λ c. c ≡ d) (d.stopped || not d.show_results) _ _ refl
          (rw (cleared-failed (not d.quiet && d.terminal), write-failed (result x)) redraw-failed)

    tick-failed : tick fails d ≡ d
    unfolding tick
    tick-failed = if-both (λ c. c ≡ d) d.stopped _ _ refl draw_status_locked-failed

    write_summary-failed :
        (completed : Bool) (elapsed : Bytes) → write_summary fails completed elapsed d ≡ d
    unfolding write_summary
    write_summary-failed completed elapsed =
        let text = summary completed elapsed d in
        if-both (λ c. c ≡ d) d.quiet _ _ refl
          (ap (write_progress fails text) (cleared-failed d.terminal) ∙ write_progress-failed text)

    update-failed : (p : Progress) → ((update p d).write_err ≡ some e) × ((update p d).log ≡ d.log)
    unfolding update
    update-failed p = elim (Bool-cases d.stopped) [
      | inl y ↦ rw y (h, refl)
      | inr z ↦ rw z (h, refl)
    ]

  -- A write has failed with the error, and these writes were made.
  abbrev pub HasFailed : List (Written R) → Run R → Type 0
  HasFailed l r = (r.display.write_err ≡ some e) × (r.display.log ≡ l)

  same-HasFailed :
      (l : List (Written R)) (r : Run R) (d : ProgressDisplay R)
      → d ≡ r.display
      → HasFailed l r
      → (d.write_err ≡ some e) × (d.log ≡ l)
  same-HasFailed l r d s h = (rw s h.0, rw s h.1)

  stop_first-HasFailed :
      (l : List (Written R)) (completed : Bool) (r : Run R)
      → HasFailed l r
      → HasFailed l (stop_first fails completed r)
  unfolding stop_first
  stop_first-HasFailed l completed r h = elim (Bool-cases r.display.stopped) [
    | inl y ↦ rw y h
    | inr z ↦ rw z h
  ]

  stop_second-HasFailed :
      (l : List (Written R)) (completed : Bool) (elapsed : Bytes) (r : Run R)
      → HasFailed l r
      → HasFailed l (stop_second fails completed elapsed r)
  unfolding stop_second
  stop_second-HasFailed l completed elapsed r h =
      same-HasFailed l r _ (write_summary-failed r.display h.0 completed elapsed) h

  Step-HasFailed :
      {r s : Run R} (l : List (Written R)) → Step fails r s → HasFailed l r → HasFailed l s
  Step-HasFailed l (updates r p) h =
      let (same, log) = update-failed r.display h.0 p in (same, log ∙ h.1)
  Step-HasFailed l (prints r x) h = same-HasFailed l r _ (write_result-failed r.display h.0 x) h
  Step-HasFailed l (summarizes r i) h = unfold set_identity_summary in h
  Step-HasFailed l (ticks r _) h = same-HasFailed l r _ (tick-failed r.display h.0) h
  Step-HasFailed l (stops r completed) h = stop_first-HasFailed l completed r h
  Step-HasFailed l (leaves r _ _) h = h
  Step-HasFailed l (finishes r completed elapsed _ _) h =
      stop_second-HasFailed l completed elapsed r h

  -- When a write has failed, no step writes anything more, not even the summary at the end, and the
  -- first error stays the one that `Err` returns.
  pub Reach-HasFailed :
      {r s : Run R} (l : List (Written R)) → HasFailed l r → Reach fails r s → HasFailed l s
  Reach-HasFailed l h here = h
  Reach-HasFailed l h (next p st) = Step-HasFailed l st (Reach-HasFailed l h p)
