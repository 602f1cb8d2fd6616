-- ===== src/Display/Writes.antt =====
-- What writing leaves as it is: of the display of progress.go it changes the log and the error only.
use certfinder.Base.{
  Bool, ◌&&◌, ◌||◌, not, Option, none, some, List, [], ◌∷◌, Bytes, ◌≡◌, refl, ◌∙◌, if-both, GoError,
}
use certfinder.Display.{
  ProgressDisplay, Written, result, write_after, write, write_progress, clear_status_locked,
  cleared, draw_status_locked, redraw, write_result, tick,
}
use certfinder.Display.Run.{summary, write_summary}

module _ {R : Type 0} (fails : List (Written R) → Written R → Option GoError) {B : Type 0}
    (f : ProgressDisplay R → B)
    (apart : (d : ProgressDisplay R) (l : List (Written R)) (e : Option GoError)
      → f (record d { log = l; write_err = e }) ≡ f d) where
  write_after-keeps :
      (e : Option GoError) (w : Written R) (d : ProgressDisplay R)
      → f (write_after fails e w d) ≡ f d
  write_after-keeps (some e) w d = refl
  write_after-keeps none w d = apart d _ _

  pub write-keeps : (w : Written R) (d : ProgressDisplay R) → f (write fails w d) ≡ f d
  unfolding write
  write-keeps w d = write_after-keeps d.write_err w d

  pub write_progress-keeps :
      (text : Bytes) (d : ProgressDisplay R) → f (write_progress fails text d) ≡ f d
  unfolding write_progress
  write_progress-keeps text d = write-keeps _ d

  clear_status_locked-keeps : (d : ProgressDisplay R) → f (clear_status_locked fails d) ≡ f d
  unfolding clear_status_locked
  clear_status_locked-keeps d = write_progress-keeps _ d

  cleared-keeps : (b : Bool) (d : ProgressDisplay R) → f (cleared fails b d) ≡ f d
  unfolding cleared
  cleared-keeps b d = if-both (λ c. f c ≡ f d) b _ _ (clear_status_locked-keeps d) refl

  pub draw_status_locked-keeps : (d : ProgressDisplay R) → f (draw_status_locked fails d) ≡ f d
  unfolding draw_status_locked
  draw_status_locked-keeps d =
      if-both (λ c. f c ≡ f d) d.terminal _ _
        (write_progress-keeps _ (clear_status_locked fails d) ∙ clear_status_locked-keeps d)
        (write_progress-keeps _ d)

  redraw-keeps : (d : ProgressDisplay R) → f (redraw fails d) ≡ f d
  unfolding redraw
  redraw-keeps d =
      if-both (λ c. f c ≡ f d) d.quiet _ _ refl
        (draw_status_locked-keeps (write_progress fails (10 ∷ []) d) ∙ write_progress-keeps _ d)

  pub write_result-keeps : (x : R) (d : ProgressDisplay R) → f (write_result fails x d) ≡ f d
  unfolding write_result
  write_result-keeps x d =
      let c = cleared fails (not d.quiet && d.terminal) d in
      if-both (λ c. f c ≡ f d) (d.stopped || not d.show_results) _ _ refl
        (redraw-keeps (write fails (result x) c)
          ∙ write-keeps (result x) c
          ∙ cleared-keeps (not d.quiet && d.terminal) d)

  pub tick-keeps : (d : ProgressDisplay R) → f (tick fails d) ≡ f d
  unfolding tick
  tick-keeps d = if-both (λ c. f c ≡ f d) d.stopped _ _ refl (draw_status_locked-keeps d)

  pub write_summary-keeps :
      (completed : Bool) (elapsed : Bytes) (d : ProgressDisplay R)
      → f (write_summary fails completed elapsed d) ≡ f d
  unfolding write_summary
  write_summary-keeps completed elapsed d =
      let text = summary completed elapsed d in
      if-both (λ c. f c ≡ f d) d.quiet _ _ refl
        (write_progress-keeps text (cleared fails d.terminal d) ∙ cleared-keeps d.terminal d)
