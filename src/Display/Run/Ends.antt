-- ===== src/Display/Run/Ends.antt =====
-- The end of the progress display: `Stop` of progress.go among the steps of the other goroutines.
use mathlib.Core.Path.{subst}
use certfinder.Base.{
  Bool, true, Option, List, Bytes, ◌≡◌, refl, sym, ◌∙◌, ap, ◌⊎◌, GoError, inl, inr,
}
use certfinder.Display.{
  Progress, ProgressDisplay, Written, update, set_identity_summary, write_result, tick,
}
use certfinder.Display.Writes.{write_summary-keeps}
use certfinder.Display.Run.Closing.{Closed, closing_texts, write_summary-Closed}
use certfinder.Display.Run.{
  Run, waiting, ended, Step, Reach, updates, prints, summarizes, ticks, stops, leaves, finishes,
  here, next, stop_first, write_summary, stop_second,
}
use certfinder.Groups.{CertificateIdentitySummary}

-- The display that `Stop` left behind, but for the identity summary, which may still be set.
pub record IsSame {R : Type 0} (d e : ProgressDisplay R) : Type 0 where
  pub identity : CertificateIdentitySummary
  pub is_set : Bool
  pub same : e ≡ record d { identity_summary = identity; identity_summary_set = is_set }

-- `Stop` has written the summary of the display as it was when it stopped.
pub record Ended {R : Type 0} (completed : Bool) (d : ProgressDisplay R) (e : ProgressDisplay R)
    : Type 0 where
  pub last : ProgressDisplay R
  pub is_last : IsSame d last
  pub elapsed : Bytes
  pub closed : Closed d.log (closing_texts completed elapsed last) e

module _ {R : Type 0} (fails : List (Written R) → Written R → Option GoError) where
  -- `Stop` waits and the display is as it was, or `Stop` has written the summary of that display.
  abbrev pub IsStopping : Bool → ProgressDisplay R → Run R → Type 0
  IsStopping completed d r =
      (r.display.stopped ≡ true)
      × (((r.phase ≡ waiting completed) × IsSame d r.display)
          ⊎ ((r.phase ≡ ended) × Ended completed d r.display))

  -- A critical section that finds `stopped` and does nothing
  module _ (d : ProgressDisplay R) (h : d.stopped ≡ true) where
    update-stopped : (p : Progress) → update p d ≡ d
    unfolding update
    update-stopped p = rw h refl

    write_result-stopped : (x : R) → write_result fails x d ≡ d
    unfolding write_result
    write_result-stopped x = rw h refl

    tick-stopped : tick fails d ≡ d
    unfolding tick
    tick-stopped = rw h refl

  same-IsStopping :
      (completed : Bool) (d : ProgressDisplay R) (r : Run R) (e : ProgressDisplay R)
      → e ≡ r.display
      → IsStopping completed d r
      → IsStopping completed d (record r { display = e })
  same-IsStopping completed d r e p h = rw p h

  set-IsStopping :
      (completed : Bool) (d : ProgressDisplay R) (r : Run R) (i : CertificateIdentitySummary)
      → IsStopping completed d r
      → IsStopping completed d (record r { display = set_identity_summary i r.display })
  unfolding set_identity_summary
  set-IsStopping completed d r i (h, inl (p, e)) = (
    h,
    inl (
      p,
      record {
        identity = i;
        is_set = true;
        same =
            ap
              (λ (c : ProgressDisplay R). record c {
                identity_summary = i;
                identity_summary_set = true;
              })
              e.same;
      },
    ),
  )
  set-IsStopping completed d r i (h, inr (p, e)) = (
    h,
    inr (
      p,
      record {
        last = e.last;
        is_last = e.is_last;
        elapsed = e.elapsed;
        closed = record {
          done = e.closed.done;
          left = e.closed.left;
          parts = e.closed.parts;
          log_ends = e.closed.log_ends;
          all_done = e.closed.all_done;
        };
      },
    ),
  )

  same_log : (d e : ProgressDisplay R) → IsSame d e → e.log ≡ d.log
  same_log d e s = ap (λ (c : ProgressDisplay R). c.log) s.same

  stop_first-stopped :
      (completed : Bool) (r : Run R) → r.display.stopped ≡ true → stop_first fails completed r ≡ r
  unfolding stop_first
  stop_first-stopped completed r h = rw h refl

  Step-IsStopping :
      {r s : Run R} (completed : Bool) (d : ProgressDisplay R)
      → Step fails r s
      → IsStopping completed d r
      → IsStopping completed d s
  Step-IsStopping completed d (updates r p) h =
      same-IsStopping completed d r _ (update-stopped r.display h.0 p) h
  Step-IsStopping completed d (prints r x) h =
      same-IsStopping completed d r _ (write_result-stopped r.display h.0 x) h
  Step-IsStopping completed d (summarizes r i) h = set-IsStopping completed d r i h
  Step-IsStopping completed d (ticks r _) h =
      same-IsStopping completed d r _ (tick-stopped r.display h.0) h
  Step-IsStopping completed d (stops r c) h = rw (stop_first-stopped c r h.0) h
  Step-IsStopping completed d (leaves r _ _) h = h
  Step-IsStopping completed d (finishes r c elapsed w _) (h, inl (p, e)) =
      unfold stop_second in
      (
        write_summary-keeps fails (λ d. d.stopped) (λ d k x. refl) c elapsed r.display ∙ h,
        inr (
          refl,
          record {
            last = r.display;
            is_last = e;
            elapsed = elapsed;
            closed =
                let same : completed ≡ c = cc (p, w) in
                subst
                  (λ l.
                    Closed l (closing_texts completed elapsed r.display)
                      (write_summary fails c elapsed r.display))
                  (same_log d r.display e)
                  (subst
                    (λ b.
                      Closed r.display.log (closing_texts b elapsed r.display)
                        (write_summary fails c elapsed r.display))
                    (sym same) (write_summary-Closed fails c elapsed r.display));
          },
        ),
      )
  Step-IsStopping completed d (finishes r c elapsed w _) (h, inr (p, m)) = absurd (cc (p, w))

  -- Behind the first critical section of `Stop`, whatever the other goroutines still do: nothing is
  -- written and the display stays as it was, but for its identity summary, until `Stop` ends; then
  -- the log has, behind what was there, the summary of that display with the erasing of the status
  -- line of a terminal before it, or nothing if it is quiet, up to the first write that fails, and
  -- it has no more after any further steps.
  pub Reach-IsStopping :
      {r s : Run R} (completed : Bool) (d : ProgressDisplay R)
      → IsStopping completed d r
      → Reach fails r s
      → IsStopping completed d s
  Reach-IsStopping completed d h here = h
  Reach-IsStopping completed d h (next p st) =
      Step-IsStopping completed d st (Reach-IsStopping completed d h p)
