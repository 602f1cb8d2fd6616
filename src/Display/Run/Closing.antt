-- ===== src/Display/Run/Closing.antt =====
-- What the second critical section of `Stop` of progress.go writes.
use certfinder.Base.Text.{codes}
use certfinder.Base.{
  Bool, true, false, Option, none, some, List, [], ◌∷◌, ◌++◌, append-nil, append_assoc, Bytes, ◌≡◌,
  refl, sym, ◌∙◌, ap, GoError, if◌then◌else◌,
}
use certfinder.Display.{
  ProgressDisplay, Written, progress_text, write, write_after, write_progress, clear_status_locked,
  cleared,
}
use certfinder.Display.Run.{write_summary, summary}

-- Two tests of the same truth value
if-both-sides :
    {A B : Type 0} (P : A → B → Type 0) (b : Bool) {x y : A} {x' y' : B}
    → P x x'
    → P y y'
    → P (if b then x else y) (if b then x' else y')
if-both-sides P true h k = h
if-both-sides P false h k = k

-- What `Stop` writes of the display as it then is: nothing if the display is quiet, else the
-- summary, behind the sequence that erases the status line if the output is a terminal.
abbrev pub closing_texts : {R : Type 0} → Bool → Bytes → ProgressDisplay R → List Bytes
closing_texts completed elapsed d =
    if d.quiet
    then []
    else (if d.terminal then (13 ∷ 27 ∷ codes "[2K") ∷ [] else [])
      ++ summary completed elapsed d ∷ []

abbrev pub as_texts : {R : Type 0} → List Bytes → List (Written R)
as_texts [] = []
as_texts (t ∷ ts) = progress_text t ∷ as_texts ts

as_texts-append :
    {R : Type 0} (ts us : List Bytes) → as_texts {R = R} (ts ++ us) ≡ as_texts ts ++ as_texts us
as_texts-append [] us = refl
as_texts-append (t ∷ ts) us = ap (λ ws. progress_text t ∷ ws) (as_texts-append ts us)

-- Of the texts, those before the first write that failed stand behind `l`, and all of them if none failed.
pub record Closed {R : Type 0} (l : List (Written R)) (texts : List Bytes) (d : ProgressDisplay R)
    : Type 0 where
  pub done : List Bytes
  pub left : List Bytes
  pub parts : texts ≡ done ++ left
  pub log_ends : d.log ≡ l ++ as_texts done
  pub all_done : d.write_err ≡ none → left ≡ []

module _ {R : Type 0} (fails : List (Written R) → Written R → Option GoError) where
  write_after-Closed :
      (l : List (Written R)) (texts : List Bytes) (text : Bytes) (d : ProgressDisplay R)
      → Closed l texts d
      → (o : Option GoError) → d.write_err ≡ o
      → Closed l (texts ++ text ∷ []) (write_after fails o (progress_text text) d)
  write_after-Closed l texts text d c none k =
      let all : texts ≡ c.done =
        c.parts ∙ ap (λ ts. c.done ++ ts) (c.all_done k) ∙ append-nil c.done in
      record {
        done = texts ++ text ∷ [];
        left = [];
        parts = sym (append-nil (texts ++ text ∷ []));
        log_ends =
            ap (λ m. m ++ progress_text text ∷ [])
              (c.log_ends ∙ ap (λ ts. l ++ as_texts ts) (sym all))
            ∙ append_assoc l (as_texts texts) (progress_text text ∷ [])
            ∙ ap (λ m. l ++ m) (sym (as_texts-append texts (text ∷ [])));
        all_done = λ _. refl;
      }
  write_after-Closed l texts text d c (some x) k = record {
    done = c.done;
    left = c.left ++ text ∷ [];
    parts = ap (λ ts. ts ++ text ∷ []) c.parts ∙ append_assoc c.done c.left (text ∷ []);
    log_ends = c.log_ends;
    all_done = λ e. absurd (cc (k, e));
  }

  write_progress-Closed :
      (l : List (Written R)) (texts : List Bytes) (text : Bytes) (d : ProgressDisplay R)
      → Closed l texts d
      → Closed l (texts ++ text ∷ []) (write_progress fails text d)
  unfolding write_progress write
  write_progress-Closed l texts text d c = write_after-Closed l texts text d c d.write_err refl

  none-Closed : (d : ProgressDisplay R) → Closed d.log [] d
  none-Closed d = record {
    done = [];
    left = [];
    parts = refl;
    log_ends = sym (append-nil d.log);
    all_done = λ _. refl;
  }

  pub write_summary-Closed :
      (completed : Bool) (elapsed : Bytes) (d : ProgressDisplay R)
      → Closed d.log (closing_texts completed elapsed d) (write_summary fails completed elapsed d)
  unfolding write_summary cleared clear_status_locked
  write_summary-Closed completed elapsed d =
      if-both-sides (λ ts (e : ProgressDisplay R). Closed d.log ts e) d.quiet (none-Closed d)
        (write_progress-Closed d.log _ (summary completed elapsed d) (cleared fails d.terminal d) (
          if-both-sides (λ ts (e : ProgressDisplay R). Closed d.log ts e) d.terminal
            (write_progress-Closed d.log [] (13 ∷ 27 ∷ codes "[2K") d (none-Closed d))
            (none-Closed d)))
