-- ===== src/Scanner/Walk/Queued.antt =====
-- What both walks of internal/scanner/scanner.go queue: `visitWithoutSymlinks` at every path, and
-- `walkWithSymlinks` as a whole.
use certfinder.Base.Text.{codes, bytes_eq}
use certfinder.Base.{
  ℕ, refl, Bool, true, false, not, ◌&&◌, Option, Bytes, if◌then◌else◌, if-both, if-true, if-false,
  Bool-cases, inl, inr, Result,
}
use certfinder.Scanner.Paths.{is_excluded}
use certfinder.Scanner.Walk.{
  DirEntry, FileSystem, WalkOptions, Walker, look, report_error, queue_path,
  entry_on_root_filesystem, is_wanted,
}
use certfinder.Scanner.Walk.Sound.{
  Admitted, IsSound, look-IsSound, report_error-IsSound, queue_path-IsSound,
  entry_on_root_filesystem-IsSound, is_wanted-Admitted,
}
use certfinder.Scanner.Walk.Visit.{
  Shown, shown, unreadable, Visited, reported, queued, queue_on_root, paths, visit,
  visit_without_symlinks,
}

module _ (fs : FileSystem) (done : ℕ → Bool) (options : WalkOptions) where
  abbrev pub wanted : Bool → Bytes → Bool
  wanted = is_wanted fs done options

  -- Where a file is queued it is wanted.
  pub unwanted-or {ℓ} :
      {A : Type ℓ} (P : A → Type 0) (is_regular : Bool) (display : Bytes) (x y : A)
      → P x
      → (Admitted fs done options display → P y)
      → P (if not (wanted is_regular display) then x else y)
  unwanted-or P is_regular display x y h f = elim (Bool-cases (wanted is_regular display)) [
    | inl a ↦
        if-false P (not (wanted is_regular display)) x y (rw a refl)
          (f (is_wanted-Admitted fs done options is_regular display a))
    | inr b ↦ if-true P (not (wanted is_regular display)) x y (rw b refl) h
  ]

  module _ (rel : Bytes → Bytes → Result Bytes) (root walk_root : Bytes) where
    abbrev SoundVisit : Visited → Type 0
    SoundVisit v = IsSound fs done options v.1

    reported-IsSound :
        (entry : Option DirEntry) (x : Bool × Walker)
        → IsSound fs done options x.1
        → SoundVisit (reported fs done options rel root walk_root entry x)
    reported-IsSound entry (true, w) h = h
    reported-IsSound entry (false, w) h = h

    queued-IsSound :
        (x : Bool × Walker)
        → IsSound fs done options x.1
        → SoundVisit (queued fs done options rel root walk_root x)
    queued-IsSound (true, w) h = h
    queued-IsSound (false, w) h = h

    queue_on_root-IsSound :
        (display : Bytes) (x : Bool × Walker)
        → Admitted fs done options display
        → IsSound fs done options x.1
        → SoundVisit (queue_on_root fs done options rel root walk_root display x)
    unfolding queue_on_root
    queue_on_root-IsSound display (false, w) m h = h
    queue_on_root-IsSound display (true, w) m h =
        queued-IsSound (queue_path fs done options display w)
          (queue_path-IsSound fs done options display w m h)

    visit-IsSound :
        (display relative : Bytes) (w : Walker) (s : Shown)
        → IsSound fs done options w
        → SoundVisit (visit fs done options rel root walk_root display relative w s)
    unfolding visit
    visit-IsSound display relative w (unreadable entry e) h =
        reported-IsSound entry (report_error fs done options display e w)
          (report_error-IsSound fs done options display e w h)
    visit-IsSound display relative w (shown e) h =
        let x = entry_on_root_filesystem fs done options display e w in
        let k = entry_on_root_filesystem-IsSound fs done options display e w h in
        if-both SoundVisit
          (not (bytes_eq relative (codes "."))
            && is_excluded fs.matches fs.base relative options.exclude)
          _ _ h
          (if-both SoundVisit e.is_dir _ _
            (if-both SoundVisit (not (bytes_eq relative (codes "."))) _ _ k h)
            (unwanted-or SoundVisit e.is_regular display _ _ h
              (λ m. queue_on_root-IsSound display x m k)))

    -- Every call of `visitWithoutSymlinks` keeps it so that the queued files have one of the extensions,
    -- if there are any, and that `filesDiscovered` counts them.
    pub visit_without_symlinks-IsSound :
        (file_path : Bytes) (s : Shown) (w : Walker)
        → IsSound fs done options w
        → IsSound fs done options
            (visit_without_symlinks fs done options rel root walk_root file_path s w).1
    unfolding visit_without_symlinks
    visit_without_symlinks-IsSound file_path s w h =
        let k = look-IsSound fs done options w h in
        let p = paths fs done options rel root walk_root file_path in
        if-both SoundVisit (done w.looks) _ _ k (visit-IsSound p.0 p.1 (look fs done options w) s k)
