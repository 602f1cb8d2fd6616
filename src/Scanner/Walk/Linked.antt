-- ===== src/Scanner/Walk/Linked.antt =====
-- What the walk that follows symbolic links queues: `walkWithSymlinks` of internal/scanner/scanner.go.
use certfinder.Base.{
  ℕ, zero, suc, ◌+◌, length, ◌≡◌, Bool, true, false, none, some, List, [], ◌∷◌, Bytes, if-both,
  Bool-cases, inl, inr, Result, ok, err, ◌>>=◌,
}
use certfinder.Options.Strings.{contains}
use certfinder.Scanner.Paths.{is_excluded}
use certfinder.Scanner.Walk.{
  FileInfo, DirEntry, FileSystem, WalkOptions, Walker, Walked, Walks, look, mark_visited,
  entry_on_root_filesystem, queue_if, mark_and_walk, linked_directory, linked, stated,
  visit_symlink, sub_directory, walk_entry, and_then, unless_done, walk_entries, directory,
  walk_directory, from_root, walk_with_symlinks,
}
use certfinder.Scanner.Walk.Sound.{
  Admitted, IsSound, look-IsSound, report_error-IsSound, queue_path-IsSound,
  info_on_root_filesystem-IsSound, entry_on_root_filesystem-IsSound,
}
use certfinder.Scanner.Walk.Ends.{Ended}
use certfinder.Scanner.Walk.Visits.{HasDirectories}
use certfinder.Scanner.Walk.Whole.{walk_with_symlinks-Ended}
use certfinder.Scanner.Walk.Queued.{unwanted-or}

module _ (fs : FileSystem) (done : ℕ → Bool) (options : WalkOptions) where
  abbrev pub Sound : Walked → Type 0
  Sound none = Unit
  Sound (some (b, w)) = IsSound fs done options w

  abbrev Keeps : Walks fs done options → Type 0
  Keeps walk =
      (physical display relative : Bytes) (w : Walker)
      → IsSound fs done options w
      → Sound (walk physical display relative w)

  and_then-Sound :
      (m : Walked) (k : Walker → Walked)
      → Sound m
      → ((w : Walker) → IsSound fs done options w → Sound (k w))
      → Sound (and_then fs done options m k)
  and_then-Sound none k h f = tt
  and_then-Sound (some (false, w)) k h f = h
  and_then-Sound (some (true, w)) k h f = f w h

  unless_done-Sound :
      (w : Walker) (m : Walked)
      → IsSound fs done options w
      → Sound m
      → Sound (unless_done fs done options w m)
  unless_done-Sound w m h k = if-both Sound (done w.looks) _ _ (look-IsSound fs done options w h) k

  module _ (walk : Walks fs done options) (keeps : Keeps walk) where
    mark_and_walk-Sound :
        (physical display relative : Bytes) (w : Walker)
        → IsSound fs done options w
        → Sound (mark_and_walk fs done options walk physical display relative w)
    unfolding mark_and_walk mark_visited
    mark_and_walk-Sound physical display relative w h =
        elim (Bool-cases (contains w.visited physical)) [
          | inl y ↦ rw y h
          | inr z ↦ rw z (
              keeps physical display relative (record w { visited = physical ∷ w.visited })
                (record { admitted = h.admitted; counted = h.counted }))
        ]

    linked_directory-Sound :
        (display relative : Bytes) (w : Walker) (r : Result Bytes)
        → IsSound fs done options w
        → Sound (linked_directory fs done options walk display relative w r)
    unfolding linked_directory
    linked_directory-Sound display relative w (err e) h =
        report_error-IsSound fs done options display e w h
    linked_directory-Sound display relative w (ok q) h =
        mark_and_walk-Sound (fs.clean q) display relative w h

    linked-Sound :
        (physical display relative : Bytes) (info : FileInfo) (x : Bool × Walker)
        → IsSound fs done options x.1
        → Sound (linked fs done options walk physical display relative info x)
    unfolding linked
    linked-Sound physical display relative info (false, w) h = h
    linked-Sound physical display relative info (true, w) h =
        if-both Sound info.is_dir _ _
          (linked_directory-Sound display relative w (fs.eval_symlinks physical >>= fs.abs) h)
          (unwanted-or fs done options Sound info.is_regular display _ _ h
            (λ m. queue_path-IsSound fs done options display w m h))

    stated-Sound :
        (physical display relative : Bytes) (w : Walker) (r : Result FileInfo)
        → IsSound fs done options w
        → Sound (stated fs done options walk physical display relative w r)
    stated-Sound physical display relative w (err e) h =
        report_error-IsSound fs done options display e w h
    stated-Sound physical display relative w (ok info) h =
        linked-Sound physical display relative info _
          (info_on_root_filesystem-IsSound fs done options display info w h)

    visit_symlink-Sound :
        (physical display relative : Bytes) (w : Walker)
        → IsSound fs done options w
        → Sound (visit_symlink fs done options walk physical display relative w)
    unfolding visit_symlink
    visit_symlink-Sound physical display relative w h =
        stated-Sound physical display relative w (fs.stat physical) h

    sub_directory-Sound :
        (physical display relative : Bytes) (x : Bool × Walker)
        → IsSound fs done options x.1
        → Sound (sub_directory fs done options walk physical display relative x)
    unfolding sub_directory
    sub_directory-Sound physical display relative (true, w) h =
        mark_and_walk-Sound (fs.clean physical) display relative w h
    sub_directory-Sound physical display relative (false, w) h = h

    queue_if-Sound :
        (display : Bytes) (x : Bool × Walker)
        → Admitted fs done options display
        → IsSound fs done options x.1
        → Sound (queue_if fs done options display x)
    unfolding queue_if
    queue_if-Sound display (true, w) m h = queue_path-IsSound fs done options display w m h
    queue_if-Sound display (false, w) m h = h

    walk_entry-Sound :
        (physical display relative : Bytes) (e : DirEntry) (w : Walker)
        → IsSound fs done options w
        → Sound (walk_entry fs done options walk physical display relative e w)
    unfolding walk_entry
    walk_entry-Sound physical display relative e w h =
        let x = entry_on_root_filesystem fs done options display e w in
        let k = entry_on_root_filesystem-IsSound fs done options display e w h in
        if-both Sound (is_excluded fs.matches fs.base relative options.exclude) _ _ h (
          if-both Sound e.is_symlink _ _ (visit_symlink-Sound physical display relative w h) (
            if-both Sound e.is_dir _ _ (sub_directory-Sound physical display relative x k) (
              unwanted-or fs done options Sound e.is_regular display _ _ h
                (λ m. queue_if-Sound display x m k))))

    walk_entries-Sound :
        (physical display relative : Bytes) (es : List DirEntry) (w : Walker)
        → IsSound fs done options w
        → Sound (walk_entries fs done options walk physical display relative es w)
    unfolding walk_entries
    walk_entries-Sound physical display relative [] w h = h
    walk_entries-Sound physical display relative (e ∷ es) w h =
        let v = look fs done options w in
        let p = fs.join_file physical e.name in
        let d = fs.join_file display e.name in
        let r = fs.join_path relative e.name in
        unless_done-Sound w _ h (
          and_then-Sound (walk_entry fs done options walk p d r e v) _
            (walk_entry-Sound p d r e v (look-IsSound fs done options w h))
            (walk_entries-Sound physical display relative es))

    directory-Sound :
        (physical display relative : Bytes) (w : Walker) (r : Result (List DirEntry))
        → IsSound fs done options w
        → Sound (directory fs done options walk physical display relative w r)
    unfolding directory
    directory-Sound physical display relative w (err e) h =
        report_error-IsSound fs done options display e w h
    directory-Sound physical display relative w (ok es) h =
        walk_entries-Sound physical display relative es w h

  walk_directory-Keeps : (fuel : ℕ) → Keeps (walk_directory fs done options fuel)
  unfolding walk_directory
  walk_directory-Keeps zero physical display relative w h = tt
  walk_directory-Keeps (suc fuel) physical display relative w h = unless_done-Sound w _ h (
      directory-Sound (walk_directory fs done options fuel) (walk_directory-Keeps fuel) physical
        display relative (look fs done options w) (fs.read_dir physical)
        (look-IsSound fs done options w h))

  from_root-Sound :
      (fuel : ℕ) (root : Bytes) (w : Walker) (r : Result Bytes)
      → IsSound fs done options w
      → Sound (from_root fs done options fuel root w r)
  unfolding from_root
  from_root-Sound fuel root w (err e) h = report_error-IsSound fs done options root e w h
  from_root-Sound fuel root w (ok q) h =
      walk_directory-Keeps fuel (fs.clean q) root [] (record w { visited = fs.clean q ∷ [] })
        (record { admitted = h.admitted; counted = h.counted })

  walk_with_symlinks-Sound :
      (fuel : ℕ) (root walk_root : Bytes) (w : Walker)
      → IsSound fs done options w
      → Sound (walk_with_symlinks fs done options fuel root walk_root w)
  unfolding walk_with_symlinks
  walk_with_symlinks-Sound fuel root walk_root w h =
      from_root-Sound fuel root w (fs.abs walk_root >>= fs.eval_symlinks) h

  -- The walk has come to its end, in a sound state.
  abbrev pub EndsSound : Walked → Type 0
  EndsSound none = ⊥
  EndsSound (some (b, w)) = IsSound fs done options w

  module _ (dirs : List Bytes) (walk_root : Bytes)
      (has : HasDirectories fs done options dirs walk_root) where
    both-EndsSound :
        (u : ℕ) (m : Walked) → Ended fs done options dirs walk_root has u m → Sound m → EndsSound m
    both-EndsSound u none e h = elim e [ ]
    both-EndsSound u (some (b, w)) e h = h

    -- On a filesystem with the directories `dirs`, the walk that follows symbolic links ends, wherever
    -- they lead, and then the files that it has queued have one of the extensions, if there are any,
    -- and `filesDiscovered` counts them, if so it was before.
    pub walk_with_symlinks-EndsSound :
        (root : Bytes) (w : Walker)
        → w.visited ≡ []
        → IsSound fs done options w
        → EndsSound (walk_with_symlinks fs done options (length dirs + 1) root walk_root w)
    walk_with_symlinks-EndsSound root w e h =
        both-EndsSound (length dirs) _
          (walk_with_symlinks-Ended fs done options dirs walk_root has root w e)
          (walk_with_symlinks-Sound (length dirs + 1) root walk_root w h)
