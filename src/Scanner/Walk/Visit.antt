-- ===== src/Scanner/Walk/Visit.antt =====
-- The walk that does not follow symbolic links: `visitWithoutSymlinks` and `paths` of
-- internal/scanner/scanner.go, which filepath.WalkDir calls for each path. `rel` is filepath.Rel.
use certfinder.Base.Text.{codes, bytes_eq}
use certfinder.Base.{
  ℕ, Bool, true, false, not, ◌&&◌, Option, none, some, Bytes, if◌then◌else◌, GoError, Result, ok,
  err,
}
use certfinder.Scanner.Paths.{is_excluded}
use certfinder.Scanner.Walk.{
  DirEntry, FileSystem, WalkOptions, Walker, look, report_error, queue_path,
  entry_on_root_filesystem, is_wanted,
}

-- What WalkDir passes: an entry, or an error with the entry if there is one.
pub data Shown : Type 0 where
  shown : DirEntry → Shown
  unreadable : Option DirEntry → GoError → Shown

-- What WalkDir gets back: nil, filepath.SkipDir, or the error of a context that is done.
pub data Visit : Type 0 where
  next_path skip_dir cancelled : Visit

abbrev pub Visited : Type 0
Visited = Visit × Walker

module _ (fs : FileSystem) (done : ℕ → Bool) (options : WalkOptions)
    (rel : Bytes → Bytes → Result Bytes) (root walk_root : Bytes) where
  abbrev pub paths_of : Bytes → Result Bytes → Bytes × Bytes
  unfolding bytes_eq
  paths_of file_path (err e) = (file_path, codes ".")
  paths_of file_path (ok relative) =
      (if bytes_eq walk_root root then file_path else fs.join_file root relative, relative)

  unfoldable pub paths : Bytes → Bytes × Bytes
  unfolding bytes_eq
  paths file_path = paths_of file_path (rel walk_root file_path)

  abbrev pub is_directory : Option DirEntry → Bool
  is_directory none = false
  is_directory (some e) = e.is_dir

  abbrev pub dir_or_next : Bool → Visit
  dir_or_next true = skip_dir
  dir_or_next false = next_path

  abbrev pub reported : Option DirEntry → Bool × Walker → Visited
  reported entry (false, w) = (cancelled, w)
  reported entry (true, w) = (dir_or_next (is_directory entry), w)

  abbrev pub directory_or_skip : Bool × Walker → Visited
  directory_or_skip (b, w) = (dir_or_next (not b), w)

  abbrev pub queued : Bool × Walker → Visited
  queued (true, w) = (next_path, w)
  queued (false, w) = (cancelled, w)

  unfoldable pub queue_on_root : Bytes → Bool × Walker → Visited
  unfolding queue_path
  queue_on_root display (false, w) = (next_path, w)
  queue_on_root display (true, w) = queued (queue_path fs done options display w)

  unfoldable pub visit : Bytes → Bytes → Walker → Shown → Visited
  unfolding report_error is_excluded entry_on_root_filesystem is_wanted queue_on_root bytes_eq
  visit display relative w (unreadable entry e) =
      reported entry (report_error fs done options display e w)
  visit display relative w (shown e) =
      if not (bytes_eq relative (codes "."))
        && is_excluded fs.matches fs.base relative options.exclude
      then (dir_or_next e.is_dir, w)
      else if e.is_dir
      then (if not (bytes_eq relative (codes "."))
          then directory_or_skip (entry_on_root_filesystem fs done options display e w)
          else (next_path, w))
      else if not (is_wanted fs done options e.is_regular display)
      then (next_path, w)
      else queue_on_root display (entry_on_root_filesystem fs done options display e w)

  unfoldable pub visit_without_symlinks : Bytes → Shown → Walker → Visited
  unfolding visit paths
  visit_without_symlinks file_path s w =
      let (display, relative) = paths file_path in
      let rest = visit display relative (look fs done options w) s in
      if done w.looks then (cancelled, look fs done options w) else rest
