-- ===== src/Scanner/Walk/Whole.antt =====
-- The walk over a whole tree that follows symbolic links ends, also where links lead back:
-- `walkDirectory` and `walkWithSymlinks` of internal/scanner/scanner.go.
use certfinder.Scanner.Walk.Ends.{
  left, Ended, Ended-mono, Ended-and_then, unless_done-Ended, report_error-Ended, queue_path-Ended,
  Enough, mark_and_walk-Ended, linked-Ended,
}
use mathlib.Core.Path.{subst}
use certfinder.Base.Lists.{All}
use certfinder.Base.{
  ℕ, zero, suc, ◌+◌, ◌≤◌, ◌≡◌, refl, ap, Bool, true, false, not, List, [], ◌∷◌, Bytes, length,
  if-both, if-true, if-false, arith, Bool-cases, inl, inr, Result, ok, err, ◌>>=◌,
}
use certfinder.Options.Strings.{contains}
use certfinder.Scanner.Paths.{is_excluded}
use certfinder.Scanner.Walk.{
  FileInfo, DirEntry, FileSystem, WalkOptions, Walker, Walks, info_on_root_filesystem,
  entry_on_root_filesystem, queue_if, is_wanted, linked, stated, visit_symlink, sub_directory,
  walk_entry, look, walk_entries, directory, walk_directory, from_root, walk_with_symlinks,
}
use certfinder.Scanner.Walk.Visits.{
  unvisited, unvisited-le, HasDirectories, info_on_root_filesystem-visited,
  entry_on_root_filesystem-visited,
}

module _ (fs : FileSystem) (done : ℕ → Bool) (options : WalkOptions) (dirs : List Bytes)
    (walk_root : Bytes) (has : HasDirectories fs done options dirs walk_root) where
  module _ (n : ℕ) (walk : Walks fs done options)
      (enough : Enough fs done options dirs walk_root has n walk) where
    stated-Ended :
        (physical display relative : Bytes) (w : Walker) (r : Result FileInfo)
        → fs.stat physical ≡ r
        → left fs done options dirs walk_root has w ≤ n
        → Ended fs done options dirs walk_root has
            (left fs done options dirs walk_root has w)
            (stated fs done options walk physical display relative w r)
    stated-Ended physical display relative w (err e) k h =
        report_error-Ended fs done options dirs walk_root has
          (left fs done options dirs walk_root has w) display e w (omega arith)
    stated-Ended physical display relative w (ok info) k h =
        let x = info_on_root_filesystem fs done options display info w in
        let same : left fs done options dirs walk_root has x.1
            ≡ left fs done options dirs walk_root has w =
          ap (unvisited dirs) (info_on_root_filesystem-visited fs done options display info w) in
        subst
          (λ u.
            Ended fs done options dirs walk_root has u
              (linked fs done options walk physical display relative info x))
          same
          (linked-Ended fs done options dirs walk_root has n walk enough physical display relative
            info x k (omega arith))

    visit_symlink-Ended :
        (physical display relative : Bytes) (w : Walker)
        → left fs done options dirs walk_root has w ≤ n
        → Ended fs done options dirs walk_root has
            (left fs done options dirs walk_root has w)
            (visit_symlink fs done options walk physical display relative w)
    unfolding visit_symlink
    visit_symlink-Ended physical display relative w h =
        stated-Ended physical display relative w (fs.stat physical) refl h

    sub_directory-Ended :
        (physical display relative : Bytes) (x : Bool × Walker)
        → contains dirs (fs.clean physical) ≡ true
        → left fs done options dirs walk_root has x.1 ≤ n
        → Ended fs done options dirs walk_root has
            (left fs done options dirs walk_root has x.1)
            (sub_directory fs done options walk physical display relative x)
    unfolding sub_directory
    sub_directory-Ended physical display relative (true, w) m h =
        mark_and_walk-Ended fs done options dirs walk_root has n walk enough (fs.clean physical)
          display relative w m h
    sub_directory-Ended physical display relative (false, w) m h = omega arith

    queue_if-Ended :
        (display : Bytes) (x : Bool × Walker)
        → Ended fs done options dirs walk_root has
            (left fs done options dirs walk_root has x.1)
            (queue_if fs done options display x)
    unfolding queue_if
    queue_if-Ended display (true, w) =
        queue_path-Ended fs done options dirs walk_root has
          (left fs done options dirs walk_root has w) display w (omega arith)
    queue_if-Ended display (false, w) = omega arith

    -- What an entry of a directory is known to be
    abbrev Known : Bytes → DirEntry → Type 0
    Known physical e =
        e.is_dir ≡ true → contains dirs (fs.clean (fs.join_file physical e.name)) ≡ true

    on_root :
        (display : Bytes) (e : DirEntry) (w : Walker)
        → left fs done options dirs walk_root has
            (entry_on_root_filesystem fs done options display e w).1
          ≡ left fs done options dirs walk_root has w
    on_root display e w =
        ap (unvisited dirs) (entry_on_root_filesystem-visited fs done options display e w)

    walk_directory_entry-Ended :
        (physical display relative : Bytes) (e : DirEntry) (w : Walker)
        → contains dirs (fs.clean physical) ≡ true
        → left fs done options dirs walk_root has w ≤ n
        → Ended fs done options dirs walk_root has (left fs done options dirs walk_root has w) (
            sub_directory fs done options walk physical display relative
              (entry_on_root_filesystem fs done options display e w))
    walk_directory_entry-Ended physical display relative e w m h =
        let x = entry_on_root_filesystem fs done options display e w in
        let same : left fs done options dirs walk_root has x.1
            ≡ left fs done options dirs walk_root has w =
          on_root display e w in
        subst
          (λ u.
            Ended fs done options dirs walk_root has u
              (sub_directory fs done options walk physical display relative x))
          same (sub_directory-Ended physical display relative x m (omega arith))

    walk_file_entry-Ended :
        (display : Bytes) (e : DirEntry) (w : Walker)
        → Ended fs done options dirs walk_root has (left fs done options dirs walk_root has w) (
            queue_if fs done options display (entry_on_root_filesystem fs done options display e w))
    walk_file_entry-Ended display e w =
        let x = entry_on_root_filesystem fs done options display e w in
        subst (λ u. Ended fs done options dirs walk_root has u (queue_if fs done options display x))
          (on_root display e w) (queue_if-Ended display x)

    walk_entry-Ended :
        (physical display relative : Bytes) (e : DirEntry) (w : Walker)
        → (e.is_dir ≡ true → contains dirs (fs.clean physical) ≡ true)
        → left fs done options dirs walk_root has w ≤ n
        → Ended fs done options dirs walk_root has
            (left fs done options dirs walk_root has w)
            (walk_entry fs done options walk physical display relative e w)
    unfolding walk_entry
    walk_entry-Ended physical display relative e w m h =
        if-both
          (Ended fs done options dirs walk_root has (left fs done options dirs walk_root has w))
          (is_excluded fs.matches fs.base relative options.exclude) _ _ (omega arith)
          (if-both
            (Ended fs done options dirs walk_root has (left fs done options dirs walk_root has w))
            e.is_symlink _ _ (visit_symlink-Ended physical display relative w h)
            (elim (Bool-cases e.is_dir) [
              | inl y ↦
                  if-true
                    (Ended fs done options dirs walk_root has
                      (left fs done options dirs walk_root has w))
                    e.is_dir _ _ y
                    (walk_directory_entry-Ended physical display relative e w (m y) h)
              | inr z ↦
                  if-false
                    (Ended fs done options dirs walk_root has
                      (left fs done options dirs walk_root has w))
                    e.is_dir _ _ z
                    (if-both
                      (Ended fs done options dirs walk_root has
                        (left fs done options dirs walk_root has w))
                      (not (is_wanted fs done options e.is_regular display)) _ _ (omega arith)
                      (walk_file_entry-Ended display e w))
            ]))

    walk_entries-Ended :
        (physical display relative : Bytes) (es : List DirEntry) (u : ℕ) (w : Walker)
        → All (Known physical) es
        → u ≤ n
        → left fs done options dirs walk_root has w ≤ u
        → Ended fs done options dirs walk_root has u
            (walk_entries fs done options walk physical display relative es w)
    unfolding walk_entries
    walk_entries-Ended physical display relative [] u w k h l = l
    walk_entries-Ended physical display relative (e ∷ es) u w k h l =
        let p = fs.join_file physical e.name in
        let d = fs.join_file display e.name in
        let r = fs.join_path relative e.name in
        let v = look fs done options w in
        unless_done-Ended fs done options dirs walk_root has u w _ l (
          Ended-and_then fs done options dirs walk_root has u
            (walk_entry fs done options walk p d r e v)
            (walk_entries fs done options walk physical display relative es)
            (Ended-mono fs done options dirs walk_root has
              (left fs done options dirs walk_root has w) u _ l
              (walk_entry-Ended p d r e v k.0 (omega arith)))
            (λ x. walk_entries-Ended physical display relative es u x k.1 h))

    directory-Ended :
        (physical display relative : Bytes) (w : Walker) (r : Result (List DirEntry))
        → fs.read_dir physical ≡ r
        → left fs done options dirs walk_root has w ≤ n
        → Ended fs done options dirs walk_root has
            (left fs done options dirs walk_root has w)
            (directory fs done options walk physical display relative w r)
    unfolding directory
    directory-Ended physical display relative w (err e) k h =
        report_error-Ended fs done options dirs walk_root has
          (left fs done options dirs walk_root has w) display e w (omega arith)
    directory-Ended physical display relative w (ok es) k h =
        walk_entries-Ended physical display relative es (left fs done options dirs walk_root has w)
          w (has.shown physical es k) h (omega arith)

  walk_directory-Ended :
      (fuel : ℕ)
      → Enough fs done options dirs walk_root has fuel (walk_directory fs done options fuel)
  unfolding walk_directory
  walk_directory-Ended zero physical display relative w h = absurd (omega arith)
  walk_directory-Ended (suc fuel) physical display relative w h =
      let v = look fs done options w in
      unless_done-Ended fs done options dirs walk_root has
        (left fs done options dirs walk_root has w) w _ (omega arith)
        (directory-Ended fuel (walk_directory fs done options fuel) (walk_directory-Ended fuel)
          physical display relative v (fs.read_dir physical) refl (omega arith))

  from_root-Ended :
      (root : Bytes) (w : Walker) (r : Result Bytes)
      → ((q : Bytes) → r ≡ ok q → contains dirs (fs.clean q) ≡ true)
      → w.visited ≡ []
      → Ended fs done options dirs walk_root has
          (length dirs)
          (from_root fs done options (length dirs + 1) root w r)
  unfolding from_root
  from_root-Ended root w (err e) m h =
      report_error-Ended fs done options dirs walk_root has (length dirs) root e w
        (unvisited-le dirs w.visited)
  from_root-Ended root w (ok q) m h =
      let v = record w { visited = fs.clean q ∷ [] } in
      let l = unvisited-le dirs (fs.clean q ∷ []) in
      Ended-mono fs done options dirs walk_root has (left fs done options dirs walk_root has v)
        (length dirs) _ l
        (walk_directory-Ended (length dirs + 1) (fs.clean q) root [] v (omega (arith, l)))

  -- On a filesystem with the directories `dirs`, whatever its links are and whenever the context is done,
  -- the walk that follows links ends within a recursion that is no deeper than their number and one.
  pub walk_with_symlinks-Ended :
      (root : Bytes) (w : Walker)
      → w.visited ≡ []
      → Ended fs done options dirs walk_root has
          (length dirs)
          (walk_with_symlinks fs done options (length dirs + 1) root walk_root w)
  unfolding walk_with_symlinks
  walk_with_symlinks-Ended root w h =
      from_root-Ended root w (fs.abs walk_root >>= fs.eval_symlinks) has.at_root h
