-- ===== src/Scanner/Walk/Ends.antt =====
-- The walk of internal/scanner/scanner.go that follows symbolic links ends, also where links lead back:
-- `walkDirectory` goes on into directories that were not visited only.
use certfinder.Base.{
  ℕ, ◌≤◌, ◌<◌, ◌≡◌, refl, Bool, true, false, not, none, some, List, ◌∷◌, Bytes, if-both, arith,
  Bool-cases, inl, inr, GoError, Result, ok, err, ◌>>=◌,
}
use certfinder.Options.Strings.{contains}
use certfinder.Scanner.Walk.{
  FileInfo, FileSystem, WalkOptions, Walker, Walked, Walks, report_error, queue_path, mark_visited,
  is_wanted, mark_and_walk, linked_directory, linked, and_then, unless_done,
}
use certfinder.Scanner.Walk.Visits.{
  unvisited, unvisited-cons, HasDirectories, report_error-visited, queue_path-visited,
}

module _ (fs : FileSystem) (done : ℕ → Bool) (options : WalkOptions) (dirs : List Bytes)
    (walk_root : Bytes) (has : HasDirectories fs done options dirs walk_root) where
  abbrev pub left : Walker → ℕ
  left w = unvisited dirs w.visited

  -- A walk that ended, with no more directories left to visit than `u`
  abbrev pub Ended : ℕ → Walked → Type 0
  Ended u none = ⊥
  Ended u (some (b, w)) = unvisited dirs w.visited ≤ u

  pub Ended-same :
      (u : ℕ) (w : Walker) (x : Bool × Walker)
      → left w ≤ u
      → x.1.visited ≡ w.visited
      → Ended u (some x)
  Ended-same u w x h e = rw e h

  pub Ended-and_then :
      (u : ℕ) (m : Walked) (k : Walker → Walked)
      → Ended u m
      → ((w : Walker) → left w ≤ u → Ended u (k w))
      → Ended u (and_then fs done options m k)
  Ended-and_then u none k h f = elim h [ ]
  Ended-and_then u (some (false, w)) k h f = h
  Ended-and_then u (some (true, w)) k h f = f w h

  pub Ended-mono : (u v : ℕ) (m : Walked) → u ≤ v → Ended u m → Ended v m
  Ended-mono u v none h e = elim e [ ]
  Ended-mono u v (some (b, w)) h e = omega (arith, e)

  pub unless_done-Ended :
      (u : ℕ) (w : Walker) (m : Walked)
      → left w ≤ u
      → Ended u m
      → Ended u (unless_done fs done options w m)
  unless_done-Ended u w m h e = if-both (Ended u) (done w.looks) _ _ h e

  pub queue_path-Ended :
      (u : ℕ) (display : Bytes) (w : Walker)
      → left w ≤ u
      → Ended u (some (queue_path fs done options display w))
  queue_path-Ended u display w h =
      Ended-same u w (queue_path fs done options display w) h
        (queue_path-visited fs done options display w)

  pub report_error-Ended :
      (u : ℕ) (display : Bytes) (e : GoError) (w : Walker)
      → left w ≤ u
      → Ended u (some (report_error fs done options display e w))
  report_error-Ended u display e w h =
      Ended-same u w (report_error fs done options display e w) h
        (report_error-visited fs done options display e w)

  -- The recursive call, with fuel for fewer than `n` directories
  abbrev pub Enough : ℕ → Walks fs done options → Type 0
  Enough n walk =
      (physical display relative : Bytes) (w : Walker)
      → left w < n
      → Ended (left w) (walk physical display relative w)

  module _ (n : ℕ) (walk : Walks fs done options) (enough : Enough n walk) where
    pub mark_and_walk-Ended :
        (physical display relative : Bytes) (w : Walker)
        → contains dirs physical ≡ true
        → left w ≤ n
        → Ended (left w) (mark_and_walk fs done options walk physical display relative w)
    unfolding mark_and_walk mark_visited
    mark_and_walk-Ended physical display relative w m h =
        elim (Bool-cases (contains w.visited physical)) [
          | inl y ↦ rw y (omega arith)
          | inr z ↦
              (let v = record w { visited = physical ∷ w.visited } in
                let l : left v < left w = unvisited-cons dirs w.visited physical m z in
                rw z (
                  Ended-mono (left v) (left w) _ (omega arith)
                    (enough physical display relative v (omega arith))))
        ]

    linked_directory-Ended :
        (display relative : Bytes) (w : Walker) (r : Result Bytes)
        → ((q : Bytes) → r ≡ ok q → contains dirs (fs.clean q) ≡ true)
        → left w ≤ n
        → Ended (left w) (linked_directory fs done options walk display relative w r)
    unfolding linked_directory
    linked_directory-Ended display relative w (err e) f h =
        report_error-Ended (left w) display e w (omega arith)
    linked_directory-Ended display relative w (ok q) f h =
        mark_and_walk-Ended (fs.clean q) display relative w (f q refl) h

    pub linked-Ended :
        (physical display relative : Bytes) (info : FileInfo) (x : Bool × Walker)
        → fs.stat physical ≡ ok info
        → left x.1 ≤ n
        → Ended (left x.1) (linked fs done options walk physical display relative info x)
    unfolding linked
    linked-Ended physical display relative info (false, w) e h = omega arith
    linked-Ended physical display relative info (true, w) e h = elim (Bool-cases info.is_dir) [
      | inl y ↦ rw y (
          linked_directory-Ended display relative w (fs.eval_symlinks physical >>= fs.abs)
            (λ q k. has.linked_to physical q info e y k) h)
      | inr z ↦ rw z (
          if-both (Ended (left w)) (not (is_wanted fs done options info.is_regular display)) _ _
            (omega arith) (queue_path-Ended (left w) display w (omega arith)))
    ]
