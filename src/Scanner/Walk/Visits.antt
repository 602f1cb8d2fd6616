-- ===== src/Scanner/Walk/Visits.antt =====
-- How the walk of internal/scanner/scanner.go uses up the directories: each is visited once, by
-- `markVisited`.
use certfinder.Base.Lists.{All}
use certfinder.Base.Text.{bytes_eq, bytes_eq_iff}
use certfinder.Base.{
  ℕ, ◌+◌, ◌≤◌, ◌<◌, ◌≡◌, refl, Bool, true, false, not, length, Option, none, some, List, [], ◌∷◌,
  Bytes, if◌then◌else◌, if-both, arith, Bool-cases, inl, inr, GoError, Result, ok, err, ◌>>=◌,
}
use certfinder.Options.Strings.{contains}
use certfinder.Scanner.Walk.{
  FileInfo, DirEntry, FileSystem, WalkOptions, Walker, report_error, queue_path, on_filesystem,
  info_on_root_filesystem, entry_info, entry_on_root_filesystem,
}

unfoldable pub unvisited : List Bytes → List Bytes → ℕ
unfolding contains
unvisited [] visited = 0
unvisited (d ∷ ds) visited =
    let rest = unvisited ds visited in if contains visited d then rest else rest + 1

unvisited-cons-le :
    (ds visited : List Bytes) (p : Bytes) → unvisited ds (p ∷ visited) ≤ unvisited ds visited
unfolding unvisited contains
unvisited-cons-le [] visited p = omega arith
unvisited-cons-le (d ∷ ds) visited p = ground (arith, unvisited-cons-le ds visited p)

unvisited-here :
    (ds visited : List Bytes) (d p : Bytes)
    → bytes_eq d p ≡ true
    → contains visited p ≡ false
    → unvisited (d ∷ ds) (p ∷ visited) < unvisited (d ∷ ds) visited
unfolding unvisited contains
unvisited-here ds visited d p e h =
    let same : d ≡ p = (bytes_eq_iff d p).0 e in
    let self : bytes_eq p p ≡ true = (bytes_eq_iff p p).1 refl in
    rw (same, self, h) (omega (arith, unvisited-cons-le ds visited p))

unvisited-there :
    (ds visited : List Bytes) (d p : Bytes)
    → unvisited ds (p ∷ visited) < unvisited ds visited
    → unvisited (d ∷ ds) (p ∷ visited) < unvisited (d ∷ ds) visited
unfolding unvisited contains
unvisited-there ds visited d p h = ground arith

pub unvisited-cons :
    (ds visited : List Bytes) (p : Bytes)
    → contains ds p ≡ true
    → contains visited p ≡ false
    → unvisited ds (p ∷ visited) < unvisited ds visited
unfolding contains
unvisited-cons [] visited p m h = absurd (cc)
unvisited-cons (d ∷ ds) visited p m h = elim (Bool-cases (bytes_eq d p)) [
  | inl y ↦ unvisited-here ds visited d p y h
  | inr z ↦ unvisited-there ds visited d p (unvisited-cons ds visited p (rw z at m) h)
]

pub unvisited-le : (ds visited : List Bytes) → unvisited ds visited ≤ length ds
unfolding unvisited
unvisited-le [] visited = omega arith
unvisited-le (d ∷ ds) visited = ground (arith, unvisited-le ds visited)

module _ (fs : FileSystem) (done : ℕ → Bool) (options : WalkOptions) where
  -- The directories of the filesystem are among `dirs`: those that reading a directory shows, those that
  -- a link leads to, and the one at the root of the walk.
  pub record HasDirectories (dirs : List Bytes) (walk_root : Bytes) : Type 0 where
    pub shown :
        (p : Bytes) (es : List DirEntry)
        → fs.read_dir p ≡ ok es
        → All (λ e. e.is_dir ≡ true → contains dirs (fs.clean (fs.join_file p e.name)) ≡ true) es
    pub linked_to :
        (p q : Bytes) (info : FileInfo)
        → fs.stat p ≡ ok info
        → info.is_dir ≡ true
        → (fs.eval_symlinks p >>= fs.abs) ≡ ok q
        → contains dirs (fs.clean q) ≡ true
    pub at_root :
        (q : Bytes)
        → (fs.abs walk_root >>= fs.eval_symlinks) ≡ ok q
        → contains dirs (fs.clean q) ≡ true

  pub report_error-visited :
      (path : Bytes) (e : GoError) (w : Walker)
      → (report_error fs done options path e w).1.visited ≡ w.visited
  unfolding report_error
  report_error-visited path e w =
      if-both (λ (x : Bool × Walker). x.1.visited ≡ w.visited) (done w.looks) _ _ refl refl

  pub queue_path-visited :
      (path : Bytes) (w : Walker) → (queue_path fs done options path w).1.visited ≡ w.visited
  unfolding queue_path
  queue_path-visited path w =
      if-both (λ (x : Bool × Walker). x.1.visited ≡ w.visited) (done w.looks) _ _ refl refl

  on_filesystem-visited :
      (path : Bytes) (w : Walker) (f : Option ℕ)
      → (on_filesystem fs done options path w f).1.visited ≡ w.visited
  unfolding on_filesystem
  on_filesystem-visited path w none = report_error-visited path _ w
  on_filesystem-visited path w (some f) = refl

  pub info_on_root_filesystem-visited :
      (path : Bytes) (info : FileInfo) (w : Walker)
      → (info_on_root_filesystem fs done options path info w).1.visited ≡ w.visited
  unfolding info_on_root_filesystem
  info_on_root_filesystem-visited path info w =
      if-both (λ (x : Bool × Walker). x.1.visited ≡ w.visited) (not options.one_file_system) _ _
        refl (on_filesystem-visited path w info.filesystem)

  entry_info-visited :
      (path : Bytes) (w : Walker) (r : Result FileInfo)
      → (entry_info fs done options path w r).1.visited ≡ w.visited
  unfolding entry_info
  entry_info-visited path w (err e) = report_error-visited path e w
  entry_info-visited path w (ok info) = info_on_root_filesystem-visited path info w

  pub entry_on_root_filesystem-visited :
      (path : Bytes) (e : DirEntry) (w : Walker)
      → (entry_on_root_filesystem fs done options path e w).1.visited ≡ w.visited
  unfolding entry_on_root_filesystem
  entry_on_root_filesystem-visited path e w =
      if-both (λ (x : Bool × Walker). x.1.visited ≡ w.visited) (not options.one_file_system) _ _
        refl (entry_info-visited path w e.info)
