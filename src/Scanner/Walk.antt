-- ===== src/Scanner/Walk.antt =====
-- The walk that follows symbolic links: `discoveryWalker` of internal/scanner/scanner.go. The
-- filesystem is the interface `FileSystem`, and `done` is what the n-th look at the context finds: a
-- send to a channel is refused where the context is done, and happens otherwise.
pub mod Visits
pub mod Ends
pub mod Whole
pub mod Visit
pub mod Sound
pub mod Queued
pub mod Linked
mod Tests
use certfinder.Base.{
  ℕ, zero, suc, ◌+◌, ◌-◌, Bool, true, false, not, ◌&&◌, Option, none, some, List, [], ◌∷◌, ◌++◌,
  Bytes, ◌==◌, if◌then◌else◌, GoError, errorf, Result, ok, err, ◌>>=◌,
}
use certfinder.Options.Strings.{contains}
use certfinder.Scanner.Paths.{is_excluded, matches_extension}

-- An os.FileInfo; `filesystem` is the result of `filesystemID`.
pub record FileInfo : Type 0 where
  pub is_dir : Bool
  pub is_regular : Bool
  pub filesystem : Option ℕ

pub record DirEntry : Type 0 where
  pub name : Bytes
  pub is_symlink : Bool
  pub is_dir : Bool
  pub is_regular : Bool
  pub info : Result FileInfo

pub record FileSystem : Type 0 where
  pub read_dir : Bytes → Result (List DirEntry)
  pub stat : Bytes → Result FileInfo
  pub eval_symlinks : Bytes → Result Bytes
  pub abs : Bytes → Result Bytes
  pub clean : Bytes → Bytes
  -- filepath.Join and path.Join
  pub join_file : Bytes → Bytes → Bytes
  pub join_path : Bytes → Bytes → Bytes
  pub matches : Bytes → Bytes → Bool
  pub base : Bytes → Bytes
  pub ext : Bytes → Bytes

pub record WalkOptions : Type 0 where
  pub exclude : List Bytes
  pub extensions : List Bytes
  pub one_file_system : Bool
  pub root_filesystem : ℕ

-- What the walk changes: the looks at the context, the paths and the errors that it has sent, how many
-- files it counts, and the directories that it has visited.
pub record Walker : Type 0 where
  pub looks : ℕ
  pub jobs : List Bytes
  pub errors : List (Bytes × GoError)
  pub files_discovered : ℕ
  pub visited : List Bytes

-- Whether to go on, and the state; none means that the fuel ran out.
abbrev pub Walked : Type 0
Walked = Option (Bool × Walker)

abbrev pub go_on : Walker → Walked
go_on w = some (true, w)

module _ (fs : FileSystem) (done : ℕ → Bool) (options : WalkOptions) where
  abbrev pub look : Walker → Walker
  look w = record w { looks = w.looks + 1 }

  -- `ctx.Err()`
  abbrev pub unless_done : Walker → Walked → Walked
  unless_done w rest = if done w.looks then some (false, look w) else rest

  unfoldable pub report_error : Bytes → GoError → Walker → Bool × Walker
  report_error display_path e w =
      if done w.looks
      then (false, look w)
      else (true, record (look w) { errors = w.errors ++ (display_path, e) ∷ [] })

  unfoldable pub queue_path : Bytes → Walker → Bool × Walker
  queue_path path w =
      let v = record (look w) { files_discovered = w.files_discovered + 1 } in
      if done w.looks
      then (false, record v { files_discovered = v.files_discovered - 1 })
      else (true, record v { jobs = v.jobs ++ path ∷ [] })

  unfoldable pub mark_visited : Bytes → Walker → Bool × Walker
  unfolding contains
  mark_visited path w =
      if contains w.visited path
      then (false, w)
      else (true, record w { visited = path ∷ w.visited })

  unfoldable pub on_filesystem : Bytes → Walker → Option ℕ → Bool × Walker
  unfolding report_error
  on_filesystem display_path w none =
      (false, (report_error display_path (errorf "filesystem identity is unavailable" []) w).1)
  on_filesystem display_path w (some filesystem) = (filesystem == options.root_filesystem, w)

  unfoldable pub info_on_root_filesystem : Bytes → FileInfo → Walker → Bool × Walker
  unfolding on_filesystem
  info_on_root_filesystem display_path info w =
      if not options.one_file_system
      then (true, w)
      else on_filesystem display_path w info.filesystem

  unfoldable pub entry_info : Bytes → Walker → Result FileInfo → Bool × Walker
  unfolding report_error info_on_root_filesystem
  entry_info display_path w (err e) = (false, (report_error display_path e w).1)
  entry_info display_path w (ok info) = info_on_root_filesystem display_path info w

  unfoldable pub entry_on_root_filesystem : Bytes → DirEntry → Walker → Bool × Walker
  unfolding entry_info
  entry_on_root_filesystem display_path entry w =
      if not options.one_file_system then (true, w) else entry_info display_path w entry.info

  -- `walkDirectory`: physical directory, displayed directory and relative directory
  abbrev pub Walks : Type 0
  Walks = Bytes → Bytes → Bytes → Walker → Walked

  abbrev pub if_marked : Walks → Bytes → Bytes → Bytes → Bool × Walker → Walked
  if_marked walk physical display relative (true, w) = walk physical display relative w
  if_marked walk physical display relative (false, w) = go_on w

  unfoldable pub queue_if : Bytes → Bool × Walker → Walked
  unfolding queue_path
  queue_if display (true, w) = some (queue_path display w)
  queue_if display (false, w) = go_on w

  unfoldable pub is_wanted : Bool → Bytes → Bool
  unfolding matches_extension
  is_wanted is_regular display = is_regular && matches_extension fs.ext display options.extensions

  unfoldable pub mark_and_walk : Walks → Bytes → Bytes → Bytes → Walker → Walked
  unfolding mark_visited
  mark_and_walk walk physical display relative w =
      if_marked walk physical display relative (mark_visited physical w)

  -- What a symbolic link to a directory resolves to
  unfoldable pub linked_directory : Walks → Bytes → Bytes → Walker → Result Bytes → Walked
  unfolding report_error mark_and_walk
  linked_directory walk display relative w (err e) = some (report_error display e w)
  linked_directory walk display relative w (ok resolved) =
      mark_and_walk walk (fs.clean resolved) display relative w

  unfoldable pub linked : Walks → Bytes → Bytes → Bytes → FileInfo → Bool × Walker → Walked
  unfolding linked_directory queue_path is_wanted
  linked walk physical display relative info (false, w) = go_on w
  linked walk physical display relative info (true, w) =
      if info.is_dir
      then linked_directory walk display relative w (fs.eval_symlinks physical >>= fs.abs)
      else if not (is_wanted info.is_regular display)
      then go_on w
      else some (queue_path display w)

  abbrev pub stated : Walks → Bytes → Bytes → Bytes → Walker → Result FileInfo → Walked
  stated walk physical display relative w (err e) = some (report_error display e w)
  stated walk physical display relative w (ok info) =
      linked walk physical display relative info (info_on_root_filesystem display info w)

  unfoldable pub visit_symlink : Walks → Bytes → Bytes → Bytes → Walker → Walked
  unfolding report_error linked info_on_root_filesystem
  visit_symlink walk physical display relative w =
      stated walk physical display relative w (fs.stat physical)

  unfoldable pub sub_directory : Walks → Bytes → Bytes → Bytes → Bool × Walker → Walked
  unfolding mark_and_walk
  sub_directory walk physical display relative (true, w) =
      mark_and_walk walk (fs.clean physical) display relative w
  sub_directory walk physical display relative (false, w) = go_on w

  -- An entry of a directory; the paths are those of the entry.
  unfoldable pub walk_entry : Walks → Bytes → Bytes → Bytes → DirEntry → Walker → Walked
  unfolding is_excluded visit_symlink sub_directory entry_on_root_filesystem is_wanted queue_if
  walk_entry walk physical display relative e w =
      if is_excluded fs.matches fs.base relative options.exclude
      then go_on w
      else if e.is_symlink
      then visit_symlink walk physical display relative w
      else if e.is_dir
      then sub_directory walk physical display relative (entry_on_root_filesystem display e w)
      else if not (is_wanted e.is_regular display)
      then go_on w
      else queue_if display (entry_on_root_filesystem display e w)

  abbrev pub and_then : Walked → (Walker → Walked) → Walked
  and_then none k = none
  and_then (some (false, w)) k = some (false, w)
  and_then (some (true, w)) k = k w

  unfoldable pub walk_entries : Walks → Bytes → Bytes → Bytes → List DirEntry → Walker → Walked
  unfolding walk_entry
  walk_entries walk physical display relative [] w = go_on w
  walk_entries walk physical display relative (e ∷ es) w = unless_done w (
      and_then
        (walk_entry walk (fs.join_file physical e.name) (fs.join_file display e.name)
          (fs.join_path relative e.name) e (look w))
        (walk_entries walk physical display relative es))

  unfoldable pub directory :
      Walks → Bytes → Bytes → Bytes → Walker → Result (List DirEntry) → Walked
  unfolding report_error walk_entries
  directory walk physical display relative w (err e) = some (report_error display e w)
  directory walk physical display relative w (ok es) =
      walk_entries walk physical display relative es w

  unfoldable pub walk_directory : ℕ → Walks
  unfolding directory
  walk_directory zero physical display relative w = none
  walk_directory (suc fuel) physical display relative w =
      unless_done w
        (directory (walk_directory fuel) physical display relative (look w) (fs.read_dir physical))

  unfoldable pub from_root : ℕ → Bytes → Walker → Result Bytes → Walked
  unfolding report_error walk_directory
  from_root fuel root w (err e) = some (report_error root e w)
  from_root fuel root w (ok p) =
      let physical = fs.clean p in
      walk_directory fuel physical root [] (record w { visited = physical ∷ [] })

  unfoldable pub walk_with_symlinks : ℕ → Bytes → Bytes → Walker → Walked
  unfolding from_root
  walk_with_symlinks fuel root walk_root w =
      from_root fuel root w (fs.abs walk_root >>= fs.eval_symlinks)
