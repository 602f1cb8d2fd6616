-- ===== src/Display/Start.antt =====
-- What the progress display writes at its start: `Start` of progress.go. The absolute path is that of
-- filepath.Abs, and the version that of the build.
use certfinder.Base.Format.{dec, str, flag, sprintf}
use certfinder.Base.Text.{codes}
use certfinder.Base.{
  ℕ, Bool, Option, none, some, List, [], ◌∷◌, Bytes, ◌==◌, if◌then◌else◌, GoError,
}
use certfinder.Display.{
  ProgressDisplay, Written, write_progress, draw_status_locked, format_option_list,
}

pub record ScanConfiguration : Type 0 where
  pub path : Bytes
  pub workers : ℕ
  pub max_bytes : ℕ
  pub exclude : List Bytes
  pub extensions : List Bytes
  pub one_file_system : Bool
  pub follow_symlinks : Bool
  pub archives : Bool
  pub archive_max_bytes : ℕ
  pub archive_max_entries : ℕ
  pub archive_max_depth : ℕ
  pub ignore_errors : Bool
  pub usage : Bytes
  pub hostname : Bytes
  pub expiration : Bytes
  pub fail_expiring : Bytes
  pub verify : Bool
  pub roots : List Bytes
  pub roots_only : Bool
  pub identity_mode : Bytes
  pub output : Bytes
  pub quiet : Bool

abbrev pub or_default : Bytes → Bytes → Bytes
or_default [] d = d
or_default (c ∷ cs) d = c ∷ cs

abbrev pub path_or : Bytes → Option Bytes → Bytes
path_or path none = path
path_or path (some absolute) = absolute

-- The lines, each of them one write
unfoldable pub start_lines : Bytes → (Bytes → Option Bytes) → ScanConfiguration → List Bytes
unfolding sprintf format_option_list
start_lines version absolute c =
    sprintf "%s %s\n" (str (codes "certfinder") ∷ str version ∷ [])
    ∷ sprintf "Scan path: %s\n" (str (path_or c.path (absolute c.path)) ∷ [])
    ∷ sprintf "Workers: %d\n" (dec c.workers ∷ [])
    ∷ sprintf
        "Options: max-bytes=%s usage=%s hostname=%s expiration=%s fail-expiring=%s identity=%s output=%s quiet=%t\n"
        (str (if c.max_bytes == 0 then codes "unlimited" else sprintf "%d" (dec c.max_bytes ∷ []))
          ∷ str (or_default c.usage (codes "all"))
          ∷ str (or_default c.hostname (codes "none"))
          ∷ str (or_default c.expiration (codes "none"))
          ∷ str (or_default c.fail_expiring (codes "none"))
          ∷ str (or_default c.identity_mode (codes "all"))
          ∷ str (or_default c.output (codes "text"))
          ∷ flag c.quiet
          ∷ [])
    ∷ sprintf
        "Traversal: exclude=%s extensions=%s one-file-system=%t follow-symlinks=%t ignore-errors=%t\n"
        (str (format_option_list c.exclude (codes "none"))
          ∷ str (format_option_list c.extensions (codes "all"))
          ∷ flag c.one_file_system
          ∷ flag c.follow_symlinks
          ∷ flag c.ignore_errors
          ∷ [])
    ∷ sprintf "Verification: enabled=%t roots=%s roots-only=%t\n"
        (flag c.verify ∷ str (format_option_list c.roots (codes "none")) ∷ flag c.roots_only ∷ [])
    ∷ sprintf "Archives: enabled=%t max-bytes=%d max-entries=%d max-depth=%d\n" (
        flag c.archives
        ∷ dec c.archive_max_bytes
        ∷ dec c.archive_max_entries
        ∷ dec c.archive_max_depth
        ∷ [])
    ∷ (10 ∷ [])
    ∷ []

module _ {R : Type 0} (fails : List (Written R) → Written R → Option GoError) where
  unfoldable pub write_lines : List Bytes → ProgressDisplay R → ProgressDisplay R
  unfolding write_progress
  write_lines [] d = d
  write_lines (l ∷ ls) d = write_lines ls (write_progress fails l d)

  -- `Start` before it starts `refreshLoop`, which it does where it is not quiet.
  unfoldable pub start :
      Bytes → (Bytes → Option Bytes) → ScanConfiguration → ProgressDisplay R → ProgressDisplay R
  unfolding write_lines start_lines draw_status_locked
  start version absolute c d =
      if d.quiet
      then d
      else draw_status_locked fails (write_lines (start_lines version absolute c) d)
