-- ===== src/Scanner/Walk/Tests.antt =====
-- A filesystem of one directory, which holds a file and a link to the directory itself.
use certfinder.Base.Text.{codes, bytes_eq}
use certfinder.Base.Lists.{All-any}
use certfinder.Base.{
  ℕ, ◌≡◌, refl, Bool, true, false, Option, none, some, List, [], ◌∷◌, Bytes, Result, ok,
}
use certfinder.Options.Strings.{contains}
use certfinder.Scanner.Walk.{
  FileInfo, DirEntry, FileSystem, WalkOptions, Walker, walk_with_symlinks,
}
use certfinder.Scanner.Walk.Ends.{Ended}
use certfinder.Scanner.Walk.Whole.{walk_with_symlinks-Ended}
use certfinder.Scanner.Walk.Linked.{EndsSound, walk_with_symlinks-EndsSound}
use certfinder.Scanner.Walk.Queued.{visit_without_symlinks-IsSound}
use certfinder.Scanner.Walk.Sound.{IsSound}
use certfinder.Scanner.Walk.Visit.{Shown, shown, visit_without_symlinks}
use certfinder.Scanner.Walk.Visits.{HasDirectories}

abbrev plain_file : FileInfo
plain_file = record { is_dir = false; is_regular = true; filesystem = some 1 }

abbrev folder : FileInfo
folder = record { is_dir = true; is_regular = false; filesystem = some 1 }

abbrev file_and_link : List DirEntry
file_and_link =
    record {
      name = codes "a.pem";
      is_symlink = false;
      is_dir = false;
      is_regular = true;
      info = ok plain_file;
    }
    ∷ record {
      name = codes "link";
      is_symlink = true;
      is_dir = false;
      is_regular = false;
      info = ok plain_file;
    }
    ∷ []

abbrev root : Bytes
root = codes "/r"

abbrev one_directory : FileSystem
one_directory = record {
  read_dir = λ p. ok file_and_link;
  stat = λ p. ok folder;
  eval_symlinks = λ p. ok root;
  abs = λ p. ok p;
  clean = λ p. root;
  join_file = λ p n. n;
  join_path = λ p n. n;
  matches = λ p n. false;
  base = λ p. p;
  ext = λ p. p;
}

abbrev never : ℕ → Bool
never n = false

abbrev all_files : WalkOptions
all_files = record { exclude = []; extensions = []; one_file_system = true; root_filesystem = 1 }

abbrev new_walker : Walker
new_walker = record { looks = 0; jobs = []; errors = []; files_discovered = 0; visited = [] }

one_directory-HasDirectories : HasDirectories one_directory never all_files (root ∷ []) root
unfolding contains bytes_eq
one_directory-HasDirectories = record {
  shown = λ p es e. All-any _ es (λ x h. refl);
  linked_to = λ p q info e d k. refl;
  at_root = λ q k. refl;
}

walk_with_symlinks-Ended_example :
    Ended one_directory never all_files
      (root ∷ [])
      root
      one_directory-HasDirectories
      1
      (walk_with_symlinks one_directory never all_files 2 root root new_walker)
walk_with_symlinks-Ended_example =
    walk_with_symlinks-Ended one_directory never all_files (root ∷ []) root
      one_directory-HasDirectories root new_walker refl

abbrev jobs_of : Option (Bool × Walker) → List Bytes
jobs_of none = []
jobs_of (some (b, w)) = w.jobs

one_job :
    jobs_of (walk_with_symlinks one_directory never all_files 2 root root new_walker)
    ≡ codes "a.pem" ∷ []
unfolding walk_with_symlinks
one_job = refl

new_walker-IsSound : IsSound one_directory never all_files new_walker
new_walker-IsSound = record { admitted = tt; counted = refl }

walk_with_symlinks-EndsSound_example :
    EndsSound one_directory never all_files
      (walk_with_symlinks one_directory never all_files 2 root root new_walker)
walk_with_symlinks-EndsSound_example =
    walk_with_symlinks-EndsSound one_directory never all_files (root ∷ []) root
      one_directory-HasDirectories root new_walker refl new_walker-IsSound

abbrev same_path : Bytes → Bytes → Result Bytes
same_path a b = ok b

abbrev a_file : Shown
a_file = shown (record {
  name = codes "a.pem";
  is_symlink = false;
  is_dir = false;
  is_regular = true;
  info = ok plain_file;
})

visit_without_symlinks-IsSound_example :
    IsSound one_directory never all_files
      (visit_without_symlinks one_directory never all_files same_path root root
        (codes "a.pem")
        a_file
        new_walker).1
visit_without_symlinks-IsSound_example =
    visit_without_symlinks-IsSound one_directory never all_files same_path root root (codes "a.pem")
      a_file new_walker new_walker-IsSound
