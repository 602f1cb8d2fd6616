-- ===== src/Scanner/Walk/Sound.antt =====
-- What a walk of internal/scanner/scanner.go queues: files that the extensions admit, each of them
-- counted.
use certfinder.Base.Lists.{All, All-append}
use certfinder.Base.{
  ℕ, ◌≡◌, Bool, true, false, not, Option, none, some, [], ◌∷◌, Bytes, length, length-append,
  if-both, arith, GoError, Result, ok, err,
}
use certfinder.Scanner.Paths.{matches_extension}
use certfinder.Scanner.Walk.{
  FileInfo, DirEntry, FileSystem, WalkOptions, Walker, look, report_error, queue_path,
  on_filesystem, info_on_root_filesystem, entry_info, entry_on_root_filesystem, is_wanted,
}

module _ (fs : FileSystem) (done : ℕ → Bool) (options : WalkOptions) where
  abbrev pub Admitted : Bytes → Type 0
  Admitted path = matches_extension fs.ext path options.extensions ≡ true

  pub record IsSound (w : Walker) : Type 0 where
    pub admitted : All Admitted w.jobs
    pub counted : w.files_discovered ≡ length w.jobs

  pub look-IsSound : (w : Walker) → IsSound w → IsSound (look fs done options w)
  look-IsSound w h = record { admitted = h.admitted; counted = h.counted }

  pub report_error-IsSound :
      (path : Bytes) (e : GoError) (w : Walker)
      → IsSound w
      → IsSound (report_error fs done options path e w).1
  unfolding report_error
  report_error-IsSound path e w h =
      if-both (λ (x : Bool × Walker). IsSound x.1) (done w.looks) _ _ (look-IsSound w h)
        (record { admitted = h.admitted; counted = h.counted })

  pub queue_path-IsSound :
      (path : Bytes) (w : Walker)
      → Admitted path
      → IsSound w
      → IsSound (queue_path fs done options path w).1
  unfolding queue_path
  queue_path-IsSound path w m h =
      if-both (λ (x : Bool × Walker). IsSound x.1) (done w.looks) _ _
        (record { admitted = h.admitted; counted = omega (arith, h.counted) })
        (record {
          admitted = All-append Admitted w.jobs (path ∷ []) h.admitted (m, tt);
          counted = omega (arith, h.counted, length-append w.jobs (path ∷ []));
        })

  on_filesystem-IsSound :
      (path : Bytes) (w : Walker) (f : Option ℕ)
      → IsSound w
      → IsSound (on_filesystem fs done options path w f).1
  unfolding on_filesystem
  on_filesystem-IsSound path w none h = report_error-IsSound path _ w h
  on_filesystem-IsSound path w (some f) h = h

  pub info_on_root_filesystem-IsSound :
      (path : Bytes) (info : FileInfo) (w : Walker)
      → IsSound w
      → IsSound (info_on_root_filesystem fs done options path info w).1
  unfolding info_on_root_filesystem
  info_on_root_filesystem-IsSound path info w h =
      if-both (λ (x : Bool × Walker). IsSound x.1) (not options.one_file_system) _ _ h
        (on_filesystem-IsSound path w info.filesystem h)

  entry_info-IsSound :
      (path : Bytes) (w : Walker) (r : Result FileInfo)
      → IsSound w
      → IsSound (entry_info fs done options path w r).1
  unfolding entry_info
  entry_info-IsSound path w (err e) h = report_error-IsSound path e w h
  entry_info-IsSound path w (ok info) h = info_on_root_filesystem-IsSound path info w h

  pub entry_on_root_filesystem-IsSound :
      (path : Bytes) (e : DirEntry) (w : Walker)
      → IsSound w
      → IsSound (entry_on_root_filesystem fs done options path e w).1
  unfolding entry_on_root_filesystem
  entry_on_root_filesystem-IsSound path e w h =
      if-both (λ (x : Bool × Walker). IsSound x.1) (not options.one_file_system) _ _ h
        (entry_info-IsSound path w e.info h)

  pub is_wanted-Admitted :
      (is_regular : Bool) (display : Bytes)
      → is_wanted fs done options is_regular display ≡ true
      → Admitted display
  unfolding is_wanted
  is_wanted-Admitted true display h = h
  is_wanted-Admitted false display h = absurd (cc)
