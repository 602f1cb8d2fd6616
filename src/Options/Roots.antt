-- ===== src/Options/Roots.antt =====
-- The trust anchors of `-root`: `loadVerificationRoots` of main.go. `scan` is a scan of one path.
pub mod Loading
use certfinder.Base.{
  ℕ, Bool, true, false, Option, none, some, List, [], ◌∷◌, ◌++◌, map, Bytes, GoError, errorf, wrap,
  text, join_errors, Result, ok, err, ◌>>=◌, if◌then◌else◌,
}
use certfinder.Model.{Certificate}
use certfinder.Options.Strings.{contains}
use certfinder.Scanner.Report.{Report, FileError}

-- The certificates so far, with the fingerprints that were seen.
abbrev pub Loaded : Type 0 → Type 0
Loaded X = List (Certificate X) × List Bytes

abbrev pub file_error : FileError → GoError
file_error e = wrap "%s: %v" (text e.path ∷ []) e.error

-- A report of a root that is refused
abbrev pub refuse_errors : Bytes → Option GoError → Option GoError
refuse_errors path none = none
refuse_errors path (some e) = some (wrap "scan %q: %w" (text path ∷ []) e)

abbrev pub is_nil : {A : Type 0} → List A → Bool
is_nil [] = true
is_nil (x ∷ xs) = false

module _ {X : Type 0} where
  unfoldable pub add_root : Certificate X → Loaded X → Loaded X
  unfolding contains
  add_root c (cs, seen) =
      if contains seen c.sha256_fingerprint
      then (cs, seen)
      else (cs ++ c ∷ [], c.sha256_fingerprint ∷ seen)

  unfoldable pub add_roots : List (Certificate X) → Loaded X → Loaded X
  unfolding add_root
  add_roots [] s = s
  add_roots (c ∷ cs) s = add_roots cs (add_root c s)

  unfoldable pub take_report : Bytes → Report X → Loaded X → Result (Loaded X)
  unfolding add_roots join_errors
  take_report path r s = elim (refuse_errors path (join_errors (map file_error r.errors))) [
    | some e ↦ err e
    | none ↦
        if is_nil r.pkcs12_encrypted
        then (if is_nil r.certificates
            then err (errorf "scan %q: no certificates found" (text path ∷ []))
            else ok (add_roots r.certificates s))
        else err (errorf "scan %q: contains encrypted PKCS#12 content" (text path ∷ []))
  ]

  abbrev pub after_scan : Bytes → Result (Report X) → Loaded X → Result (Loaded X)
  after_scan path (ok r) s = take_report path r s
  after_scan path (err e) s = err (wrap "scan %q: %w" (text path ∷ []) e)

  unfoldable pub load_paths :
      (Bytes → Result (Report X)) → List Bytes → Loaded X → Result (Loaded X)
  unfolding take_report
  load_paths scan [] s = ok s
  load_paths scan (p ∷ ps) s = after_scan p (scan p) s >>= λ t. load_paths scan ps t

  abbrev pub certificates_of : Result (Loaded X) → Result (List (Certificate X))
  certificates_of (ok s) = ok s.0
  certificates_of (err e) = err e

  unfoldable pub load_verification_roots :
      (Bytes → Result (Report X)) → List Bytes → Result (List (Certificate X))
  unfolding load_paths
  load_verification_roots scan paths = certificates_of (load_paths scan paths ([], []))
