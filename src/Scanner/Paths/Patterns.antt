-- ===== src/Scanner/Paths/Patterns.antt =====
-- The exclude patterns that `normalizeExcludePatterns` of internal/scanner/scanner.go lets through.
use certfinder.Base.{
  ◌≡◌, ◌≢◌, refl, Bool, false, ◌||◌, Option, none, some, List, [], ◌∷◌, Bytes, GoError, Result, ok,
  Post, Post-ok, Post-ok, All, All-append, Bool-cases, inl, inr, arith,
}
use certfinder.Options.Flags.{is_empty}
use certfinder.Options.Flags.Values.{IsDistinct, add-IsDistinct}
use certfinder.Options.Strings.{contains, add_value}
use certfinder.Scanner.Paths.{trimmed, matched_or, exclude_patterns, normalize_exclude_patterns}

module _ (is_abs : Bytes → Bool) (match_error : Bytes → Option GoError) where
  -- A relative glob.
  pub record IsPattern (p : Bytes) : Type 0 where
    has_text : p ≢ []
    relative : is_abs p ≡ false
    is_glob : match_error p ≡ none

  abbrev pub ArePatterns : List Bytes → Type 0
  ArePatterns ps = All IsPattern ps × IsDistinct ps

  is_empty-ne : (p : Bytes) → is_empty p ≡ false → p ≢ []
  is_empty-ne [] h e = cc
  is_empty-ne (c ∷ p) h e = cc

  add_value-ArePatterns :
      (ps : List Bytes) (p : Bytes) → IsPattern p → ArePatterns ps → ArePatterns (add_value ps p)
  unfolding add_value
  add_value-ArePatterns ps p h (a, d) = elim (Bool-cases (contains ps p)) [
    | inl old ↦ rw old (a, d)
    | inr new ↦ rw new (All-append IsPattern ps (p ∷ []) a (h, tt), add-IsDistinct ps p new d)
  ]

  matched_or-Post :
      (P : List Bytes → Type 0) (p : Bytes) (o : Option GoError) (r : Result (List Bytes))
      → (o ≡ none → Post P r)
      → Post P (matched_or is_abs match_error p o r)
  matched_or-Post P p none r h = h refl
  matched_or-Post P p (some e) r h = tt

  exclude_patterns-ArePatterns :
      (patterns result : List Bytes)
      → ArePatterns result
      → Post ArePatterns (exclude_patterns is_abs match_error result patterns)
  unfolding exclude_patterns
  exclude_patterns-ArePatterns [] result h = h
  exclude_patterns-ArePatterns (pattern ∷ patterns) result h =
      let p = trimmed pattern in
      elim (Bool-cases (is_empty p || is_abs p)) [
        | inl bad ↦ rw bad tt
        | inr good ↦ rw good (
            matched_or-Post ArePatterns p (match_error p) _ (λ m.
              exclude_patterns-ArePatterns patterns (add_value result p) (
                add_value-ArePatterns result p
                  (record {
                    has_text = is_empty-ne p (ground arith);
                    relative = ground arith;
                    is_glob = m;
                  })
                  h)))
      ]

  -- The patterns that `normalizeExcludePatterns` returns are relative globs, none of them empty, and
  -- each stands there once.
  pub normalize_exclude_patterns-ArePatterns :
      (patterns result : List Bytes)
      → normalize_exclude_patterns is_abs match_error patterns ≡ ok result
      → ArePatterns result
  unfolding normalize_exclude_patterns
  normalize_exclude_patterns-ArePatterns patterns result h =
      Post-ok ArePatterns h (exclude_patterns-ArePatterns patterns [] (tt, tt))
