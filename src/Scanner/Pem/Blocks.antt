-- ===== src/Scanner/Pem/Blocks.antt =====
-- The loop of `parsePEM` of internal/scanner/scanner.go ends, and finds the certificates of the
-- file's blocks.
use mathlib.Core.Path.{subst}
use certfinder.Base.Text.{codes, bytes_eq, bytes_eq_iff}
use certfinder.Base.{
  ℕ, zero, suc, ◌+◌, ◌≤◌, ◌<◌, ◌≡◌, ◌≢◌, ◌⊎◌, refl, sym, ap, arith, true, false, Option, none, some,
  Bool-cases, if-true, if-false, inl, inr, List, [], ◌∷◌, ◌++◌, Bytes, length, drop, length-append,
}
use certfinder.Options.Strings.{has_prefix}
use certfinder.Scanner.Pem.{
  Block, pem_begin, from_begin, with_parsed, with_block, decoded, at_begin, parse_pem_from,
  parse_pem,
}

-- The line that begins a block of type CERTIFICATE stands behind `before`, and nowhere earlier.
pub record IsFirst (input before tail : Bytes) : Type 0 where
  split : input ≡ before ++ (pem_begin ++ tail)
  earliest : (u v : Bytes) → input ≡ u ++ (pem_begin ++ v) → length before ≤ length u

has_prefix-append : (p v : Bytes) → has_prefix (p ++ v) p ≡ true
unfolding has_prefix
has_prefix-append [] [] = refl
has_prefix-append [] (c ∷ v) = refl
has_prefix-append (c ∷ p) v = ground (arith, has_prefix-append p v)

has_prefix-drop : (s p : Bytes) → has_prefix s p ≡ true → s ≡ p ++ drop (length p) s
unfolding has_prefix
has_prefix-drop s [] h = refl
has_prefix-drop [] (c ∷ p) h = absurd (cc)
has_prefix-drop (x ∷ s) (c ∷ p) h = ground (arith, has_prefix-drop s p)

-- A prefix that does not stand at the front stands behind the first byte.
behind_first :
    (p u v s : Bytes) (c : ℕ)
    → has_prefix (c ∷ s) p ≡ false
    → c ∷ s ≡ u ++ (p ++ v)
    → (u' : Bytes) × (length u ≡ length u' + 1) × (s ≡ u' ++ (p ++ v))
behind_first p [] v s c h e =
    absurd (let k = has_prefix-append p v in let l : has_prefix (c ∷ s) p ≡ true = rw e k in cc)
behind_first p (d ∷ u) v s c h e = (u, omega arith, ap (drop 1) e)

-- What `from_begin` has found.
abbrev Located : Bytes → Option Bytes → Type 0
Located input none = (u v : Bytes) → input ≢ u ++ (pem_begin ++ v)
Located input (some bytes) =
    (before : Bytes) × (bytes ≡ pem_begin ++ drop (length pem_begin) bytes)
    × IsFirst input before (drop (length pem_begin) bytes)

Located-cons :
    (c : ℕ) (s : Bytes) (o : Option Bytes)
    → has_prefix (c ∷ s) pem_begin ≡ false
    → Located s o
    → Located (c ∷ s) o
Located-cons c s none h l =
    λ u v e. let (u', k, e') = behind_first pem_begin u v s c h e in l u' v e'
Located-cons c s (some bytes) h (before, e, f) = (
  c ∷ before,
  e,
  record {
    split = ap (λ t. c ∷ t) f.split;
    earliest = λ u v k.
        let (u', m, k') = behind_first pem_begin u v s c h k in omega (arith, f.earliest u' v k');
  },
)

not_in_nothing : (u v : Bytes) → [] ≢ u ++ (pem_begin ++ v)
not_in_nothing [] v e = cc
not_in_nothing (d ∷ u) v e = cc

-- What stands at the line is no longer than the input, and what stands behind it is shorter.
at_line-length :
    (input before tail : Bytes)
    → IsFirst input before tail
    → (length (pem_begin ++ tail) ≤ length input) × (length tail < length input)
at_line-length input before tail f =
    let e = ap length f.split in
    let n : length pem_begin ≡ 27 = refl in
    let a = length-append before (pem_begin ++ tail) in
    let b = length-append pem_begin tail in (omega arith, omega arith)

from_begin-Located : (input : Bytes) → Located input (from_begin input)
unfolding from_begin
from_begin-Located [] = not_in_nothing
from_begin-Located (c ∷ s) = elim (Bool-cases (has_prefix (c ∷ s) pem_begin)) [
  | inl y ↦
      if-true (Located (c ∷ s)) (has_prefix (c ∷ s) pem_begin) (some (c ∷ s)) (from_begin s) y (
        [],
        has_prefix-drop (c ∷ s) pem_begin y,
        record { split = has_prefix-drop (c ∷ s) pem_begin y; earliest = λ u v e. omega arith },
      )
  | inr z ↦
      if-false (Located (c ∷ s)) (has_prefix (c ∷ s) pem_begin) (some (c ∷ s)) (from_begin s) z
        (Located-cons c s (from_begin s) z (from_begin-Located s))
]

module _ {X : Type 0} (decode : Bytes → Option (Block × Bytes)) (parse : Bytes → Option X) where
  -- The certificates of an input, from front to back: pem.Decode is asked at the first line that
  -- begins a certificate, and then what it leaves is searched, or what stands behind this line if it
  -- finds no block.
  pub data Found : Bytes → List X → Type 0 where
    no_line : (input : Bytes) → ((u v : Bytes) → input ≢ u ++ (pem_begin ++ v)) → Found input []
    no_block :
        (input before tail : Bytes) (xs : List X)
        → IsFirst input before tail
        → decode (pem_begin ++ tail) ≡ none
        → Found tail xs
        → Found input xs
    no_certificate :
        (input before tail rest : Bytes) (block : Block) (xs : List X)
        → IsFirst input before tail
        → decode (pem_begin ++ tail) ≡ some (block, rest)
        → (block.kind ≢ codes "CERTIFICATE") ⊎ (parse block.content ≡ none)
        → Found rest xs
        → Found input xs
    certificate :
        (input before tail rest : Bytes) (block : Block) (x : X) (xs : List X)
        → IsFirst input before tail
        → decode (pem_begin ++ tail) ≡ some (block, rest)
        → block.kind ≡ codes "CERTIFICATE"
        → parse block.content ≡ some x
        → Found rest xs
        → Found input (x ∷ xs)

  -- The loop has ended, with the certificates of the input.
  abbrev pub IsFound : Bytes → Option (List X) → Type 0
  IsFound input none = ⊥
  IsFound input (some xs) = Found input xs

  module _ (input before tail rest : Bytes) (block : Block) (first : IsFirst input before tail)
      (read : decode (pem_begin ++ tail) ≡ some (block, rest)) where
    with_parsed-IsFound :
        (o : Option X) (r : Option (List X))
        → block.kind ≡ codes "CERTIFICATE"
        → parse block.content ≡ o
        → IsFound rest r
        → IsFound input (with_parsed decode parse o r)
    with_parsed-IsFound none none k e h = h
    with_parsed-IsFound none (some xs) k e h =
        no_certificate input before tail rest block xs first read (inr e) h
    with_parsed-IsFound (some x) none k e h = h
    with_parsed-IsFound (some x) (some xs) k e h =
        certificate input before tail rest block x xs first read k e h

    skipped :
        (r : Option (List X)) → block.kind ≢ codes "CERTIFICATE" → IsFound rest r → IsFound input r
    skipped none k h = h
    skipped (some xs) k h = no_certificate input before tail rest block xs first read (inl k) h

    with_block-IsFound :
        (r : Option (List X)) → IsFound rest r → IsFound input (with_block decode parse block r)
    unfolding with_block
    with_block-IsFound r h = elim (Bool-cases (bytes_eq block.kind (codes "CERTIFICATE"))) [
      | inl y ↦ if-true (IsFound input) (bytes_eq block.kind (codes "CERTIFICATE")) _ _ y (
          with_parsed-IsFound (parse block.content) r
            ((bytes_eq_iff block.kind (codes "CERTIFICATE")).0 y) refl h)
      | inr z ↦ if-false (IsFound input) (bytes_eq block.kind (codes "CERTIFICATE")) _ _ z (
          skipped r
            (λ e. absurd (let k = (bytes_eq_iff block.kind (codes "CERTIFICATE")).1 e in cc)) h)
    ]

  skip_line :
      (input before tail : Bytes) (r : Option (List X))
      → IsFirst input before tail
      → decode (pem_begin ++ tail) ≡ none
      → IsFound tail r
      → IsFound input r
  skip_line input before tail none first e h = h
  skip_line input before tail (some xs) first e h = no_block input before tail xs first e h

  -- pem.Decode takes bytes off its input where it finds a block.
  module _
      (takes : (bytes : Bytes) (block : Block) (rest : Bytes)
        → decode bytes ≡ some (block, rest)
        → length rest < length bytes) where
    decoded-IsFound :
        (again : Bytes → Option (List X)) (input before tail : Bytes) (o : Option (Block × Bytes))
        → IsFirst input before tail
        → decode (pem_begin ++ tail) ≡ o
        → ((shorter : Bytes) → length shorter < length input → IsFound shorter (again shorter))
        → IsFound input (decoded decode parse again (pem_begin ++ tail) o)
    unfolding decoded
    decoded-IsFound again input before tail none first e f =
        skip_line input before tail (again tail) first e
          (f tail (at_line-length input before tail first).1)
    decoded-IsFound again input before tail (some (block, rest)) first e f =
        with_block-IsFound input before tail rest block first e (again rest) (
          f rest (
            let n = (at_line-length input before tail first).0 in
            let m = takes (pem_begin ++ tail) block rest e in omega arith))

    at_begin-IsFound :
        (again : Bytes → Option (List X)) (input : Bytes) (o : Option Bytes)
        → Located input o
        → ((shorter : Bytes) → length shorter < length input → IsFound shorter (again shorter))
        → IsFound input (at_begin decode parse again o)
    unfolding at_begin
    at_begin-IsFound again input none l f = no_line input l
    at_begin-IsFound again input (some bytes) (before, e, first) f =
        let tail = drop (length pem_begin) bytes in
        subst (λ b. IsFound input (decoded decode parse again b (decode b))) (sym e)
          (decoded-IsFound again input before tail (decode (pem_begin ++ tail)) first refl f)

    parse_pem_from-IsFound :
        (fuel : ℕ) (input : Bytes)
        → length input < fuel
        → IsFound input (parse_pem_from decode parse fuel input)
    unfolding parse_pem_from
    parse_pem_from-IsFound zero input h = absurd (omega arith)
    parse_pem_from-IsFound (suc fuel) input h =
        at_begin-IsFound (parse_pem_from decode parse fuel) input (from_begin input)
          (from_begin-Located input)
          (λ shorter k. parse_pem_from-IsFound fuel shorter (omega arith))

    -- If pem.Decode takes bytes off its input where it finds a block, `parsePEM` ends for any bytes,
    -- with these certificates in order: where the first line that begins a certificate stands,
    -- pem.Decode is asked; a block of type CERTIFICATE that x509 parses gives one certificate, and
    -- the search goes on in what pem.Decode leaves, or behind the line where it finds no block.
    pub parse_pem-IsFound : (bytes : Bytes) → IsFound bytes (parse_pem decode parse bytes)
    unfolding parse_pem
    parse_pem-IsFound bytes = parse_pem_from-IsFound (length bytes + 1) bytes (omega arith)
