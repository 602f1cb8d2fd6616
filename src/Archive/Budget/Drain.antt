-- ===== src/Archive/Budget/Drain.antt =====
-- `io.ReadAll` over the budget reader of internal/scanner/archive.go, against a description of what
-- the limits leave of the bytes of a stream.
use certfinder.Archive.Budget.{
  ReadError, eof, failed, end_of, Source, limit_error, budget_read, limited_read, read_all, rounds,
}
use certfinder.Base.{
  ℕ, zero, suc, ◌+◌, ◌-◌, ◌≤◌, ◌<◌, ◌≡◌, ◌≢◌, refl, sym, ap, ◌∙◌, ◌&&◌, Option, none, some, [], ◌∷◌,
  ◌++◌, Bytes, length, length-append, take, drop, append_assoc, leb, ltb, if◌then◌else◌, arith,
  GoError,
}
use certfinder.Archive.Budget.Rounds.{contents, quota, Round, more, ended, over, budget_read-Round}

-- What is read of the bytes `xs` with `q` bytes of budget: all of them and the end of the stream, or
-- as many as the budget has and its error, or as many as the `io.LimitReader` admits.
unfoldable pub plain : ℕ → ℕ → Option GoError → Bytes → Bytes × Option GoError
plain max_bytes q f xs =
    if leb (length xs) q then (xs, f) else (take q xs, some (limit_error max_bytes))

unfoldable pub drained : ℕ → ℕ → Option GoError → Option ℕ → Bytes → Bytes × Option GoError
unfolding plain
drained max_bytes q f none xs = plain max_bytes q f xs
drained max_bytes q f (some k) xs =
    if leb k (length xs) && leb k q then (take k xs, none) else plain max_bytes q f xs

abbrev lower : Option ℕ → ℕ → Option ℕ
lower none n = none
lower (some k) n = some (k - n)

abbrev Admits : Option ℕ → ℕ → Type 0
Admits none n = Unit
Admits (some k) n = n ≤ k

take-append :
    (n : ℕ) (xs ys : Bytes) → length xs ≤ n → take n (xs ++ ys) ≡ xs ++ take (n - length xs) ys
take-append n [] ys h = let e : n - 0 ≡ n = omega arith in rw e
take-append zero (x ∷ xs) ys h = absurd (omega arith)
take-append (suc n) (x ∷ xs) ys h =
    let e : suc n - suc (length xs) ≡ n - length xs = omega arith in
    rw e (ap (λ zs. x ∷ zs) (take-append n xs ys (omega arith)))

pub plain-more :
    (max_bytes q : ℕ) (f : Option GoError) (got xs : Bytes)
    → length got ≤ q
    → plain max_bytes q f (got ++ xs) ≡ (
      got ++ (plain max_bytes (q - length got) f xs).0,
      (plain max_bytes (q - length got) f xs).1,
    )
unfolding plain
plain-more max_bytes q f got xs h = ground (arith, length-append got xs, take-append q got xs h)

drained-more :
    (max_bytes q : ℕ) (f : Option GoError) (l : Option ℕ) (got xs : Bytes)
    → length got ≤ q
    → Admits l (length got)
    → drained max_bytes q f l (got ++ xs) ≡ (
      got ++ (drained max_bytes (q - length got) f (lower l (length got)) xs).0,
      (drained max_bytes (q - length got) f (lower l (length got)) xs).1,
    )
unfolding drained
drained-more max_bytes q f none got xs h k = unfold plain in plain-more max_bytes q f got xs h
drained-more max_bytes q f (some k) got xs h k' =
    ground (arith, length-append got xs, take-append k got xs k', take-append q got xs h)

drop-append : (xs ys zs : Bytes) → drop (length (xs ++ ys)) (xs ++ zs) ≡ drop (length ys) zs
drop-append [] ys zs = refl
drop-append (x ∷ xs) ys zs = drop-append xs ys zs

-- A finished `io.ReadAll`: what it returned, counted in `bytes_read`, and what is left if all went well.
pub record Finished (s : Source) (out : Bytes) (d : Bytes × Option GoError)
    (o : Option (Bytes × Option GoError × Source)) : Type 0 where
  pub last : Source
  pub returned : o ≡ some (out ++ d.0, d.1, last)
  pub counted : last.bytes_read ≡ s.bytes_read + length d.0
  pub left : d.1 ≡ none → contents last ≡ drop (length d.0) (contents s)
  pub same_failure : d.1 ≡ none → last.stream.failure ≡ s.stream.failure

abbrev pub drain : ℕ → Source → Bytes × Option GoError
drain max_bytes s = drained max_bytes (quota max_bytes s) s.stream.failure s.limit (contents s)

-- What `io.ReadAll` does after a `Read`.
abbrev after :
    ℕ → ℕ → Bytes → Bytes → Option ReadError → Source → Option (Bytes × Option GoError × Source)
after fuel max_bytes out got e s' = elim e [
  | none ↦ read_all fuel max_bytes s' (out ++ got)
  | some eof ↦ some (out ++ got, none, s')
  | some (failed x) ↦ some (out ++ got, some x, s')
]

module _ (max_bytes : ℕ) where
  -- After some bytes were read, the rest finishes the whole.
  finish_more :
      (s s' : Source) (out got : Bytes) (o : Option (Bytes × Option GoError × Source))
      → contents s ≡ got ++ contents s'
      → s'.bytes_read ≡ s.bytes_read + length got
      → length got ≤ quota max_bytes s
      → Admits s.limit (length got)
      → s'.limit ≡ lower s.limit (length got)
      → s'.stream.failure ≡ s.stream.failure
      → Finished s' (out ++ got) (drain max_bytes s') o
      → Finished s out (drain max_bytes s) o
  finish_more s s' out got o e b q a l f h =
      let q' : quota max_bytes s - length got ≡ quota max_bytes s' = omega arith in
      let split : drain max_bytes s ≡ (got ++ (drain max_bytes s').0, (drain max_bytes s').1) =
        rw (e, f, l, ← q')
          (drained-more max_bytes (quota max_bytes s) s.stream.failure s.limit got (contents s') q
            a) in
      rw split (record {
        last = h.last;
        returned = h.returned ∙ rw append_assoc;
        counted = omega (arith, h.counted, b, length-append got (drain max_bytes s').0);
        left = λ n. h.left n ∙ rw e (sym (drop-append got (drain max_bytes s').0 (contents s')));
        same_failure = λ n. h.same_failure n ∙ f;
      })

  -- `io.LimitedReader` counts what it let through.
  abbrev lowered : Option ℕ → Source → ℕ → Source
  lowered none s n = s
  lowered (some k) s n = record s { limit = some (k - n) }

  lowered-limit :
      (l : Option ℕ) (s s' : Source) (n : ℕ)
      → s.limit ≡ l
      → s'.limit ≡ s.limit
      → (lowered l s' n).limit ≡ lower s.limit n
  lowered-limit none s s' n e h = h ∙ e ∙ rw e
  lowered-limit (some k) s s' n e h = rw e

  lowered-rest :
      (l : Option ℕ) (s' : Source) (n : ℕ)
      → ((lowered l s' n).stream ≡ s'.stream) × ((lowered l s' n).bytes_read ≡ s'.bytes_read)
  lowered-rest none s' n = (refl, refl)
  lowered-rest (some k) s' n = (refl, refl)

  Admits-le : (l : Option ℕ) (m n : ℕ) → n ≤ m → Admits l m → Admits l n
  Admits-le none m n h a = tt
  Admits-le (some k) m n h a = omega arith

  drained-nil :
      (q : ℕ) (f : Option GoError) (l : Option ℕ)
      → l ≢ some 0
      → drained max_bytes q f l [] ≡ ([], f)
  unfolding drained
  drained-nil q f none h = ground arith
  drained-nil q f (some zero) h = absurd (h refl)
  drained-nil q f (some (suc k)) h = ground arith

  drained-over :
      (f : Option GoError) (l : Option ℕ) (xs : Bytes)
      → l ≢ some 0
      → xs ≢ []
      → drained max_bytes 0 f l xs ≡ ([], some (limit_error max_bytes))
  unfolding drained
  drained-over f l [] h k = absurd (k refl)
  drained-over f none (x ∷ xs) h k = ground arith
  drained-over f (some zero) (x ∷ xs) h k = absurd (h refl)
  drained-over f (some (suc n)) (x ∷ xs) h k = ground arith

  after-end :
      (fuel : ℕ) (out got : Bytes) (e : Option ReadError) (t : Source) (f : Option GoError)
      → e ≡ some (end_of f)
      → after fuel max_bytes out got e t ≡ some (out ++ got, f, t)
  after-end fuel out got e t none h = rw h
  after-end fuel out got e t (some x) h = rw h

  budget_read-limit : (n : ℕ) (s : Source) → (budget_read max_bytes n s).2.limit ≡ s.limit
  unfolding budget_read
  budget_read-limit n s = ground arith

  after-Finished :
      (m fuel : ℕ) (s : Source) (out : Bytes) (l : Option ℕ) (got : Bytes) (e : Option ReadError)
      (s' : Source)
      → s.limit ≡ l
      → l ≢ some 0
      → Admits l m
      → s'.limit ≡ s.limit
      → ((t : Source) (out' : Bytes)
          → rounds t.stream.pieces < rounds s.stream.pieces
          → Finished t out' (drain max_bytes t) (read_all fuel max_bytes t out'))
      → Round max_bytes m s (got, e, s')
      → Finished s out
          (drain max_bytes s)
          (after fuel max_bytes out got e (lowered l s' (length got)))
  after-Finished m fuel s out l got e s' el z a keep ih (more going split b q n g f) =
      let t = lowered l s' (length got) in
      let (st, br) = lowered-rest l s' (length got) in
      rw going (
        finish_more s t out got _ (rw st split) (br ∙ b) q (rw el (Admits-le l m (length got) n a))
          (lowered-limit l s s' (length got) el keep) (rw st f) (ih t (out ++ got) (rw st g)))
  after-Finished m fuel s out l got e s' el z a keep ih (ended stopped nothing empty gone b g) =
      let t = lowered l s' (length got) in
      let (st, br) = lowered-rest l s' (length got) in
      let d : drain max_bytes s ≡ ([], s.stream.failure) =
        rw (empty, el) (drained-nil (quota max_bytes s) s.stream.failure l z) in
      rw d (record {
        last = t;
        returned = after-end fuel out got e t s.stream.failure stopped ∙ rw nothing;
        counted = omega (arith, br, b);
        left = λ _. rw (st, empty) gone;
        same_failure = λ _. rw st g;
      })
  after-Finished m fuel s out l got e s' el z a keep ih (over stopped nothing q ne b) =
      let t = lowered l s' (length got) in
      let (st, br) = lowered-rest l s' (length got) in
      let d : drain max_bytes s ≡ ([], some (limit_error max_bytes)) =
        rw (q, el) (drained-over s.stream.failure l (contents s) z ne) in
      rw d (record {
        last = t;
        returned = after-end fuel out got e t (some (limit_error max_bytes)) stopped ∙ rw nothing;
        counted = omega (arith, br, b);
        left = λ n. cc;
        same_failure = λ n. cc;
      })

  drained-zero :
      (q : ℕ) (f : Option GoError) (xs : Bytes) → drained max_bytes q f (some 0) xs ≡ ([], none)
  unfolding drained
  drained-zero q f xs = ground arith

  limited_read-after :
      (fuel : ℕ) (s : Source) (out : Bytes) (l : Option ℕ)
      → s.limit ≡ l
      → ((t : Source) (out' : Bytes)
          → rounds t.stream.pieces < rounds s.stream.pieces
          → Finished t out' (drain max_bytes t) (read_all fuel max_bytes t out'))
      → (let r = limited_read max_bytes 512 s l in
          Finished s out (drain max_bytes s) (after fuel max_bytes out r.0 r.1 r.2))
  unfolding limited_read
  limited_read-after fuel s out none e ih =
      let r = budget_read max_bytes 512 s in
      after-Finished 512 fuel s out none r.0 r.1 r.2 e (λ x. cc) tt (budget_read-limit 512 s) ih
        (budget_read-Round max_bytes 512 s (omega arith))
  limited_read-after fuel s out (some zero) e ih =
      let d : drain max_bytes s ≡ ([], none) =
        rw e (drained-zero (quota max_bytes s) s.stream.failure (contents s)) in
      rw d (record {
        last = s;
        returned = refl;
        counted = omega arith;
        left = λ _. refl;
        same_failure = λ _. refl;
      })
  limited_read-after fuel s out (some (suc k)) e ih =
      let n = if ltb (suc k) 512 then suc k else 512 in
      let r = budget_read max_bytes n s in
      after-Finished n fuel s out (some (suc k)) r.0 r.1 r.2 e (λ x. cc) (ground arith)
        (budget_read-limit n s) ih (budget_read-Round max_bytes n s (ground arith))

  -- With fuel for the stream, `io.ReadAll` ends, and returns what the limits leave of its bytes.
  pub read_all-Finished :
      (fuel : ℕ) (s : Source) (out : Bytes)
      → rounds s.stream.pieces < fuel
      → Finished s out (drain max_bytes s) (read_all fuel max_bytes s out)
  unfolding read_all
  read_all-Finished zero s out h = absurd (omega arith)
  read_all-Finished (suc fuel) s out h =
      limited_read-after fuel s out s.limit refl
        (λ t out' k. read_all-Finished fuel t out' (omega arith))
