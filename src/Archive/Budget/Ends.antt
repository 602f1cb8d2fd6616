-- ===== src/Archive/Budget/Ends.antt =====
-- The readings of an archive entry end, within the budget: `readPrefix` and `readFullEntry` of
-- internal/scanner/archive.go.
use certfinder.Archive.Budget.{Stream, Source, fuel_for, read_all}
use certfinder.Archive.Budget.Drain.{plain, drained, read_all-Finished}
use certfinder.Archive.Budget.Rounds.{contents}
use certfinder.Archive.Budget.Entry.{
  Prefix, read_prefix, read_full_entry, source, whole_prefix, limited_prefix, prefix_limit,
}
use mathlib.Core.Option
use certfinder.Base.{
  ℕ, ◌+◌, ◌-◌, ◌≤◌, ◌≡◌, refl, inl, inr, ◌==◌, leb, Option, none, some, [], ◌++◌, Bytes, length,
  length-take, length-drop, length-append, arith, GoError, Bool-cases,
}

plain-le :
    (max_bytes q : ℕ) (f : Option GoError) (xs : Bytes) → length (plain max_bytes q f xs).0 ≤ q
unfolding plain
plain-le max_bytes q f xs = ground (arith, length-take q xs)

drained-le :
    (max_bytes q : ℕ) (f : Option GoError) (l : Option ℕ) (xs : Bytes)
    → length (drained max_bytes q f l xs).0 ≤ q
unfolding drained
drained-le max_bytes q f none xs = plain-le max_bytes q f xs
drained-le max_bytes q f (some k) xs = ground (arith, length-take k xs, plain-le max_bytes q f xs)

module _ (cap : ℕ) where
  -- A finished `io.ReadAll`, and its budget
  abbrev pub Ended : ℕ → Option (Bytes × Option GoError × Source) → Type 0
  Ended b r =
      (x : Bytes × Option GoError × Source) × (r ≡ some x)
      × (b ≤ x.2.bytes_read)
      × (x.2.bytes_read ≤ cap)

  -- A finished `readPrefix`, and its budget
  abbrev pub PrefixEnded : ℕ → Option Prefix → Type 0
  PrefixEnded b r =
      (p : Prefix) × (r ≡ some p) × (b ≤ p.rest.bytes_read) × (p.rest.bytes_read ≤ cap)

  read_all-Ended :
      (l : Option ℕ) (b : ℕ) (t : Stream)
      → b ≤ cap
      → Ended b (let s = source l b t in read_all (fuel_for s) cap s [])
  read_all-Ended l b t h =
      let s = source l b t in
      let r = read_all-Finished cap (fuel_for s) s [] (omega arith) in
      let n = drained-le cap (cap - b) t.failure l (contents s) in
      (_, r.returned, omega (arith, r.counted), omega (arith, r.counted, n))

  of_whole :
      (b : ℕ) (r : Option (Bytes × Option GoError × Source))
      → Ended b r
      → PrefixEnded b (Option.map whole_prefix r)
  of_whole b r (x, e, n, m) = rw e (whole_prefix x, refl, n, m)

  limited_prefix-rest :
      (max_bytes : ℕ) (x : Bytes × Option GoError × Source)
      → (limited_prefix max_bytes x).rest ≡ x.2
  limited_prefix-rest max_bytes (xs, some e, s) = refl
  limited_prefix-rest max_bytes (xs, none, s) = elim (Bool-cases (leb (length xs) max_bytes)) [
    | inl y ↦ rw y refl
    | inr n ↦ rw n refl
  ]

  of_limited :
      (max_bytes b : ℕ) (r : Option (Bytes × Option GoError × Source))
      → Ended b r
      → PrefixEnded b (Option.map (limited_prefix max_bytes) r)
  of_limited max_bytes b r (x, e, n, m) =
      let q = limited_prefix-rest max_bytes x in
      rw e (limited_prefix max_bytes x, refl, rw q n, rw q m)

  -- From within the budget, `readPrefix` ends for any reader, and leaves `bytesRead` no smaller and
  -- within the budget.
  pub read_prefix-Ended :
      (max_bytes b : ℕ) (t : Stream) → b ≤ cap → PrefixEnded b (read_prefix max_bytes cap b t)
  unfolding read_prefix
  read_prefix-Ended max_bytes b t h = elim (Bool-cases (max_bytes == 0)) [
    | inl z ↦ rw z (of_whole b _ (read_all-Ended none b t h))
    | inr z ↦ rw z (of_limited max_bytes b _ (read_all-Ended (some (prefix_limit max_bytes)) b t h))
  ]

  pub read_full_entry-Ended :
      (prefix overflow : Bytes) (b : ℕ) (t : Stream)
      → b ≤ cap
      → Ended b (read_full_entry cap prefix overflow b t)
  unfolding read_full_entry
  read_full_entry-Ended prefix overflow b t h =
      let (x, e, n, m) = read_all-Ended none b t h in
      rw e ((prefix ++ overflow ++ x.0, x.1, x.2), refl, n, m)

  -- A finished `io.ReadAll` that counted the bytes it returned
  abbrev Counted : ℕ → Option (Bytes × Option GoError × Source) → Type 0
  Counted b r =
      (x : Bytes × Option GoError × Source) × (r ≡ some x) × (x.2.bytes_read ≡ b + length x.0)

  read_all-Counted :
      (l : Option ℕ) (b : ℕ) (t : Stream)
      → Counted b (let s = source l b t in read_all (fuel_for s) cap s [])
  read_all-Counted l b t =
      let s = source l b t in
      let r = read_all-Finished cap (fuel_for s) s [] (omega arith) in (_, r.returned, r.counted)

  abbrev pub PrefixCounted : ℕ → Option Prefix → Type 0
  PrefixCounted b r =
      (p : Prefix) × (r ≡ some p)
      × (p.rest.bytes_read ≡ b + (length p.data_bytes + length p.overflow))

  whole-Counted :
      (b : ℕ) (r : Option (Bytes × Option GoError × Source))
      → Counted b r
      → PrefixCounted b (Option.map whole_prefix r)
  whole-Counted b r (x, e, c) = rw e (whole_prefix x, refl, omega arith)

  limited_prefix-length :
      (max_bytes : ℕ) (x : Bytes × Option GoError × Source)
      → (let p = limited_prefix max_bytes x in length p.data_bytes + length p.overflow ≡ length x.0)
  limited_prefix-length max_bytes (xs, some e, s) = omega arith
  limited_prefix-length max_bytes (xs, none, s) = elim (Bool-cases (leb (length xs) max_bytes)) [
    | inl y ↦ rw y (omega arith)
    | inr n ↦ rw n (omega (arith, length-take max_bytes xs, length-drop max_bytes xs))
  ]

  limited-Counted :
      (max_bytes b : ℕ) (r : Option (Bytes × Option GoError × Source))
      → Counted b r
      → PrefixCounted b (Option.map (limited_prefix max_bytes) r)
  limited-Counted max_bytes b r (x, e, c) =
      let q = limited_prefix-rest max_bytes x in
      let n = limited_prefix-length max_bytes x in
      rw e (limited_prefix max_bytes x, refl, rw (q, n) c)

  -- `readPrefix` counts the bytes that it has from the reader.
  pub read_prefix-counted :
      (max_bytes b : ℕ) (t : Stream) → PrefixCounted b (read_prefix max_bytes cap b t)
  unfolding read_prefix
  read_prefix-counted max_bytes b t = elim (Bool-cases (max_bytes == 0)) [
    | inl z ↦ rw z (whole-Counted b _ (read_all-Counted none b t))
    | inr z ↦
        rw z (limited-Counted max_bytes b _ (read_all-Counted (some (prefix_limit max_bytes)) b t))
  ]

  -- `readFullEntry` counts the bytes that it adds to those of the prefix.
  pub read_full_entry-counted :
      (prefix overflow : Bytes) (b : ℕ) (t : Stream)
      → (x : Bytes × Option GoError × Source) × (read_full_entry cap prefix overflow b t ≡ some x)
        × (x.2.bytes_read ≡ b + (length x.0 - (length prefix + length overflow)))
  unfolding read_full_entry
  read_full_entry-counted prefix overflow b t =
      let (x, e, c) = read_all-Counted none b t in
      let m = length-append (prefix ++ overflow) x.0 in
      let n = length-append prefix overflow in
      rw e ((prefix ++ overflow ++ x.0, x.1, x.2), refl, omega arith)
