-- ===== src/Archive/Budget/Whole.antt =====
-- `readPrefix` and `readFullEntry` of internal/scanner/archive.go against one reading of the entry.

use certfinder.Archive.Budget.{Stream, Source, limit_error, fuel_for}
use certfinder.Archive.Budget.Drain.{plain, drained, drain, plain-more, read_all-Finished}
use certfinder.Archive.Budget.Rounds.{flat, contents, quota}
use certfinder.Archive.Budget.Entry.{
  source, prefix_limit, whole_prefix, limited_prefix, read_prefix, read_full_entry, complete_entry,
  read_entry,
}
use certfinder.Base.{
  ℕ, ◌+◌, ◌-◌, ◌^◌, ◌<◌, ◌≤◌, ◌≡◌, refl, sym, ap, ◌∙◌, true, false, inl, inr, Option, none, some,
  [], ◌++◌, Bytes, length, take, drop, leb, ◌==◌, ◌&&◌, Bool-cases, take-append-drop, length-take,
  length-append, GoError, arith,
}

module _ (cap : ℕ) where
  -- What a whole reading returns and counts.
  pub record Read (b : ℕ) (d : Bytes × Option GoError) (n : ℕ)
      (o : Option (Bytes × Option GoError × Source)) : Type 0 where
    last : Source
    returned : o ≡ some (d.0, d.1, last)
    counted : last.bytes_read ≡ b + n

  full_Read :
      (s : Source) (prefix overflow : Bytes)
      → (let d = plain cap (quota cap s) s.stream.failure (contents s) in
          Read
            (s.bytes_read)
            (prefix ++ overflow ++ d.0, d.1)
            (length d.0)
            (read_full_entry cap prefix overflow s.bytes_read s.stream))
  unfolding read_full_entry drained
  full_Read s prefix overflow =
      let t = source none s.bytes_read s.stream in
      let h = read_all-Finished cap (fuel_for t) t [] (omega arith) in
      record { last = h.last; returned = rw (h.returned) refl; counted = h.counted }

  -- An entry whose first phase ended with the bytes and the error of the whole.
  ended_Read :
      (b : ℕ) (xs : Bytes) (e : Option GoError) (s : Source)
      → s.bytes_read ≡ b + length xs
      → Read b (xs, e) (length xs) (complete_entry cap (whole_prefix (xs, e, s)))
  ended_Read b xs none s h = record { last = s; returned = refl; counted = h }
  ended_Read b xs (some e) s h = record { last = s; returned = refl; counted = h }

  short_Read :
      (max_bytes b : ℕ) (xs : Bytes) (e : Option GoError) (s : Source)
      → (e ≡ none → length xs ≤ max_bytes)
      → s.bytes_read ≡ b + length xs
      → Read b (xs, e) (length xs) (complete_entry cap (limited_prefix max_bytes (xs, e, s)))
  short_Read max_bytes b xs (some e) s l h = record { last = s; returned = refl; counted = h }
  short_Read max_bytes b xs none s l h =
      let k = l refl in
      let short : leb (length xs) max_bytes ≡ true = ground (arith) in
      rw short (record { last = s; returned = refl; counted = h })

  long_Read :
      (max_bytes : ℕ) (s t : Source) (xs : Bytes)
      → max_bytes < length xs
      → length xs ≤ quota cap s
      → contents s ≡ xs ++ contents t
      → t.bytes_read ≡ s.bytes_read + length xs
      → t.stream.failure ≡ s.stream.failure
      → (let d = plain cap (quota cap s) s.stream.failure (contents s) in
          Read s.bytes_read d
            (length d.0)
            (complete_entry cap (limited_prefix max_bytes (xs, none, t))))
  long_Read max_bytes s t xs l q split h f =
      let long : leb (length xs) max_bytes ≡ false = ground (arith) in
      let r = full_Read t (take max_bytes xs) (drop max_bytes xs) in
      let left : quota cap s - length xs ≡ quota cap t = omega arith in
      let d = plain cap (quota cap t) t.stream.failure (contents t) in
      let whole : plain cap (quota cap s) s.stream.failure (contents s) ≡ (xs ++ d.0, d.1) =
        rw (split, ← f, ← left) (plain-more cap (quota cap s) t.stream.failure xs (contents t) q) in
      rw (long, whole)
        (record {
          last = r.last;
          returned =
              r.returned ∙ ap (λ zs. some (zs ++ d.0, d.1, r.last)) (take-append-drop max_bytes xs);
          counted = omega (arith, r.counted, h, length-append xs d.0);
        })

  plain-fits :
      (q : ℕ) (f : Option GoError) (xs : Bytes) (e : Option GoError) (ys : Bytes)
      → (xs, e) ≡ plain cap q f ys
      → e ≡ none
      → (xs ≡ ys) × (length ys ≤ q)
  unfolding plain
  plain-fits q f xs e ys h z = elim (Bool-cases (leb (length ys) q)) [
    | inl fit ↦ (let h' : (xs, e) ≡ (ys, f) = h ∙ rw fit in (ap (λ p. p.0) h', ground arith))
    | inr big ↦
        (let h' : (xs, e) ≡ (take q ys, some (limit_error cap)) = h ∙ rw big in
          let e' : e ≡ some (limit_error cap) = ap (λ p. p.1) h' in absurd (cc))
  ]

  -- What the limited reading returned, as the first phase of an entry.
  limited_Read :
      (max_bytes : ℕ) (s t : Source) (d : Bytes × Option GoError)
      → d ≡ drained cap (quota cap s) s.stream.failure (some (max_bytes + 1)) (contents s)
      → t.bytes_read ≡ s.bytes_read + length d.0
      → (d.1 ≡ none → contents t ≡ drop (length d.0) (contents s))
      → (d.1 ≡ none → t.stream.failure ≡ s.stream.failure)
      → (let p = plain cap (quota cap s) s.stream.failure (contents s) in
          Read s.bytes_read p
            (length p.0)
            (complete_entry cap (limited_prefix max_bytes (d.0, d.1, t))))
  unfolding drained
  limited_Read max_bytes s t (xs, e) h c l f =
      let q = quota cap s in
      let ys = contents s in
      elim (Bool-cases (leb (max_bytes + 1) (length ys) && leb (max_bytes + 1) q)) [
        | inl fit ↦
            (let h' : (xs, e) ≡ (take (max_bytes + 1) ys, none) = h ∙ rw fit in
              let n : length xs ≡ max_bytes + 1 =
                ap (λ z. length z.0) h' ∙ ground (arith, length-take (max_bytes + 1) ys) in
              let e' : e ≡ none = ap (λ z. z.1) h' in
              let xs' : xs ≡ take (max_bytes + 1) ys = ap (λ z. z.0) h' in
              let split : ys ≡ xs ++ contents t =
                sym (take-append-drop (max_bytes + 1) ys)
                ∙ ap (λ z. z ++ drop (max_bytes + 1) ys) (sym xs')
                ∙ ap (λ k. xs ++ drop k ys) (sym n)
                ∙ ap (λ z. xs ++ z) (sym (l e')) in
              rw e' (long_Read max_bytes s t xs (omega arith) (ground arith) split c (f e')))
        | inr big ↦
            (let h' : (xs, e) ≡ plain cap q s.stream.failure ys = h ∙ rw big in
              rw (← h') (
                short_Read max_bytes s.bytes_read xs e t
                  (λ e'.
                    let (same, fits) = plain-fits q s.stream.failure xs e ys h' e' in
                    ground (arith, ap length same))
                  c))
      ]

  prefix_limit-suc :
      (max_bytes : ℕ) → max_bytes < 2 ^ 63 - 1 → prefix_limit max_bytes ≡ max_bytes + 1
  prefix_limit-suc max_bytes h = ground arith

  -- An entry that is needed in full is read as if by one reader with the bytes of budget that are
  -- left, whatever `MaxBytes` is below the greatest int64 and however the pieces fall: the reading ends,
  -- its data and its error are those of the plain reading, and `bytesRead` has grown by the bytes of
  -- the data.
  pub read_entry-Read :
      (max_bytes b : ℕ) (t : Stream)
      → max_bytes < 2 ^ 63 - 1
      → (let d = plain cap (cap - b) t.failure (flat t.pieces) in
          Read b d (length d.0) (read_entry max_bytes cap b t))
  unfolding read_entry read_prefix drained
  read_entry-Read max_bytes b t h = elim (Bool-cases (max_bytes == 0)) [
    | inl z ↦
        (let s = source none b t in
          let r = read_all-Finished cap (fuel_for s) s [] (omega arith) in
          let d = plain cap (cap - b) t.failure (flat t.pieces) in
          rw (z, r.returned) (ended_Read b d.0 d.1 r.last r.counted))
    | inr nz ↦
        (let s = source (some (max_bytes + 1)) b t in
          let r = read_all-Finished cap (fuel_for s) s [] (omega arith) in
          rw (nz, prefix_limit-suc max_bytes h, r.returned)
            (limited_Read max_bytes s r.last (drain cap s) refl r.counted r.left r.same_failure))
  ]
