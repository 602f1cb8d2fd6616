-- ===== src/Archive/Budget/Rounds.antt =====
-- One `Read` of the budget reader of internal/scanner/archive.go.
use certfinder.Archive.Budget.{
  ReadError, failed, end_of, read_pieces, Source, limit_error, budget_read, rounds, is_empty,
}
use certfinder.Base.{
  ℕ, ◌+◌, ◌-◌, ◌≤◌, ◌<◌, ◌≡◌, ◌≢◌, refl, sym, ap, Option, none, some, List, [], ◌∷◌, ◌++◌, Bytes,
  length, take, drop, take-append-drop, length-take, length-drop, append_assoc, leb, ltb, ◌==◌,
  if◌then◌else◌, Bool-cases, inl, inr, arith, GoError,
}

abbrev pub flat : List Bytes → Bytes
flat [] = []
flat (p ∷ ps) = p ++ flat ps

abbrev pub contents : Source → Bytes
contents s = flat s.stream.pieces

abbrev pub quota : ℕ → Source → ℕ
quota max_bytes s = max_bytes - s.bytes_read

-- One `Read` of the pieces: it hands out the front of the contents, or there are none.
abbrev Front : ℕ → List Bytes → Bytes × Option ReadError × List Bytes → Option GoError → Type 0
Front n ps (got, none, ps') f =
    (flat ps ≡ got ++ flat ps') × (length got ≤ n) × (rounds ps' < rounds ps)
Front n ps (got, some e, ps') f = (flat ps ≡ []) × (got ≡ []) × (e ≡ end_of f) × (ps' ≡ [])

read_pieces-Front :
    (n : ℕ) (ps : List Bytes) (f : Option GoError) → 0 < n → Front n ps (read_pieces n ps f) f
unfolding read_pieces rounds
read_pieces-Front n [] f h = (refl, refl, refl, refl)
read_pieces-Front n (p ∷ ps) f h = elim (Bool-cases (leb (length p) n)) [
  | inl whole ↦ rw whole (refl, ground arith, omega arith)
  | inr part ↦ rw part (
    rw (← append_assoc (take n p) (drop n p) (flat ps))
        (ap (λ q. q ++ flat ps) (sym (take-append-drop n p))),
    omega (arith, length-take n p),
    ground (arith, length-drop n p),
  )
]

-- One `Read` of the budget reader with a buffer of `n` bytes: bytes from the front, the end of the
-- stream, or the error of an entry that has more bytes than the budget.
pub data Round (max_bytes n : ℕ) (s : Source) (r : Bytes × Option ReadError × Source) : Type 0 where
  more :
      r.1 ≡ none
      → contents s ≡ r.0 ++ contents r.2
      → r.2.bytes_read ≡ s.bytes_read + length r.0
      → length r.0 ≤ quota max_bytes s
      → length r.0 ≤ n
      → rounds r.2.stream.pieces < rounds s.stream.pieces
      → r.2.stream.failure ≡ s.stream.failure
      → Round max_bytes n s r
  ended :
      r.1 ≡ some (end_of s.stream.failure)
      → r.0 ≡ []
      → contents s ≡ []
      → contents r.2 ≡ []
      → r.2.bytes_read ≡ s.bytes_read
      → r.2.stream.failure ≡ s.stream.failure
      → Round max_bytes n s r
  over :
      r.1 ≡ some (failed (limit_error max_bytes))
      → r.0 ≡ []
      → quota max_bytes s ≡ 0
      → contents s ≢ []
      → r.2.bytes_read ≡ s.bytes_read
      → Round max_bytes n s r

module _ (max_bytes n : ℕ) (s : Source) where
  probe_Round :
      (r : Bytes × Option ReadError × List Bytes)
      → quota max_bytes s ≡ 0
      → Front 1 s.stream.pieces r s.stream.failure
      → Round max_bytes n s (
          let s' = record s { stream = record s.stream { pieces = r.2 } } in
          if is_empty r.0 then ([], r.1, s') else ([], some (failed (limit_error max_bytes)), s'))
  probe_Round ([], none, ps) q h = more refl h.0 (omega arith) (omega arith) (omega arith) h.2 refl
  probe_Round (x ∷ xs, none, ps) q h = over refl refl q (λ e. cc (h.0)) refl
  probe_Round ([], some e, ps) q (empty, z, e', p) =
      ended (ap some e') refl empty (ap flat p) refl refl
  probe_Round (x ∷ xs, some e, ps) q (empty, z, e', p) = absurd (cc)

  read_Round :
      (m : ℕ) (r : Bytes × Option ReadError × List Bytes)
      → m ≤ quota max_bytes s
      → m ≤ n
      → Front m s.stream.pieces r s.stream.failure
      → Round max_bytes n s (
        r.0,
        r.1,
        record s {
          bytes_read = s.bytes_read + length r.0;
          stream = record s.stream { pieces = r.2 };
        },
      )
  read_Round m (got, none, ps) q l h =
      more refl h.0 refl (omega (arith, h.1)) (omega (arith, h.1)) h.2 refl
  read_Round m (got, some e, ps) q l (empty, z, e', p) =
      ended (ap some e') z empty (ap flat p) (omega (arith, ap length z)) refl

  pub budget_read-Round : 0 < n → Round max_bytes n s (budget_read max_bytes n s)
  unfolding budget_read
  budget_read-Round h = elim (Bool-cases (quota max_bytes s == 0)) [
    | inl done ↦ rw done (
        probe_Round (read_pieces 1 s.stream.pieces s.stream.failure) (ground arith)
          (read_pieces-Front 1 s.stream.pieces s.stream.failure (omega arith)))
    | inr left ↦ rw left (
        let m = if ltb (quota max_bytes s) n then quota max_bytes s else n in
        read_Round m (read_pieces m s.stream.pieces s.stream.failure) (ground arith) (ground arith)
          (read_pieces-Front m s.stream.pieces s.stream.failure (ground arith)))
  ]
