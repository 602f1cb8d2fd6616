-- ===== src/Jks/Reader/Slices.antt =====
-- What a reader of internal/scanner/jks.go returns as a part of its data.
use certfinder.Base.{
  ℕ, ◌≤◌, ◌≡◌, refl, sym, ap, ◌∙◌, ◌++◌, Bytes, length, drop, take-append-drop, ltb, Bool-cases,
  inl, inr, arith, Post, Post-bind, Post-mono, Post-if,
}
use certfinder.Base.{take as take_list}
use certfinder.Jks.Reader.{
  Reader, be16, take, uint32, length_prefixed_uint16, take_uint32, skip, skip_uint32, remaining,
}

-- `part` stands somewhere in `whole`.
pub record Slice (part whole : Bytes) : Type 0 where
  pub before : Bytes
  pub after : Bytes
  pub splits : whole ≡ before ++ (part ++ after)

-- The reader's data is still that of `r`, and it has not run past the end.
pub record Follows (r r' : Reader) : Type 0 where
  pub same_bytes : r'.bytes ≡ r.bytes
  pub in_range : r.offset ≤ length r.bytes → r'.offset ≤ length r'.bytes

pub Follows-trans : {r s t : Reader} → Follows r s → Follows s t → Follows r t
Follows-trans {r} {s} {t} f g = record {
  same_bytes = g.same_bytes ∙ f.same_bytes;
  in_range = λ h. g.in_range (f.in_range h);
}

pub Follows-refl : (r : Reader) → Follows r r
Follows-refl r = record { same_bytes = refl; in_range = λ h. h }

slice_of_take : (n o : ℕ) (s : Bytes) → Slice (take_list n (drop o s)) s
slice_of_take n o s = record {
  before = take_list o s;
  after = drop n (drop o s);
  splits = sym (ap (◌++◌ (take_list o s)) (take-append-drop n (drop o s)) ∙ take-append-drop o s);
}

module _ (n : ℕ) (r : Reader) where
  pub take-Slice : Post (λ (x, r'). Slice x r.bytes × Follows r r') (take n r)
  unfolding take remaining
  take-Slice = elim (Bool-cases (ltb (remaining r) n)) [
    | inl short ↦ rw short tt
    | inr long ↦ rw long (
      slice_of_take n r.offset r.bytes,
      record { same_bytes = refl; in_range = λ h. ground arith },
    )
  ]

-- A read whose value does not matter.
abbrev pub Moves : {A : Type 0} → Reader → A × Reader → Type 0
Moves r (x, r') = Follows r r'

-- A read that returns bytes of the data.
abbrev pub Cuts : Reader → Bytes × Reader → Type 0
Cuts r (x, r') = Slice x r.bytes × Follows r r'

module _ (r : Reader) where
  pub uint32-Moves : Post (Moves r) (uint32 r)
  unfolding uint32
  uint32-Moves = Post-bind (Cuts r) (Moves r) (take 4 r) _ (take-Slice 4 r) λ (x, r') h. h.1

  pub length_prefixed_uint16-Moves : Post (Moves r) (length_prefixed_uint16 r)
  unfolding length_prefixed_uint16
  length_prefixed_uint16-Moves =
      Post-bind (Cuts r) (Moves r) (take 2 r) _ (take-Slice 2 r) λ (x, r') h.
        Post-mono _ _ (take (be16 x) r') (λ (y, r'') k. Follows-trans h.1 k.1)
          (take-Slice (be16 x) r')

  pub take_uint32-Slice : (n : ℕ) → Post (Cuts r) (take_uint32 n r)
  unfolding take_uint32
  take_uint32-Slice n = Post-if (Cuts r) (ltb (remaining r) n) _ (take n r) tt (take-Slice n r)

  pub skip-Follows : (n : ℕ) → Post (Follows r) (skip n r)
  unfolding skip
  skip-Follows n = Post-bind (Cuts r) (Follows r) (take n r) _ (take-Slice n r) λ (x, r') h. h.1

  pub skip_uint32-Follows : (n : ℕ) → Post (Follows r) (skip_uint32 n r)
  unfolding skip_uint32
  skip_uint32-Follows n =
      Post-bind (Cuts r) (Follows r) (take_uint32 n r) _ (take_uint32-Slice n) λ (x, r') h. h.1
