-- ===== src/Jks/ModifiedUtf8/Masks.antt =====
-- The bit tests and masks of `decodeJavaModifiedUTF8` as arithmetic on bytes.
use certfinder.Base.Bits.{all_below, all_below_sound, bit_or-eq-add}
use certfinder.Base.{
  ℕ, Bool, ◌+◌, ◌*◌, ◌%◌, ◌^◌, ◌<◌, ◌≡◌, refl, sym, ◌∙◌, true, false, not, ◌&&◌, bit_and, bit_or,
  leb, ◌==◌, ==_iff, arith,
}
use certfinder.Jks.ModifiedUtf8.{is_two, is_three, is_next, value_two, value_three}

-- The masks and the tests on a byte, by a table of its 256 values.
abbrev same : Bool → Bool → Bool
same true b = b
same false b = not b

same-eq : (a b : Bool) → same a b ≡ true → a ≡ b
same-eq true b h = sym h
same-eq false b h = ground arith

module _ (a : ℕ) (byte : a < 256) where
  mask_1f : bit_and a 0x1f ≡ a % 32
  unfolding all_below
  mask_1f = (==_iff _ _).0 (all_below_sound (λ x. bit_and x 0x1f == x % 32) 256 a byte refl)

  mask_3f : bit_and a 0x3f ≡ a % 64
  unfolding all_below
  mask_3f = (==_iff _ _).0 (all_below_sound (λ x. bit_and x 0x3f == x % 64) 256 a byte refl)

  mask_0f : bit_and a 0x0f ≡ a % 16
  unfolding all_below
  mask_0f = (==_iff _ _).0 (all_below_sound (λ x. bit_and x 0x0f == x % 16) 256 a byte refl)

  pub is_two_lem : is_two a ≡ (leb 0xc0 a && leb a 0xdf)
  unfolding all_below
  is_two_lem =
      same-eq _ _
        (all_below_sound (λ x. same (is_two x) (leb 0xc0 x && leb x 0xdf)) 256 a byte refl)

  pub is_three_lem : is_three a ≡ (leb 0xe0 a && leb a 0xef)
  unfolding all_below
  is_three_lem =
      same-eq _ _
        (all_below_sound (λ x. same (is_three x) (leb 0xe0 x && leb x 0xef)) 256 a byte refl)

  pub is_next_lem : is_next a ≡ (leb 0x80 a && leb a 0xbf)
  unfolding all_below
  is_next_lem =
      same-eq _ _
        (all_below_sound (λ x. same (is_next x) (leb 0x80 x && leb x 0xbf)) 256 a byte refl)

pub value_two_lem : (a b : ℕ) → a < 256 → b < 256 → value_two a b ≡ a % 32 * 64 + b % 64
value_two_lem a b ha hb =
    rw (mask_1f a ha, mask_3f b hb) (bit_or-eq-add 6 (a % 32) (b % 64) (omega arith))

pub value_three_lem :
    (a b c : ℕ)
    → a < 256
    → b < 256
    → c < 256
    → value_three a b c ≡ a % 16 * 4096 + b % 64 * 64 + c % 64
value_three_lem a b c ha hb hc =
    let high : bit_or (a % 16 * 2 ^ 12) (b % 64 * 2 ^ 6) ≡ (a % 16 * 64 + b % 64) * 2 ^ 6 =
      bit_or-eq-add 12 (a % 16) (b % 64 * 2 ^ 6) (omega arith) ∙ omega arith in
    rw (mask_0f a ha, mask_3f b hb, mask_3f c hc, high)
      (bit_or-eq-add 6 (a % 16 * 64 + b % 64) (c % 64) (omega arith) ∙ omega arith)
