-- ===== src/Base/Bits.antt =====
-- `|` and `&` on fields: the library states only what they mean digit by digit.
use Prim.Native.Nat.{
  ℕ, zero, suc, ◌+◌, ◌*◌, ◌/◌, ◌%◌, ◌^◌, ◌≤◌, ◌<◌, max, bit_or, bit_or-bitwise, digits,
}
use mathlib.Core.Path.{◌≡◌, refl}
use mathlib.Core.Bool.{Bool, true, ◌&&◌}
use native.Mathlib.Omega.{arith}
use native.Mathlib.Nat.{pow-suc}

-- Over a small range, every value is checked by evaluation.
unfoldable pub all_below : ℕ → (ℕ → Bool) → Bool
all_below zero holds = true
all_below (suc last) holds = let before = all_below last holds in holds last && before

pub all_below_sound :
    (holds : ℕ → Bool) (bound x : ℕ) → x < bound → all_below bound holds ≡ true → holds x ≡ true
unfolding all_below
all_below_sound holds (suc last) x below all = ground (arith, all_below_sound holds last x)
all_below_sound holds zero x below all = absurd (omega arith)

-- `bit_or` is a recursion on binary digits with the first number as fuel; more fuel changes nothing.
or_digits : ℕ → ℕ → ℕ → ℕ
or_digits = digits (λ b. b) max

or_digits_more :
    (a b fuel more : ℕ) → a ≤ fuel → fuel ≤ more → or_digits more a b ≡ or_digits fuel a b
unfolding or_digits
or_digits_more (suc a) b (suc fuel) (suc more) h k =
    omega (arith, or_digits_more (suc a / 2) (b / 2) fuel more (omega arith) (omega arith))
or_digits_more (suc a) b zero more h k = absurd (omega arith)
or_digits_more (suc a) b (suc fuel) zero h k = absurd (omega arith)
or_digits_more zero b (suc fuel) (suc more) h k = refl
or_digits_more zero b (suc fuel) zero h k = absurd (omega arith)
or_digits_more zero b zero (suc more) h k = refl
or_digits_more zero b zero zero h k = refl

or_last_digit : (a b : ℕ) → bit_or a b ≡ bit_or (a / 2) (b / 2) * 2 + max (a % 2) (b % 2)
unfolding or_digits
or_last_digit zero b = omega (arith, bit_or-bitwise 0 b, bit_or-bitwise 0 (b / 2))
or_last_digit (suc a) b = omega (
  arith,
  bit_or-bitwise (suc a) b,
  bit_or-bitwise (suc a / 2) (b / 2),
  or_digits_more (suc a / 2) (b / 2) (suc a / 2) a (omega arith) (omega arith),
)

bit_or-zero_below : (n a : ℕ) → a ≤ n → bit_or a 0 ≡ a
bit_or-zero_below zero zero h = refl
bit_or-zero_below zero (suc a) h = absurd (omega arith)
bit_or-zero_below (suc n) zero h = refl
bit_or-zero_below (suc n) (suc a) h =
    omega (arith, or_last_digit (suc a) 0, bit_or-zero_below n (suc a / 2) (omega arith))

-- `hi << k | lo` is a sum when `lo` fits in the `k` low bits.
pub bit_or-eq-add : (k hi lo : ℕ) → lo < 2 ^ k → bit_or (hi * 2 ^ k) lo ≡ hi * 2 ^ k + lo
bit_or-eq-add zero hi lo h =
    let e : lo ≡ 0 = omega arith in
    rw e (omega (arith, bit_or-zero_below (hi * 1) (hi * 1) (omega arith)))
bit_or-eq-add (suc k) hi lo h =
    let w = hi * 2 ^ k in
    let twice : hi * 2 ^ suc k ≡ w * 2 = rw (pow-suc 2 k) (omega arith) in
    let half : w * 2 / 2 ≡ w = omega arith in
    let rest = bit_or-eq-add k hi (lo / 2) (omega (arith, pow-suc 2 k)) in
    rw twice (ground (arith, or_last_digit (w * 2) lo, half, rest))
