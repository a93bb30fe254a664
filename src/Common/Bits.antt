-- ===== src/Common/Bits.antt =====
-- `|` of disjoint fields as a sum, and `&` with a mask of low bits as a remainder.
use Prim.Native.Nat.{
  ℕ, zero, suc, ◌+◌, ◌*◌, ◌/◌, ◌%◌, ◌^◌, ◌≤◌, ◌<◌, min, max, bit_and, bit_or, digits, bitwise,
  bit_and-bitwise, bit_or-bitwise, bit_xor, bit_xor-bitwise, differ,
}
use mathlib.Core.Path.{◌≡◌, refl, sym, ap, ◌∙◌}
use mathlib.Core.Bool.{Bool, true, false}
use mathlib.Core.Logic.{inl, inr}
use ruli.Common.Tests.{if◌then◌else◌, Bool-cases}
use native.Mathlib.Nat.{pow-suc, div-div-eq-div-mul}
use native.Mathlib.Omega.{arith}

-- An operation on the binary digits, `f` on each pair, and `z` on the second number once the first is used up.
module _ (z : ℕ → ℕ) (f : ℕ → ℕ → ℕ) where
  any_rounds : (a b s t : ℕ) → a ≤ t → a ≤ s → digits z f s a b ≡ digits z f t a b
  any_rounds zero b zero zero h k = refl
  any_rounds zero b zero (suc t) h k = refl
  any_rounds zero b (suc s) zero h k = refl
  any_rounds zero b (suc s) (suc t) h k = refl
  any_rounds (suc a) b s zero h k = absurd (omega arith)
  any_rounds (suc a) b zero (suc t) h k = absurd (omega arith)
  any_rounds (suc a) b (suc s) (suc t) h k =
      ap (λ d. d * 2 + f (suc a % 2) (b % 2))
        (any_rounds (suc a / 2) (b / 2) s t (omega arith) (omega arith))

  lowest_digit :
      (a b : ℕ)
      → z b ≡ z (b / 2) * 2 + f 0 (b % 2)
      → bitwise z f a b ≡ bitwise z f (a / 2) (b / 2) * 2 + f (a % 2) (b % 2)
  lowest_digit zero b used_up = used_up
  lowest_digit (suc a) b used_up =
      ap (λ d. d * 2 + f (suc a % 2) (b % 2))
        (any_rounds (suc a / 2) (b / 2) a (suc a / 2) (omega arith) (omega arith))

-- The lowest digit of each operation.
pub bit_and_step : (a b : ℕ) → bit_and a b ≡ min (a % 2) (b % 2) + 2 * bit_and (a / 2) (b / 2)
bit_and_step a b =
    let low = lowest_digit (λ y. 0) min a b (omega arith) in
    omega (arith, low, bit_and-bitwise (a / 2) (b / 2), bit_and-bitwise a b)

pub bit_or_step : (a b : ℕ) → bit_or a b ≡ max (a % 2) (b % 2) + 2 * bit_or (a / 2) (b / 2)
bit_or_step a b =
    let low = lowest_digit (λ y. y) max a b (omega arith) in
    omega (arith, low, bit_or-bitwise (a / 2) (b / 2), bit_or-bitwise a b)

pub bit_xor_step : (a b : ℕ) → bit_xor a b ≡ differ (a % 2) (b % 2) + 2 * bit_xor (a / 2) (b / 2)
bit_xor_step a b =
    let low = lowest_digit (λ y. y) differ a b (omega arith) in
    omega (arith, low, bit_xor-bitwise (a / 2) (b / 2), bit_xor-bitwise a b)

no_bits_or : (a rounds : ℕ) → a ≤ rounds → bit_or a 0 ≡ a
no_bits_or zero rounds h = refl
no_bits_or (suc a) zero h = absurd (omega arith)
no_bits_or (suc a) (suc rounds) h =
    omega (arith, no_bits_or (suc a / 2) rounds (omega arith), bit_or_step (suc a) 0)

no_bits_and : (a rounds : ℕ) → a ≤ rounds → bit_and a 0 ≡ 0
no_bits_and zero rounds h = refl
no_bits_and (suc a) zero h = absurd (omega arith)
no_bits_and (suc a) (suc rounds) h =
    omega (arith, no_bits_and (suc a / 2) rounds (omega arith), bit_and_step (suc a) 0)

two_pow_mul : (q k : ℕ) → q * 2 ^ suc k ≡ 2 * (q * 2 ^ k)
two_pow_mul q k = omega (arith, ap (λ (t : ℕ). q * t) (pow-suc 2 k))

-- A value shifted left by `k` and one of `k` bits do not overlap, so their `|` is their sum.
pub bit_or-shifted : (k q r : ℕ) → r < 2 ^ k → bit_or (q * 2 ^ k) r ≡ q * 2 ^ k + r
bit_or-shifted zero q r h = ground (arith, no_bits_or (q * 2 ^ 0) (q * 2 ^ 0) (omega arith))
bit_or-shifted (suc k) q r h = ground (
  arith,
  bit_or_step (q * 2 ^ suc k) r,
  two_pow_mul q k,
  pow-suc 2 k,
  bit_or-shifted k q (r / 2) (omega (arith, pow-suc 2 k)),
)

-- The two masks of low bits that the library uses.
pub bit_and-0xf : (a : ℕ) → bit_and a 0xF ≡ a % 16
bit_and-0xf a = omega (
  arith,
  bit_and_step a 0xF,
  bit_and_step (a / 2) 7,
  bit_and_step (a / 2 / 2) 3,
  bit_and_step (a / 2 / 2 / 2) 1,
  no_bits_and (a / 2 / 2 / 2 / 2) (a / 2 / 2 / 2 / 2) (omega arith),
)

pub bit_and-0xff : (a : ℕ) → bit_and a 0xFF ≡ a % 256
bit_and-0xff a = omega (
  arith,
  bit_and_step a 0xFF,
  bit_and_step (a / 2) 0x7F,
  bit_and_step (a / 2 / 2) 0x3F,
  bit_and_step (a / 2 / 2 / 2) 0x1F,
  bit_and-0xf (a / 2 / 2 / 2 / 2),
)

bit_and-even : (a b : ℕ) → bit_and a (2 * b) ≡ 2 * bit_and (a / 2) b
bit_and-even a b =
    let half : 2 * b / 2 ≡ b = omega arith in
    omega (arith, bit_and_step a (2 * b), ap (bit_and (a / 2)) half)

-- A mask that is shifted by `k` bits.
pub bit_and-shifted : (k a m : ℕ) → bit_and a (m * 2 ^ k) ≡ bit_and (a / 2 ^ k) m * 2 ^ k
bit_and-shifted zero a m =
    let whole : m * 2 ^ 0 ≡ m = omega arith in
    let same : a / 2 ^ 0 ≡ a = omega arith in rw (whole, same) (omega arith)
bit_and-shifted (suc k) a m =
    let deeper : a / 2 / 2 ^ k ≡ a / 2 ^ suc k =
      div-div-eq-div-mul a 2 (2 ^ k) ∙ ap (λ t. a / t) (omega (arith, pow-suc 2 k)) in
    let inner = bit_and-shifted k (a / 2) m ∙ ap (λ t. bit_and t m * 2 ^ k) deeper in
    ap (bit_and a) (two_pow_mul m k)
    ∙ bit_and-even a (m * 2 ^ k)
    ∙ ap (λ t. 2 * t) inner
    ∙ sym (two_pow_mul (bit_and (a / 2 ^ suc k) m) k)

pub bit_and-1 : (a : ℕ) → bit_and a 1 ≡ a % 2
bit_and-1 a = omega (arith, bit_and_step a 1, no_bits_and (a / 2) (a / 2) (omega arith))

pub bit_and-7 : (a : ℕ) → bit_and a 7 ≡ a % 8
bit_and-7 a = omega (
  arith,
  bit_and_step a 7,
  bit_and_step (a / 2) 3,
  bit_and_step (a / 2 / 2) 1,
  no_bits_and (a / 2 / 2 / 2) (a / 2 / 2 / 2) (omega arith),
)

-- A test of every number below a bound, by evaluation.
unfoldable pub all_below : ℕ → (ℕ → Bool) → Bool
all_below zero test = true
all_below (suc bound) test = if test bound then all_below bound test else false

pub all_below_sound :
    (bound : ℕ) (test : ℕ → Bool) (i : ℕ) → i < bound → all_below bound test ≡ true → test i ≡ true
unfolding all_below
all_below_sound zero test i lt h = absurd (omega arith)
all_below_sound (suc bound) test i lt h = elim (Bool-cases (test bound)) [
  | inl e ↦ ground (arith, e, all_below_sound bound test i)
  | inr e ↦ let h' = rw e at h in cc
]
