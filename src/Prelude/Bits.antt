-- ===== src/Prelude/Bits.antt =====
-- Laws of `&` and `|` with the masks 1, 2 and 3, for every number.
use Prim.Native.Nat.{
  ℕ, zero, suc, ◌+◌, ◌*◌, ◌/◌, ◌%◌, ◌≤◌, min, max, bit_and, bit_or, digits, bit_and-bitwise,
  bit_or-bitwise,
}
use mathlib.Core.Path.{◌≡◌, refl, ◌∙◌, ap}
use native.Mathlib.Omega.{arith}
use native.Mathlib.Decide.{dec_le}

module _ (z : ℕ → ℕ) (f : ℕ → ℕ → ℕ) where
  -- A round more than the number needs changes nothing.
  one_more_round : (n a b : ℕ) → a ≤ n → digits z f (suc n) a b ≡ digits z f n a b
  one_more_round zero zero b h = refl
  one_more_round zero (suc a) b h = absurd (omega arith)
  one_more_round (suc n) zero b h = refl
  one_more_round (suc n) (suc a) b h =
      ap (λ t. t * 2 + f (suc a % 2) (b % 2)) (one_more_round n (suc a / 2) (b / 2) (omega arith))

  enough_rounds : (n a b : ℕ) → a ≤ n → digits z f n a b ≡ digits z f a a b
  enough_rounds zero zero b h = refl
  enough_rounds zero (suc a) b h = absurd (omega arith)
  enough_rounds (suc n) a b h = elim (dec_le a n) [
    | yes p ↦ one_more_round n a b p ∙ enough_rounds n a b p
    | no p ↦ let e : a ≡ suc n = omega arith in rw e
  ]

  -- The lowest digit apart.
  digits_step :
      (a b : ℕ)
      → digits z f (suc a) (suc a) b
        ≡ digits z f (suc a / 2) (suc a / 2) (b / 2) * 2 + f (suc a % 2) (b % 2)
  digits_step a b =
      ap (λ t. t * 2 + f (suc a % 2) (b % 2)) (enough_rounds a (suc a / 2) (b / 2) (omega arith))

and_step : (a b : ℕ) → min (a % 2) (b % 2) + 2 * bit_and (a / 2) (b / 2) ≡ bit_and a b
and_step zero b = omega (arith, bit_and-bitwise 0 b, bit_and-bitwise 0 (b / 2))
and_step (suc a) b =
    let low = digits_step (λ c. zero) min a b in
    omega (arith, low, bit_and-bitwise (suc a / 2) (b / 2), bit_and-bitwise (suc a) b)

or_step : (a b : ℕ) → max (a % 2) (b % 2) + 2 * bit_or (a / 2) (b / 2) ≡ bit_or a b
or_step zero b = omega (arith, bit_or-bitwise 0 b, bit_or-bitwise 0 (b / 2))
or_step (suc a) b =
    let low = digits_step (λ c. c) max a b in
    omega (arith, low, bit_or-bitwise (suc a / 2) (b / 2), bit_or-bitwise (suc a) b)

and_zero_below : (n a : ℕ) → a ≤ n → bit_and a 0 ≡ 0
and_zero_below zero a h = let e : a ≡ 0 = omega arith in rw e
and_zero_below (suc n) a h = elim (dec_le a 0) [
  | yes p ↦ let e : a ≡ 0 = omega arith in rw e
  | no p ↦ omega (arith, and_step a 0, and_zero_below n (a / 2) (omega arith))
]

or_zero_below : (n a : ℕ) → a ≤ n → bit_or a 0 ≡ a
or_zero_below zero a h = let e : a ≡ 0 = omega arith in rw e
or_zero_below (suc n) a h = elim (dec_le a 0) [
  | yes p ↦ let e : a ≡ 0 = omega arith in rw e
  | no p ↦ omega (arith, or_step a 0, or_zero_below n (a / 2) (omega arith))
]

and_zero : (a : ℕ) → bit_and a 0 ≡ 0
and_zero a = and_zero_below a a (omega arith)

or_zero : (a : ℕ) → bit_or a 0 ≡ a
or_zero a = or_zero_below a a (omega arith)

pub bit_and-one : (a : ℕ) → bit_and a 1 ≡ a % 2
bit_and-one a = omega (arith, and_step a 1, and_zero (a / 2))

pub bit_and-two : (a : ℕ) → bit_and a 2 ≡ a / 2 % 2 * 2
bit_and-two a = omega (arith, and_step a 2, bit_and-one (a / 2))

pub bit_and-three : (a : ℕ) → bit_and a 3 ≡ a % 4
bit_and-three a = omega (arith, and_step a 3, bit_and-one (a / 2))

pub bit_or-one : (a : ℕ) → bit_or a 1 ≡ a / 2 * 2 + 1
bit_or-one a = omega (arith, or_step a 1, or_zero (a / 2))

pub bit_or-two : (a : ℕ) → bit_or a 2 ≡ (a / 2 / 2 * 2 + 1) * 2 + a % 2
bit_or-two a = omega (arith, or_step a 2, bit_or-one (a / 2))

pub ruleset mask_laws = (arith, bit_and-one, bit_and-two, bit_and-three, bit_or-one, bit_or-two)
