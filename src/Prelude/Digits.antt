-- ===== src/Prelude/Digits.antt =====
-- Numbers in a mixed base: quotient, remainder, and the digits of a sum.
use Prim.Native.Nat.{ℕ, ◌+◌, ◌*◌, ◌/◌, ◌%◌, ◌≤◌, ◌<◌}
use mathlib.Core.Path.{◌≡◌, ap}
use mathlib.Core.Logic.{◌≢◌}
use native.Mathlib.Nat.{div-add-mod'}
use native.Mathlib.Decide.{dec_lt}
use native.Mathlib.Omega.{arith}

mul-le_mono : (a b w : ℕ) → a ≤ b → a * w ≤ b * w
mul-le_mono a b w h = grind arith

-- A digit and a remainder below its weight determine each other.
pub digit_unique : (w a b r s : ℕ) → r < w → s < w → a * w + r ≡ b * w + s → (a ≡ b) × (r ≡ s)
digit_unique w a b r s hr hs e = elim (dec_lt a b) [
  | yes p ↦ absurd (grind (arith, mul-le_mono (a + 1) b w))
  | no p ↦ elim (dec_lt b a) [
    | yes q ↦ absurd (grind (arith, mul-le_mono (b + 1) a w))
    | no q ↦ let same : a ≡ b = omega arith in (same, omega (arith, ap (λ (t : ℕ). t * w) same))
  ]
]

pub digit_bound : (w n a r : ℕ) → a < n → r < w → a * w + r < n * w
digit_bound w n a r ha hr = grind arith

-- Quotient and remainder of a number given by its digits.
pub of_digits : (o a b : ℕ) → b < o → ((a * o + b) / o ≡ a) × ((a * o + b) % o ≡ b)
of_digits o a b h =
    digit_unique o ((a * o + b) / o) a ((a * o + b) % o) b (omega arith) h
      (div-add-mod' (a * o + b) o)

pub times-le : (m n o : ℕ) → m ≤ n → m * o ≤ n * o
times-le m n o h = grind arith

pub quotient_lt : (o n p : ℕ) → p < o * n → p / o < n
quotient_lt o n p h = elim (dec_lt (p / o) n) [
  | yes q ↦ q
  | no q ↦ absurd (omega (arith, div-add-mod' p o, times-le n (p / o) o (omega arith)))
]

pub successor : (o p : ℕ) → p + 1 ≡ p / o * o + (p % o + 1)
successor o p = omega (arith, div-add-mod' p o)

-- The next number is a multiple exactly if this one is the last of its group.
pub last_in_group : (o p : ℕ) → 0 < o → (p + 1) % o ≡ 0 → p % o + 1 ≡ o
last_in_group o p ho h = elim (dec_lt (p % o + 1) o) [
  | yes q ↦
      let r = (of_digits o (p / o) (p % o + 1) q).1 in
      absurd (omega (arith, ap (λ t. t % o) (successor o p)))
  | no q ↦ omega arith
]

pub next_multiple : (o p : ℕ) → 0 < o → p % o + 1 ≡ o → p + 1 ≡ (p / o + 1) * o + 0
next_multiple o p ho h = omega (arith, div-add-mod' p o)

pub not_last_in_group : (o p : ℕ) → 0 < o → (p + 1) % o ≢ 0 → p % o + 1 < o
not_last_in_group o p ho h = elim (dec_lt (p % o + 1) o) [
  | yes q ↦ q
  | no q ↦
      let r = (of_digits o (p / o + 1) 0 ho).1 in
      absurd (omega (arith, ap (λ t. t % o) (next_multiple o p ho (omega arith))))
]
