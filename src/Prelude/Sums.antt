-- ===== src/Prelude/Sums.antt =====
-- Sums of a function over the first numbers, and what one change does to them.
use Prim.Native.Nat.{ℕ, zero, suc, ◌+◌, ◌≤◌, ◌<◌}
use mathlib.Core.Path.{◌≡◌, refl}
use native.Mathlib.Omega.{arith}
use nvmevirt_fdp.Prelude.Tests.{◌==◌, if◌then◌else◌}

unfoldable pub total : (ℕ → ℕ) → ℕ → ℕ
total a zero = 0
total a (suc n) = total a n + a n

module _ {ℓ} {A : Type ℓ} where
  -- The sum of `g` over a table, with one entry replaced.
  total-set_above :
      (g : A → ℕ) (f : ℕ → A) (i : ℕ) (v : A) (n : ℕ)
      → n ≤ i
      → total (λ j. g (if i == j then v else f j)) n ≡ total (λ j. g (f j)) n
  unfolding total
  total-set_above g f i v zero h = refl
  total-set_above g f i v (suc n) h = ground (arith, total-set_above g f i v n)

  pub total-set :
      (g : A → ℕ) (f : ℕ → A) (i : ℕ) (v : A) (n : ℕ)
      → i < n
      → total (λ j. g (if i == j then v else f j)) n + g (f i) ≡ total (λ j. g (f j)) n + g v
  unfolding total
  total-set g f i v zero h = absurd (omega arith)
  total-set g f i v (suc n) h = ground (arith, total-set g f i v n, total-set_above g f i v n)

-- A term is at most the sum, and a sum of bits that has a 0 is not full.
pub total_term : (a : ℕ → ℕ) (i n : ℕ) → i < n → a i ≤ total a n
unfolding total
total_term a i zero h = absurd (omega arith)
total_term a i (suc n) h = ground (arith, total_term a i n)

pub total_bound : (a : ℕ → ℕ) (n : ℕ) → ((i : ℕ) → a i ≤ 1) → total a n ≤ n
unfolding total
total_bound a zero h = omega arith
total_bound a (suc n) h = omega (arith, total_bound a n h, h n)

pub total_room : (a : ℕ → ℕ) (i n : ℕ) → ((j : ℕ) → a j ≤ 1) → i < n → a i ≡ 0 → total a n < n
unfolding total
total_room a i zero h hi z = absurd (omega arith)
total_room a i (suc n) h hi z = ground (arith, total_room a i n h, total_bound a n h, h n)

-- A sum of zeros.
pub total_zero : (a : ℕ → ℕ) (n : ℕ) → ((i : ℕ) → a i ≡ 0) → total a n ≡ 0
unfolding total
total_zero a zero h = refl
total_zero a (suc n) h = omega (arith, total_zero a n h, h n)
