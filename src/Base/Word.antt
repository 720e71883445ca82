-- ===== src/Base/Word.antt =====
-- Casts to the unsigned widths, shifts, and the loop `total += f(x)` on a `uint64_t`.
use Prim.Native.Nat.{ℕ, ◌+◌, ◌*◌, ◌/◌, ◌%◌, ◌^◌, ◌<◌}
use mathlib.Core.Path.{◌≡◌}
use mathlib.Core.List.{List, [], ◌∷◌}
use native.Mathlib.Omega.{arith}

abbrev pub u8 : ℕ → ℕ
u8 n = n % 2 ^ 8

abbrev pub u32 : ℕ → ℕ
u32 n = n % 2 ^ 32

abbrev pub u64 : ℕ → ℕ
u64 n = n % 2 ^ 64

infixl 75 ◌<<<◌ ◌>>>◌
abbrev pub ◌<<<◌ : ℕ → ℕ → ℕ
x <<< k = x * 2 ^ k

abbrev pub ◌>>>◌ : ℕ → ℕ → ℕ
x >>> k = x / 2 ^ k

module _ {ℓ} {A : Type ℓ} (f : A → ℕ) where
  -- The exact sum.
  abbrev pub sum_by : List A → ℕ
  sum_by [] = 0
  sum_by (x ∷ xs) = f x + sum_by xs

  -- `for (x : xs) total += f(x);` on a `uint64_t`.
  abbrev pub total_u64 : ℕ → List A → ℕ
  total_u64 total [] = total
  total_u64 total (x ∷ xs) = total_u64 (u64 (total + f x)) xs

  pub total_u64-eq-sum_by :
      (total : ℕ) (xs : List A) → total < 2 ^ 64 → total_u64 total xs ≡ u64 (total + sum_by xs)
  total_u64-eq-sum_by total [] h = omega arith
  total_u64-eq-sum_by total (x ∷ xs) h =
      omega (arith, total_u64-eq-sum_by (u64 (total + f x)) xs (omega arith))
