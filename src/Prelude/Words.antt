-- ===== src/Prelude/Words.antt =====
-- 64-bit and 32-bit unsigned arithmetic: wrapping and saturating.
use Prim.Native.Nat.{ℕ, ◌+◌, ◌-◌, ◌%◌, ◌^◌, ◌<◌, min}
use mathlib.Core.Path.{◌≡◌}
use mathlib.Core.List.{List, [], ◌∷◌}
use native.Mathlib.Omega.{arith}

-- u64::MAX
abbrev pub u64_max : ℕ
u64_max = 2 ^ 64 - 1

-- `a + b` on u64, as a release build computes it
abbrev pub wrapping_add : ℕ → ℕ → ℕ
wrapping_add a b = (a + b) % 2 ^ 64

-- u64::saturating_add
abbrev pub saturating_add : ℕ → ℕ → ℕ
saturating_add a b = min (a + b) u64_max

-- iter().sum::<u64>(), as a release build computes it
abbrev pub sum_u64 : List ℕ → ℕ
sum_u64 [] = 0
sum_u64 (x ∷ xs) = wrapping_add x (sum_u64 xs)

-- the sum with no bound
abbrev pub sum : List ℕ → ℕ
sum [] = 0
sum (x ∷ xs) = x + sum xs

-- Below 2 ^ 64 the wrapping sum is the sum.
pub sum_u64-eq-sum : (xs : List ℕ) → sum xs < 2 ^ 64 → sum_u64 xs ≡ sum xs
sum_u64-eq-sum [] h = omega arith
sum_u64-eq-sum (x ∷ xs) h = omega (arith, sum_u64-eq-sum xs (omega arith))
