-- ===== src/Common/Int.antt =====
-- Go's `int` and `int64`: signed integers over the native numbers, their tests, and the wrap-around
-- of a product at 64 bits.
use Prim.Native.Nat.{ℕ, zero, suc, ◌+◌, ◌-◌, ◌%◌, ◌≤◌}
use mathlib.Core.Path.{◌≡◌}
use mathlib.Core.Logic.{◌↔◌}
use mathlib.Core.Bool.{Bool, true, false}
use native.Mathlib.Omega.{arith}
use re_mazarin.Common.Tests.{leb, ltb, ◌==◌, if◌then◌else◌}

-- `negsuc n` is -(n + 1).
pub data ℤ : Type 0 where
  pos : ℕ → ℤ
  negsuc : ℕ → ℤ

abbrev pub pos_part : ℤ → ℕ
pos_part (pos n) = n
pos_part (negsuc n) = 0

-- z <= 0
abbrev pub is_nonpos : ℤ → Bool
is_nonpos z = pos_part z == 0

abbrev pub eq_ℤ : ℤ → ℤ → Bool
eq_ℤ (pos a) (pos b) = a == b
eq_ℤ (negsuc a) (negsuc b) = a == b
eq_ℤ _ _ = false

pub eq_ℤ_iff : (a b : ℤ) → (eq_ℤ a b ≡ true) ↔ (a ≡ b)
eq_ℤ_iff (pos a) (pos b) = ground arith
eq_ℤ_iff (pos a) (negsuc b) = ground arith
eq_ℤ_iff (negsuc a) (pos b) = ground arith
eq_ℤ_iff (negsuc a) (negsuc b) = ground arith

abbrev pub i64_mod : ℕ
i64_mod = 18446744073709551616

abbrev pub max_i64 : ℕ
max_i64 = 9223372036854775807

-- The int64 whose bits are those of `n`.
unfoldable pub wrap64 : ℕ → ℤ
wrap64 n = let r = n % i64_mod in if leb r max_i64 then pos r else negsuc (i64_mod - 1 - r)

-- a < b
abbrev pub lt_ℤ : ℤ → ℤ → Bool
lt_ℤ (pos a) (pos b) = ltb a b
lt_ℤ (pos a) (negsuc b) = false
lt_ℤ (negsuc a) (pos b) = true
lt_ℤ (negsuc a) (negsuc b) = ltb b a

-- b - a, where a < b
abbrev pub gap : ℤ → ℤ → ℕ
gap (pos a) (pos b) = b - a
gap (negsuc a) (pos b) = suc (a + b)
gap (negsuc a) (negsuc b) = a - b
gap (pos a) (negsuc b) = 0

-- The int64 a + k.
unfoldable pub shifted : ℤ → ℕ → ℤ
unfolding wrap64
shifted (pos a) k = wrap64 (a + k)
shifted (negsuc a) zero = negsuc a
shifted (negsuc zero) (suc k) = wrap64 k
shifted (negsuc (suc a)) (suc k) = shifted (negsuc a) k

pub wrap64_small : (n : ℕ) → n ≤ max_i64 → wrap64 n ≡ pos n
unfolding wrap64
wrap64_small n h = ground arith
