-- ===== src/Common/Int.antt =====
-- Go's signed integers where the program tests for negative values, as sign and magnitude.
use Prim.Native.Nat.{ℕ, ◌+◌, ◌-◌, ◌*◌}
use mathlib.Core.Bool.{Bool, true, false}
use agentless_monitoring.Common.Tests.{ltb, ◌==◌}

-- `negsuc n` is -(n + 1).
pub data ℤ : Type 0 where
  pos : ℕ → ℤ
  negsuc : ℕ → ℤ

-- The value, or 0 below 0.
abbrev pub pos_part : ℤ → ℕ
pos_part (pos n) = n
pos_part (negsuc n) = 0

-- `x < k` and `x > k` for a constant k that is not negative.
abbrev pub below : ℤ → ℕ → Bool
below (pos n) k = ltb n k
below (negsuc n) k = true

abbrev pub above : ℤ → ℕ → Bool
above (pos n) k = ltb k n
above (negsuc n) k = false

abbrev pub is_zero : ℤ → Bool
is_zero (pos n) = n == 0
is_zero (negsuc n) = false

-- `x * k` for a constant k that is positive.
abbrev pub scale : ℤ → ℕ → ℤ
scale (pos n) k = pos (n * k)
scale (negsuc n) k = negsuc (n * k + (k - 1))
