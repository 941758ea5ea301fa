-- ===== src/Common/Integer.antt =====
-- Signed integers over the native numbers: `negsuc n` is `-1 - n`.
use Prim.Native.Nat.{ℕ, zero, suc}
use mathlib.Core.Bool.{Bool, false}
use daimon.Common.Tests.{◌==◌}

pub data ℤ : Type 0 where
  pos negsuc : ℕ → ℤ

-- `-n`.
unfoldable pub neg : ℕ → ℤ
neg zero = pos zero
neg (suc n) = negsuc n

-- `==` of two integers.
unfoldable pub int_eq : ℤ → ℤ → Bool
int_eq (pos m) (pos n) = m == n
int_eq (negsuc m) (negsuc n) = m == n
int_eq _ _ = false
