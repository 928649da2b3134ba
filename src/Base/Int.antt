-- ===== src/Base/Int.antt =====
-- Signed integers over the native numbers, for the `int32` fields of configurations.
use Prim.Native.Nat.{ℕ}
use mathlib.Core.Bool.{Bool, true, false}
use service_extensions_sampl.Base.Test.{ltb, leb}

-- `negsuc n` is -(n + 1).
pub data ℤ : Type 0 where
  pos : ℕ → ℤ
  negsuc : ℕ → ℤ

-- The tests against a number that is not negative.
abbrev pub ltb_ℤ : ℤ → ℕ → Bool
ltb_ℤ (pos n) k = ltb n k
ltb_ℤ (negsuc n) k = true

abbrev pub gtb_ℤ : ℤ → ℕ → Bool
gtb_ℤ (pos n) k = ltb k n
gtb_ℤ (negsuc n) k = false

abbrev pub is_zero_ℤ : ℤ → Bool
is_zero_ℤ (pos n) = leb n 0
is_zero_ℤ (negsuc n) = false
