-- ===== src/Prelude/Int.antt =====
-- Signed 32-bit fields (`i32`) as integers over the native numbers, under the library's names.
use Prim.Native.Nat.{ℕ}
use mathlib.Core.Bool.{Bool, false}
use steamroids.Prelude.Tests.{◌==◌}

-- `negsuc n` is -(n + 1).
pub data ℤ : Type 0 where
  pos : ℕ → ℤ
  negsuc : ℕ → ℤ

-- Whether an integer is the given non-negative constant.
abbrev pub is_code : ℤ → ℕ → Bool
is_code (pos n) c = n == c
is_code (negsuc n) c = false
