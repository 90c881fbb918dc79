-- ===== src/Common/Int.antt =====
-- Python's integers over the native numbers.
use Prim.Native.Nat.{ℕ}
use mathlib.Core.Bool.{Bool, true, false}
use bazzite_k.Common.Tests.{◌==◌, ltb}

-- `negsuc n` is -(n + 1).
pub data ℤ : Type 0 where
  pos : ℕ → ℤ
  negsuc : ℕ → ℤ

abbrev pub int_eq : ℤ → ℕ → Bool
int_eq (pos m) n = m == n
int_eq (negsuc m) n = false

-- `i < n` for a number `n`
abbrev pub int_ltb : ℤ → ℕ → Bool
int_ltb (pos m) n = ltb m n
int_ltb (negsuc m) n = true
