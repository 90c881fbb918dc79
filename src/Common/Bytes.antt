-- ===== src/Common/Bytes.antt =====
-- Python's `bytes` as a list of numbers below 256, and its little-endian integers of four bytes.
use bazzite_k.Common.Lists.{All, length}
use Prim.Native.Nat.{ℕ, zero, suc, ◌+◌, ◌*◌, ◌/◌, ◌%◌, ◌<◌, ◌^◌}
use Prim.Native.Char.{code}
use Prim.Native.String.{String}
use mathlib.Core.Path.{◌≡◌, refl}
use mathlib.Core.List.{List, [], ◌∷◌}
use native.Mathlib.Omega.{arith}

-- The bytes of an ASCII text.
abbrev pub bytes : String → List ℕ
bytes String.[] = []
bytes (String.◌∷◌ c s) = code c ∷ bytes s

abbrev pub AreBytes : List ℕ → Type 0
AreBytes = All (λ x. x < 256)

-- `int.from_bytes(b, 'little')`
unfoldable pub from_bytes : List ℕ → ℕ
from_bytes [] = 0
from_bytes (x ∷ xs) = x + 256 * from_bytes xs

-- `n.to_bytes(k, 'little')`, which raises OverflowError from 256 ^ k on: the callers stay below.
unfoldable pub to_bytes : ℕ → ℕ → List ℕ
to_bytes n zero = []
to_bytes n (suc k) = (n % 256) ∷ to_bytes (n / 256) k

pub length-to_bytes : (n k : ℕ) → length (to_bytes n k) ≡ k
unfolding to_bytes
length-to_bytes n zero = refl
length-to_bytes n (suc k) = omega (arith, length-to_bytes (n / 256) k)

pub from_bytes-to_bytes : (n : ℕ) → n < 2 ^ 32 → from_bytes (to_bytes n 4) ≡ n
unfolding from_bytes to_bytes
from_bytes-to_bytes n h = omega arith

pub from_bytes-lt : (b : List ℕ) → AreBytes b → length b ≡ 4 → from_bytes b < 2 ^ 32
unfolding from_bytes
from_bytes-lt (a ∷ b ∷ c ∷ d ∷ []) h l = omega arith
from_bytes-lt [] h l = absurd (omega arith)
from_bytes-lt (a ∷ []) h l = absurd (omega arith)
from_bytes-lt (a ∷ b ∷ []) h l = absurd (omega arith)
from_bytes-lt (a ∷ b ∷ c ∷ []) h l = absurd (omega arith)
from_bytes-lt (a ∷ b ∷ c ∷ d ∷ e ∷ r) h l = absurd (omega arith)
