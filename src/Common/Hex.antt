-- ===== src/Common/Hex.antt =====
-- `bytes.hex()` and `bytes.fromhex(text)`, over the codes of an ASCII text.
use Prim.Native.Nat.{ℕ, ◌+◌, ◌-◌, ◌*◌, ◌/◌, ◌%◌, ◌<◌}
use mathlib.Core.Path.{◌≡◌, refl}
use mathlib.Core.Bool.{Bool, false, ◌&&◌, ◌||◌}
use mathlib.Core.Option.{Option, none, some}
use mathlib.Core.List.{List, [], ◌∷◌}
use native.Mathlib.Omega.{arith}
use bazzite_k.Common.Tests.{leb, ltb, ◌==◌, if◌then◌else◌}
use bazzite_k.Common.Bytes.{AreBytes}

abbrev pub hex_digit : ℕ → ℕ
hex_digit d = if ltb d 10 then b'0' + d else b'a' + (d - 10)

unfoldable pub hex : List ℕ → List ℕ
hex [] = []
hex (x ∷ xs) = hex_digit (x / 16) ∷ hex_digit (x % 16) ∷ hex xs

-- Digits of either case.
abbrev pub hex_value : ℕ → Option ℕ
hex_value c =
    if leb b'0' c && leb c b'9'
    then some (c - b'0')
    else if leb b'a' c && leb c b'f'
    then some (c - b'a' + 10)
    else if leb b'A' c && leb c b'F'
    then some (c - b'A' + 10)
    else none

abbrev push_byte : Option ℕ → Option ℕ → Option (List ℕ) → Option (List ℕ)
push_byte (some h) (some l) (some bs) = some ((h * 16 + l) ∷ bs)
push_byte _ _ _ = none

-- White space between the bytes, which `fromhex` skips.
abbrev pub is_space : ℕ → Bool
is_space c = (leb 9 c && leb c 13) || c == 32

-- None is ValueError: an odd number of digits, or another character.
unfoldable pub from_hex : List ℕ → Option (List ℕ)
from_hex [] = some []
from_hex (h ∷ []) = if is_space h then some [] else none
from_hex (h ∷ l ∷ cs) =
    let skipped = from_hex (l ∷ cs) in
    let rest = from_hex cs in
    if is_space h then skipped else push_byte (hex_value h) (hex_value l) rest

hex_value-digit : (d : ℕ) → d < 16 → hex_value (hex_digit d) ≡ some d
hex_value-digit d h = ground arith

is_space-digit : (d : ℕ) → d < 16 → is_space (hex_digit d) ≡ false
is_space-digit d h = ground arith

-- A text that `hex` made is read back.
pub from_hex-hex : (b : List ℕ) → AreBytes b → from_hex (hex b) ≡ some b
unfolding from_hex hex
from_hex-hex [] h = refl
from_hex-hex (x ∷ xs) h =
    rw
      (
        is_space-digit (x / 16) (omega arith),
        hex_value-digit (x / 16) (omega arith),
        hex_value-digit (x % 16) (omega arith),
        from_hex-hex xs h.1,
      )
      (ground arith)
