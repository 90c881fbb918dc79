-- ===== src/Common/Utf8.antt =====
-- `bytes.decode()`: whether it raises UnicodeDecodeError.
use Prim.Native.Nat.{ℕ, zero, suc}
use mathlib.Core.Bool.{Bool, false, ◌&&◌}
use mathlib.Core.Option.{Option, none, some}
use mathlib.Core.List.{List, [], ◌∷◌}
use bazzite_k.Common.Tests.{ltb, leb, ◌==◌, if◌then◌else◌}

-- How many bytes are to follow, and the range of the next one.
record Expected : Type 0 where
  count : ℕ
  low : ℕ
  high : ℕ

abbrev following : ℕ → ℕ → ℕ → Option Expected
following n l h = some (record { count = n; low = l; high = h })

-- The first byte of a character: no overlong form, no surrogate, nothing above U+10FFFF.
abbrev first_byte : ℕ → Option Expected
first_byte c =
    if ltb c 0x80
    then following 0 0x80 0xbf
    else if leb 0xc2 c && leb c 0xdf
    then following 1 0x80 0xbf
    else if c == 0xe0
    then following 2 0xa0 0xbf
    else if c == 0xed
    then following 2 0x80 0x9f
    else if leb 0xe1 c && leb c 0xef
    then following 2 0x80 0xbf
    else if c == 0xf0
    then following 3 0x90 0xbf
    else if leb 0xf1 c && leb c 0xf3
    then following 3 0x80 0xbf
    else if c == 0xf4
    then following 3 0x80 0x8f
    else none

abbrev next_byte : ℕ → Expected → Option Expected
next_byte c e = elim e.count [
  | zero ↦ first_byte c
  | suc n ↦ if leb e.low c && leb c e.high then following n 0x80 0xbf else none
]

-- The bytes that are left, from a state; none is an error.
abbrev decodes_from : Option Expected → List ℕ → Bool
decodes_from none cs = false
decodes_from (some e) [] = e.count == 0
decodes_from (some e) (c ∷ cs) = decodes_from (next_byte c e) cs

unfoldable pub decodes : List ℕ → Bool
decodes cs = decodes_from (following 0 0x80 0xbf) cs
