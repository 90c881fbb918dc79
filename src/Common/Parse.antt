-- ===== src/Common/Parse.antt =====
-- `text.split()`, `text.strip()` and `int(text)`, over the codes of an ASCII text, and `split` over UTF-8.
use Prim.Native.Nat.{ℕ, zero, suc, ◌+◌, ◌-◌, ◌*◌}
use mathlib.Core.Bool.{Bool, true, false, ◌&&◌, ◌||◌}
use mathlib.Core.Option.{Option, none, some}
use mathlib.Core.List.{List, [], ◌∷◌, reverse}
use bazzite_k.Common.Tests.{leb, ◌==◌, if◌then◌else◌}
use bazzite_k.Common.Int.{ℤ, pos, negsuc}

-- White space of `str`, as far as it is ASCII.
abbrev pub is_blank : ℕ → Bool
is_blank c = (leb 9 c && leb c 13) || (leb 28 c && leb c 31) || c == 32

abbrev add_char : ℕ → Bool → List (List ℕ) → List (List ℕ)
add_char c true ws = (c ∷ []) ∷ ws
add_char c false [] = (c ∷ []) ∷ []
add_char c false (w ∷ ws) = (c ∷ w) ∷ ws

abbrev starts_blank : List ℕ → Bool
starts_blank [] = true
starts_blank (c ∷ cs) = is_blank c

-- `text.split()`: the runs of characters that are not blank.
unfoldable pub words : List ℕ → List (List ℕ)
words [] = []
words (c ∷ cs) =
    let rest = words cs in if is_blank c then rest else add_char c (starts_blank cs) rest

-- White space of `str` beyond ASCII, in UTF-8: how many bytes follow the first one; zero is none.
abbrev is_wide_blank : ℕ → ℕ → ℕ → Bool
is_wide_blank a b c =
    (a == 0xe1 && (b == 0x9a && c == 0x80))
    || (a == 0xe2
        && ((b == 0x80 && ((leb 0x80 c && leb c 0x8a) || c == 0xa8 || c == 0xa9 || c == 0xaf))
            || (b == 0x81 && c == 0x9f)))
    || (a == 0xe3 && (b == 0x80 && c == 0x80))

abbrev blank_tail : List ℕ → ℕ
blank_tail [] = 0
blank_tail (a ∷ []) = 0
blank_tail (a ∷ b ∷ cs) = if a == 0xc2 && (b == 0x85 || b == 0xa0) then 1 else third a b cs
  where
    third : ℕ → ℕ → List ℕ → ℕ
    third a b [] = 0
    third a b (c ∷ cs) = if is_wide_blank a b c then 2 else 0

-- Each of them becomes one blank; `n` bytes of the last one are to be left out.
unfoldable blanked : ℕ → List ℕ → List ℕ
blanked n [] = []
blanked (suc n) (c ∷ cs) = blanked n cs
blanked zero (c ∷ cs) =
    let k = blank_tail (c ∷ cs) in
    let rest = blanked k cs in if k == 0 then c ∷ rest else b' ' ∷ rest

-- `line.decode().split()`, in UTF-8, of bytes that can be decoded.
unfoldable pub str_words : List ℕ → List (List ℕ)
unfolding blanked
str_words line = words (blanked 0 line)

abbrev pub strip_left : (ℕ → Bool) → List ℕ → List ℕ
strip_left blank [] = []
strip_left blank (c ∷ cs) = let rest = strip_left blank cs in if blank c then rest else c ∷ cs

-- `strip()` of `str` by `is_blank`, and of `bytes` by `is_space`.
unfoldable pub strip : (ℕ → Bool) → List ℕ → List ℕ
strip blank cs = reverse (strip_left blank (reverse (strip_left blank cs)))

-- Digits, with single underscores between them; the flag tells that a digit stands before.
parse_digits : Bool → ℕ → List ℕ → Option ℕ
parse_digits after_digit acc [] = if after_digit then some acc else none
parse_digits after_digit acc (c ∷ cs) =
    let digit = parse_digits true (acc * 10 + (c - b'0')) cs in
    let underscore = parse_digits false acc cs in
    if leb b'0' c && leb c b'9'
    then digit
    else if c == b'_' && after_digit
    then underscore
    else none

abbrev negated : Option ℕ → Option ℤ
negated none = none
negated (some n) = if n == 0 then some (pos 0) else some (negsuc (n - 1))

abbrev positive : Option ℕ → Option ℤ
positive none = none
positive (some n) = some (pos n)

parse_sign : List ℕ → Option ℤ
unfolding parse_digits
parse_sign [] = none
parse_sign (c ∷ cs) =
    if c == b'-'
    then negated (parse_digits false 0 cs)
    else if c == b'+'
    then positive (parse_digits false 0 cs)
    else positive (parse_digits false 0 (c ∷ cs))

-- `int(text)`; none is ValueError
unfoldable pub parse_int : List ℕ → Option ℤ
unfolding strip parse_sign
parse_int cs = parse_sign (strip is_blank cs)
