-- ===== src/Common/Text.antt =====
-- Python's texts: compared and joined whole as native strings, and split as lists of characters.
use Prim.Native.Nat.{ℕ, zero, suc, ◌/◌, ◌%◌}
use Prim.Native.String.{String, ◌++◌ as join}
use mathlib.Core.Path.{◌≡◌}
use mathlib.Core.Logic.{◌↔◌}
use mathlib.Core.Bool.{Bool, true, false, ◌&&◌, ◌||◌}
use mathlib.Core.List.{List, [], ◌∷◌}
use text.Mathlib.Text.{◌==◌ as str_eq}
use text.Mathlib.TextEquality.{eq_iff}
use bazzite_k.Common.Tests.{◌==◌, ltb, if◌then◌else◌}

abbrev pub text_eq : String → String → Bool
text_eq = str_eq

abbrev pub text_append : String → String → String
text_append = join

pub text_eq_iff : (s t : String) → (text_eq s t ≡ true) ↔ (s ≡ t)
text_eq_iff s t = eq_iff s t

abbrev on_first : ℕ → List (List ℕ) → List (List ℕ)
on_first y [] = (y ∷ []) ∷ []
on_first y (p ∷ ps) = (y ∷ p) ∷ ps

-- `s.split(c)` at a separator of one character. A text with no separator is its own only part.
unfoldable pub split : ℕ → List ℕ → List (List ℕ)
split c [] = [] ∷ []
split c (x ∷ xs) = let rest = split c xs in if x == c then [] ∷ rest else on_first x rest

abbrev pub codes_eq : List ℕ → List ℕ → Bool
codes_eq [] [] = true
codes_eq (x ∷ xs) (y ∷ ys) = x == y && codes_eq xs ys
codes_eq _ _ = false

-- `part in parts`
abbrev pub has_part : List ℕ → List (List ℕ) → Bool
has_part p [] = false
has_part p (q ∷ qs) = codes_eq p q || has_part p qs

abbrev pub has_prefix : List ℕ → List ℕ → Bool
has_prefix [] s = true
has_prefix (x ∷ xs) [] = false
has_prefix (x ∷ xs) (y ∷ ys) = x == y && has_prefix xs ys

-- `part in text`
abbrev pub has_infix : List ℕ → List ℕ → Bool
has_infix p [] = has_prefix p []
has_infix p (x ∷ xs) = has_prefix p (x ∷ xs) || has_infix p xs

abbrev digit : ℕ → String
digit n =
    if n == 0
    then "0"
    else if n == 1
    then "1"
    else if n == 2
    then "2"
    else if n == 3
    then "3"
    else if n == 4
    then "4"
    else if n == 5
    then "5"
    else if n == 6
    then "6"
    else if n == 7
    then "7"
    else if n == 8
    then "8"
    else "9"

-- A number has at most as many further digits as its value.
abbrev digits : ℕ → ℕ → String
digits zero n = digit (n % 10)
digits (suc fuel) n =
    let front = digits fuel (n / 10) in
    if ltb n 10 then digit n else text_append front (digit (n % 10))

-- `str(n)`
unfoldable pub decimal : ℕ → String
decimal n = digits n n
