-- ===== src/Common/Lines.antt =====
-- A stream of bytes cut into lines, as the programs do it: `pending += chunk`, and while there is a
-- newline in it, `line, pending = pending.split(b'\n', 1)`.
use Prim.Native.Nat.{ℕ, suc, ◌≤◌}
use mathlib.Core.Path.{◌≡◌, refl}
use mathlib.Core.Bool.{false}
use mathlib.Core.Logic.{inl, inr}
use mathlib.Core.Option.{Option, none, some}
use mathlib.Core.List.{List, [], ◌∷◌, ◌++◌}
use native.Mathlib.Omega.{arith}
use bazzite_k.Common.Lists.{length}
use bazzite_k.Common.Tests.{◌==◌, if◌then◌else◌, Bool-cases}

abbrev on_line : ℕ → Option (List ℕ × List ℕ) → Option (List ℕ × List ℕ)
on_line c none = none
on_line c (some (line, rest)) = some (c ∷ line, rest)

-- `pending.split(b'\n', 1)`, none where there is no newline
unfoldable pub split_line : List ℕ → Option (List ℕ × List ℕ)
split_line [] = none
split_line (c ∷ cs) =
    let found = split_line cs in if c == 10 then some ([], cs) else on_line c found

abbrev pub Lines : Type 0
Lines = List (List ℕ) × List ℕ

abbrev pub put_char : ℕ → Lines → Lines
put_char c ([], rest) = ([], c ∷ rest)
put_char c (l ∷ ls, rest) = ((c ∷ l) ∷ ls, rest)

-- All that the loop takes off, and what stays pending.
unfoldable pub lines : List ℕ → Lines
lines [] = ([], [])
lines (c ∷ cs) =
    let found = lines cs in if c == 10 then ([] ∷ found.0, found.1) else put_char c found

abbrev unrolled : List ℕ → Option (List ℕ × List ℕ) → Lines
unrolled pending none = ([], pending)
unrolled pending (some (line, rest)) = (line ∷ (lines rest).0, (lines rest).1)

put_char-unrolled :
    (c : ℕ) (cs : List ℕ) (s : Option (List ℕ × List ℕ))
    → put_char c (unrolled cs s) ≡ unrolled (c ∷ cs) (on_line c s)
put_char-unrolled c cs none = refl
put_char-unrolled c cs (some (l, r)) = refl

-- One turn of the loop.
pub lines_unroll : (pending : List ℕ) → lines pending ≡ unrolled pending (split_line pending)
unfolding lines split_line
lines_unroll [] = refl
lines_unroll (c ∷ cs) = elim (Bool-cases (c == 10)) [
  | inl e ↦ rw e
  | inr e ↦ rw (e, lines_unroll cs) (put_char-unrolled c cs (split_line cs))
]

abbrev pub more : Lines → List ℕ → Lines
more (ls, rest) chunk = (ls ++ (lines (rest ++ chunk)).0, (lines (rest ++ chunk)).1)

put_char-more :
    (c : ℕ) (found : Lines) (chunk : List ℕ)
    → (c == 10) ≡ false
    → put_char c (more found chunk) ≡ more (put_char c found) chunk
unfolding lines
put_char-more c ([], rest) chunk e = rw e
put_char-more c (l ∷ ls, rest) chunk e = refl

-- A stream gives the same lines however it is cut into chunks.
pub lines-append : (a b : List ℕ) → lines (a ++ b) ≡ more (lines a) b
unfolding lines
lines-append [] b = refl
lines-append (c ∷ cs) b = elim (Bool-cases (c == 10)) [
  | inl e ↦ rw (e, lines-append cs b)
  | inr e ↦ rw (e, lines-append cs b) (put_char-more c (lines cs) b e)
]

put_char-rest_le :
    (c n : ℕ) (found : Lines) → length found.1 ≤ n → length (put_char c found).1 ≤ suc n
put_char-rest_le c n ([], rest) h = omega arith
put_char-rest_le c n (l ∷ ls, rest) h = omega arith

-- What stays pending is no longer than what was read.
pub lines-rest_le : (s : List ℕ) → length (lines s).1 ≤ length s
unfolding lines
lines-rest_le [] = omega arith
lines-rest_le (c ∷ cs) = elim (Bool-cases (c == 10)) [
  | inl e ↦ rw e (omega (arith, lines-rest_le cs))
  | inr e ↦ rw e (put_char-rest_le c (length cs) (lines cs) (lines-rest_le cs))
]

put_char-rest :
    (c : ℕ) (found : Lines)
    → (c == 10) ≡ false
    → lines found.1 ≡ ([], found.1)
    → lines (put_char c found).1 ≡ ([], (put_char c found).1)
unfolding lines
put_char-rest c ([], rest) e h = rw (e, h)
put_char-rest c (l ∷ ls, rest) e h = h

-- There is no whole line in what stays pending.
pub lines-rest : (s : List ℕ) → lines (lines s).1 ≡ ([], (lines s).1)
unfolding lines
lines-rest [] = refl
lines-rest (c ∷ cs) = elim (Bool-cases (c == 10)) [
  | inl e ↦ rw e (lines-rest cs)
  | inr e ↦ rw e (put_char-rest c (lines cs) e (lines-rest cs))
]
