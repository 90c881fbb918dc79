-- ===== src/DiagnosticRelay/Joined.antt =====
-- Lines and the stream that they are cut from.
use bazzite_k.Common.{
  ℕ, ◌≡◌, refl, ap, sym, ◌∙◌, inl, inr, ◌==◌, ==_iff, List, [], ◌∷◌, ◌++◌, Bool-cases,
}
use mathlib.Core.List.{append_assoc}
use bazzite_k.Common.Lines.{lines, put_char, Lines}

-- Lines as they are written: each with its newline.
unfoldable pub joined : List (List ℕ) → List ℕ
joined [] = []
joined (l ∷ ls) = l ++ (10 ∷ joined ls)

pub joined-append : (a b : List (List ℕ)) → joined (a ++ b) ≡ joined a ++ joined b
unfolding joined
joined-append [] b = refl
joined-append (l ∷ ls) b =
    ap (λ t. l ++ (10 ∷ t)) (joined-append ls b) ∙ sym (append_assoc l (10 ∷ joined ls) (joined b))

abbrev whole : Lines → List ℕ
whole (ls, rest) = joined ls ++ rest

put_char-whole : (c : ℕ) (found : Lines) → whole (put_char c found) ≡ c ∷ whole found
unfolding joined
put_char-whole c ([], rest) = refl
put_char-whole c (l ∷ ls, rest) = refl

-- No byte is lost by cutting a stream into lines.
pub lines-whole : (s : List ℕ) → whole (lines s) ≡ s
unfolding lines joined
lines-whole [] = refl
lines-whole (c ∷ cs) = elim (Bool-cases (c == 10)) [
  | inl e ↦ rw e (ap (λ t. 10 ∷ t) (lines-whole cs) ∙ ap (λ d. d ∷ cs) (sym ((==_iff c 10).0 e)))
  | inr e ↦ rw e (put_char-whole c (lines cs) ∙ ap (λ t. c ∷ t) (lines-whole cs))
]
