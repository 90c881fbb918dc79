-- ===== src/Harness/Cool.antt =====
-- The temperatures of a benchmark that has run to its end.
use bazzite_k.Common.{
  ℕ, true, ◌≡◌, inl, inr, ltb, leb, Option, some, none, List, [], ◌∷◌, Bool-cases, All, arith,
}
use bazzite_k.Harness.{Watch, watch, maximum, larger, kept}

-- Below the limit.
abbrev pub IsCool : ℕ → Type 0
IsCool t = ltb t 95000 ≡ true

abbrev pub AreCool : Watch → Type 0
AreCool (Watch.over ts) = All IsCool ts
AreCool Watch.hot = Unit
AreCool Watch.unread = Unit

kept-AreCool : (t : ℕ) (w : Watch) → IsCool t → AreCool w → AreCool (kept t w)
kept-AreCool t (Watch.over ts) c k = (c, k)
kept-AreCool t Watch.hot c k = tt
kept-AreCool t Watch.unread c k = tt

pub watch-AreCool : (ts : List (Option ℕ)) → AreCool (watch ts)
unfolding watch
watch-AreCool [] = tt
watch-AreCool (none ∷ ts) = tt
watch-AreCool (some t ∷ ts) = elim (Bool-cases (leb 95000 t)) [
  | inl h ↦ rw h tt
  | inr c ↦
      let cool : IsCool t = ground arith in rw c (kept-AreCool t (watch ts) cool (watch-AreCool ts))
]

abbrev pub IsCoolMax : Option ℕ → Type 0
IsCoolMax none = Unit
IsCoolMax (some m) = IsCool m

pub maximum-IsCoolMax : (ts : List ℕ) → All IsCool ts → IsCoolMax (maximum ts)
maximum-IsCoolMax [] k = tt
maximum-IsCoolMax (t ∷ ts) k = go t (maximum ts) k.0 (maximum-IsCoolMax ts k.1)
  where
    go :
        (t : ℕ) (o : Option ℕ)
        → IsCool t
        → IsCoolMax o
        → IsCoolMax (elim o [ none ↦ some t | some m ↦ some (larger t m) ])
    go t none c k = c
    go t (some m) c k = elim (Bool-cases (leb t m)) [ inl h ↦ rw h k | inr h ↦ rw h c ]
