-- ===== src/Common/Infix.antt =====
-- `part in text`: what the search finds.
use bazzite_k.Common.{
  ℕ, ◌≡◌, refl, ap, Bool, true, false, Bool-cases, ◌||◌, ◌==◌, ==_iff, List, [], ◌∷◌, ◌++◌, inl,
  inr, has_infix, has_prefix,
}

-- The part stands somewhere in the text.
abbrev pub IsInfix : List ℕ → List ℕ → Type 0
IsInfix p t = (before : List ℕ) × (after : List ℕ) × (t ≡ before ++ (p ++ after))

has_prefix-after : (p t : List ℕ) → has_prefix p t ≡ true → (after : List ℕ) × (t ≡ p ++ after)
has_prefix-after [] t h = (t, refl)
has_prefix-after (x ∷ p) [] h = absurd (cc)
has_prefix-after (x ∷ p) (y ∷ t) h = elim (Bool-cases (x == y)) [
  | inl e ↦
      let later : has_prefix p t ≡ true = rw e at h in
      let (after, same) = has_prefix-after p t later in
      let first : x ≡ y = (==_iff x y).0 e in (after, rw first (ap (λ r. y ∷ r) same))
  | inr f ↦ absurd (let bad : false ≡ true = rw f at h in cc)
]

has_prefix-append : (p after : List ℕ) → has_prefix p (p ++ after) ≡ true
has_prefix-append [] after = refl
has_prefix-append (x ∷ p) after = rw ((==_iff x x).1 refl) (has_prefix-append p after)

pub has_infix-IsInfix : (p t : List ℕ) → has_infix p t ≡ true → IsInfix p t
has_infix-IsInfix p [] h = let (after, e) = has_prefix-after p [] h in ([], after, e)
has_infix-IsInfix p (x ∷ t) h = elim (Bool-cases (has_prefix p (x ∷ t))) [
  | inl e ↦ let (after, s) = has_prefix-after p (x ∷ t) e in ([], after, s)
  | inr f ↦
      let later : has_infix p t ≡ true = rw f at h in
      let (before, after, s) = has_infix-IsInfix p t later in (x ∷ before, after, ap (λ r. x ∷ r) s)
]

prefix-has_infix : (p t : List ℕ) → has_prefix p t ≡ true → has_infix p t ≡ true
prefix-has_infix p [] h = h
prefix-has_infix p (x ∷ t) h = rw h refl

or_true : (b c : Bool) → c ≡ true → b || c ≡ true
or_true true c h = refl
or_true false c h = h

pub IsInfix-has_infix : (p t : List ℕ) → IsInfix p t → has_infix p t ≡ true
IsInfix-has_infix p t ([], after, e) =
    rw e (prefix-has_infix p (p ++ after) (has_prefix-append p after))
IsInfix-has_infix p t (x ∷ before, after, e) = rw e (
    or_true (has_prefix p (x ∷ (before ++ (p ++ after)))) _
      (IsInfix-has_infix p (before ++ (p ++ after)) (before, after, refl)))
