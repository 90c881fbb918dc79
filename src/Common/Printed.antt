-- ===== src/Common/Printed.antt =====
-- Texts without white space, written as a line and read back.
use bazzite_k.Common.{
  ℕ, true, false, ◌≡◌, refl, ◌⊎◌, inl, inr, List, [], ◌∷◌, ◌++◌, All, All-append, Bool-cases,
  codes_eq, ◌==◌, ==_iff,
}
use mathlib.Core.List.{reverse, reverse-cons, reverse-reverse, reverse-append}
use bazzite_k.Common.Parse.{strip, strip_left, is_blank}

-- No white space, as in a digest in hexadecimal.
abbrev pub IsPrinted : List ℕ → Type 0
IsPrinted = All (λ c. is_blank c ≡ false)

strip_left-IsPrinted : (xs : List ℕ) → IsPrinted xs → strip_left is_blank xs ≡ xs
strip_left-IsPrinted [] h = refl
strip_left-IsPrinted (c ∷ cs) h = rw h.0 refl

reverse-IsPrinted : (xs : List ℕ) → IsPrinted xs → IsPrinted (reverse xs)
reverse-IsPrinted [] h = tt
reverse-IsPrinted (c ∷ cs) h = rw (reverse-cons c cs) (
    All-append (λ x. is_blank x ≡ false) (reverse cs) (c ∷ []) (reverse-IsPrinted cs h.1) (h.0, tt))

first_strip :
    (xs : List ℕ)
    → IsPrinted xs
    → (strip_left is_blank (xs ++ (10 ∷ [])) ≡ xs ++ (10 ∷ [])) ⊎ (xs ≡ [])
first_strip [] h = inr refl
first_strip (c ∷ cs) h = inl (rw h.0 refl)

-- The line end that the marker is written with is not read back.
pub strip-line : (xs : List ℕ) → IsPrinted xs → strip is_blank (xs ++ (10 ∷ [])) ≡ xs
unfolding strip
strip-line xs h = elim (first_strip xs h) [
  | inl e ↦ rw e (
      rw (reverse-append xs (10 ∷ []))
        (rw (strip_left-IsPrinted (reverse xs) (reverse-IsPrinted xs h)) (reverse-reverse xs)))
  | inr n ↦ rw n refl
]

pub codes_eq_refl : (xs : List ℕ) → codes_eq xs xs ≡ true
codes_eq_refl [] = refl
codes_eq_refl (x ∷ xs) = rw ((==_iff x x).1 refl) (codes_eq_refl xs)

pub codes_eq_only : (xs ys : List ℕ) → codes_eq xs ys ≡ true → xs ≡ ys
codes_eq_only [] [] h = refl
codes_eq_only (x ∷ xs) (y ∷ ys) h = elim (Bool-cases (x == y)) [
  | inl e ↦
      let rest : codes_eq xs ys ≡ true = rw e at h in
      rw ((==_iff x y).0 e) (rw (codes_eq_only xs ys rest) refl)
  | inr e ↦ absurd (let bad : false ≡ true = rw e at h in cc)
]
codes_eq_only [] (y ∷ ys) h = absurd (cc)
codes_eq_only (x ∷ xs) [] h = absurd (cc)
