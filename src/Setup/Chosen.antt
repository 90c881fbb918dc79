-- ===== src/Setup/Chosen.antt =====
-- Which account files/usr/libexec/moonmachine-setup sets up.
use mathlib.Core.Path.{subst}
use bazzite_k.Common.{
  ℕ, Bool, true, false, ◌≡◌, refl, ap, sym, ◌∙◌, inl, inr, ◌||◌, not, leb, ltb, Option, some, none,
  List, [], ◌∷◌, ◌++◌, All, All-append, if◌then◌else◌, Bool-cases, arith,
}
use bazzite_k.Setup.Seed.{Account}
use bazzite_k.Setup.Main.{eligible, kept, insert, sorted, first, chosen}

-- `b` is not eligible, or its number is not below that of `a`.
abbrev pub IsFrom : (List ℕ → Bool) → Account → Account → Type 0
IsFrom is_dir a b = (not (eligible is_dir b) || leb a.uid b.uid) ≡ true

-- … or its number is above that of `a`.
abbrev pub IsAbove : (List ℕ → Bool) → Account → Account → Type 0
IsAbove is_dir a b = (not (eligible is_dir b) || ltb a.uid b.uid) ≡ true

-- The first in the list of those eligible with the least number.
abbrev pub IsFirst : (List ℕ → Bool) → List Account → Account → Type 0
IsFirst is_dir ps a =
    (before : List Account) × (after : List Account) × (ps ≡ before ++ (a ∷ after))
    × (eligible is_dir a ≡ true)
    × All (IsAbove is_dir a) before
    × All (IsFrom is_dir a) after

abbrev better : Account → Option Account → Account
better p none = p
better p (some a) = if leb p.uid a.uid then p else a

first-insert : (p : Account) (qs : List Account) → first (insert p qs) ≡ some (better p (first qs))
unfolding first insert
first-insert p [] = refl
first-insert p (q ∷ qs) = elim (Bool-cases (leb p.uid q.uid)) [
  | inl t ↦ rw t refl
  | inr f ↦ rw f refl
]

chosen-out :
    (is_dir : List ℕ → Bool) (p : Account) (ps : List Account)
    → eligible is_dir p ≡ false
    → chosen is_dir (p ∷ ps) ≡ chosen is_dir ps
unfolding chosen kept
chosen-out is_dir p ps f = rw f refl

chosen-in :
    (is_dir : List ℕ → Bool) (p : Account) (ps : List Account)
    → eligible is_dir p ≡ true
    → chosen is_dir (p ∷ ps) ≡ some (better p (chosen is_dir ps))
unfolding chosen kept sorted
chosen-in is_dir p ps t = rw t (first-insert p (sorted (kept is_dir ps)))

IsFrom-above :
    (is_dir : List ℕ → Bool) (p a : Account) (bs : List Account)
    → leb p.uid a.uid ≡ true
    → All (IsAbove is_dir a) bs
    → All (IsFrom is_dir p) bs
IsFrom-above is_dir p a [] t h = tt
IsFrom-above is_dir p a (b ∷ bs) t h = (ground arith, IsFrom-above is_dir p a bs t h.1)

IsFrom-IsFrom :
    (is_dir : List ℕ → Bool) (p a : Account) (bs : List Account)
    → leb p.uid a.uid ≡ true
    → All (IsFrom is_dir a) bs
    → All (IsFrom is_dir p) bs
IsFrom-IsFrom is_dir p a [] t h = tt
IsFrom-IsFrom is_dir p a (b ∷ bs) t h = (ground arith, IsFrom-IsFrom is_dir p a bs t h.1)

IsFrom-IsFirst :
    (is_dir : List ℕ → Bool) (ps : List Account) (p a : Account)
    → leb p.uid a.uid ≡ true
    → IsFirst is_dir ps a
    → All (IsFrom is_dir p) ps
IsFrom-IsFirst is_dir ps p a t (before, after, e, el, ab, fr) = rw e (
    All-append (IsFrom is_dir p) before (a ∷ after) (IsFrom-above is_dir p a before t ab)
      (ground arith, IsFrom-IsFrom is_dir p a after t fr))

IsFrom-none :
    (is_dir : List ℕ → Bool) (ps : List Account) (p : Account)
    → chosen is_dir ps ≡ none
    → All (IsFrom is_dir p) ps
IsFrom-none is_dir [] p h = tt
IsFrom-none is_dir (q ∷ qs) p h = elim (Bool-cases (eligible is_dir q)) [
  | inl t ↦ absurd (
      let bad : some (better q (chosen is_dir qs)) ≡ none = sym (chosen-in is_dir q qs t) ∙ h in cc)
  | inr f ↦ (rw f refl, IsFrom-none is_dir qs p (sym (chosen-out is_dir q qs f) ∙ h))
]

-- The account that is better than the best of the others is the best.
better-IsFirst :
    (is_dir : List ℕ → Bool) (p : Account) (ps : List Account) (o : Option Account)
    → eligible is_dir p ≡ true
    → chosen is_dir ps ≡ o
    → ((b : Account) → o ≡ some b → IsFirst is_dir ps b)
    → IsFirst is_dir (p ∷ ps) (better p o)
better-IsFirst is_dir p ps none t n k = ([], ps, refl, t, tt, IsFrom-none is_dir ps p n)
better-IsFirst is_dir p ps (some b) t n k = elim (Bool-cases (leb p.uid b.uid)) [
  | inl l ↦ rw l ([], ps, refl, t, tt, IsFrom-IsFirst is_dir ps p b l (k b refl))
  | inr f ↦
      let (before, after, e, el, ab, fr) = k b refl in
      let above : IsAbove is_dir b p = ground arith in
      rw f (p ∷ before, after, ap (λ l. p ∷ l) e, el, (above, ab), fr)
]

chosen-nil : (is_dir : List ℕ → Bool) (a : Account) → chosen is_dir [] ≡ some a → ⊥
unfolding chosen kept sorted first
chosen-nil is_dir a h = cc

-- The account that `main` sets up: in the order of the password file, the first of the regular login
-- accounts with the least number.
pub chosen-IsFirst :
    (is_dir : List ℕ → Bool) (ps : List Account) (a : Account)
    → chosen is_dir ps ≡ some a
    → IsFirst is_dir ps a
chosen-IsFirst is_dir [] a h = absurd (chosen-nil is_dir a h)
chosen-IsFirst is_dir (p ∷ ps) a h = elim (Bool-cases (eligible is_dir p)) [
  | inr f ↦
      let (before, after, e, el, ab, fr) =
        chosen-IsFirst is_dir ps a (sym (chosen-out is_dir p ps f) ∙ h) in
      (p ∷ before, after, ap (λ l. p ∷ l) e, el, (rw f refl, ab), fr)
  | inl t ↦
      let same : some (better p (chosen is_dir ps)) ≡ some a = sym (chosen-in is_dir p ps t) ∙ h in
      let here : better p (chosen is_dir ps) ≡ a = cc in
      subst (IsFirst is_dir (p ∷ ps)) here
        (better-IsFirst is_dir p ps (chosen is_dir ps) t refl (λ b k. chosen-IsFirst is_dir ps b k))
]
