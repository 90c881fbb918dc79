-- ===== src/Setup/Steps.antt =====
-- Steps of the setup one after another, whole and cut off, and the paths that they leave alone.
use bazzite_k.Common.{
  ◌≡◌, refl, ap, ◌∙◌, if◌then◌else◌, ◌⊎◌, inl, inr, List, [], ◌∷◌, ◌++◌, All, Bool-cases,
}
use bazzite_k.Setup.Disk.{FilePath, Disk, exists, touch, write}
use bazzite_k.Setup.Seed.{Step, perform, if_exists}

-- The disks at which a run may end: after any number of its steps.
pub data Cut : List Step → Disk → Disk → Type 0 where
  stop : {ss : List Step} {d : Disk} → Cut ss d d
  step : {s : Step} {ss : List Step} {d e : Disk} → Cut ss (s d) e → Cut (s ∷ ss) d e

pub Cut-append :
    (xs ys : List Step) {d e : Disk} → Cut (xs ++ ys) d e → Cut xs d e ⊎ Cut ys (perform xs d) e
Cut-append [] ys c = inr c
Cut-append (x ∷ xs) ys Cut.stop = inl Cut.stop
Cut-append (x ∷ xs) ys (Cut.step c) = elim (Cut-append xs ys c) [
  | inl h ↦ inl (Cut.step h)
  | inr h ↦ inr h
]

pub perform-Cut : (ss : List Step) (d : Disk) → Cut ss d (perform ss d)
perform-Cut [] d = Cut.stop
perform-Cut (s ∷ ss) d = Cut.step (perform-Cut ss (s d))

pub perform-append :
    (xs ys : List Step) (d : Disk) → perform (xs ++ ys) d ≡ perform ys (perform xs d)
perform-append [] ys d = refl
perform-append (x ∷ xs) ys d = perform-append xs ys (x d)

-- A step that changes nothing in what `look` sees of the disk.
abbrev pub Leaves : {X : Type 0} → (Disk → X) → Step → Type 0
Leaves look s = (d : Disk) → look (s d) ≡ look d

pub Cut-Leaves :
    {X : Type 0} (look : Disk → X) (ss : List Step) {d e : Disk}
    → Cut ss d e
    → All (Leaves look) ss
    → look e ≡ look d
Cut-Leaves look [] Cut.stop h = refl
Cut-Leaves look (s ∷ ss) Cut.stop h = refl
Cut-Leaves look (s ∷ ss) {d} (Cut.step c) h = Cut-Leaves look ss c h.1 ∙ h.0 d

pub perform-Leaves :
    {X : Type 0} (look : Disk → X) (ss : List Step) (d : Disk)
    → All (Leaves look) ss
    → look (perform ss d) ≡ look d
perform-Leaves look ss d h = Cut-Leaves look ss (perform-Cut ss d) h

pub if_exists-Leaves :
    {X : Type 0} (look : Disk → X) (q : FilePath) (s : Step)
    → Leaves look s
    → Leaves look (if_exists q s)
if_exists-Leaves look q s h d = elim (Bool-cases (exists q d)) [
  | inl t ↦ rw t (h d)
  | inr f ↦ rw f refl
]

pub touch-Leaves :
    {X : Type 0} (look : Disk → X) (q : FilePath) → Leaves look (write q []) → Leaves look (touch q)
touch-Leaves look q h d = elim (Bool-cases (exists q d)) [
  | inl t ↦ ap (λ b. look (if b then d else write q [] d)) t
  | inr f ↦ ap (λ b. look (if b then d else write q [] d)) f ∙ h d
]

-- Wherever the run ends, `look` sees what it saw.
abbrev pub Keeps : {X : Type 0} → (Disk → X) → List Step → Disk → Type 0
Keeps look ss d = (e : Disk) → Cut ss d e → look e ≡ look d

pub All-Keeps :
    {X : Type 0} (look : Disk → X) (ss : List Step) (d : Disk)
    → All (Leaves look) ss
    → Keeps look ss d
All-Keeps look ss d h e c = Cut-Leaves look ss c h

pub append-Keeps :
    {X : Type 0} (look : Disk → X) (xs ys : List Step) (d : Disk)
    → Keeps look xs d
    → Keeps look ys (perform xs d)
    → Keeps look (xs ++ ys) d
append-Keeps look xs ys d h k e c = elim (Cut-append xs ys c) [
  | inl i ↦ h e i
  | inr i ↦ k e i ∙ h (perform xs d) (perform-Cut xs d)
]

-- Wherever the run ends, the disk is as `Q` says.
abbrev pub Always : (Disk → Type 0) → List Step → Disk → Type 0
Always Q ss d = (e : Disk) → Cut ss d e → Q e

pub append-Always :
    (Q : Disk → Type 0) (xs ys : List Step) (d : Disk)
    → Always Q xs d
    → Always Q ys (perform xs d)
    → Always Q (xs ++ ys) d
append-Always Q xs ys d h k e c = elim (Cut-append xs ys c) [ inl i ↦ h e i | inr i ↦ k e i ]

pub nil-Always : (Q : Disk → Type 0) (d : Disk) → Q d → Always Q [] d
nil-Always Q d q e Cut.stop = q
