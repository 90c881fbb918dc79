-- ===== src/TvControl/Waiting.antt =====
-- How a chain of calls returns a value, and a wait for a message: the loops of `connect` and
-- `request` in examples/tv-control/direct_av.py.
use bazzite_k.Common.{
  ◌≡◌, ◌≢◌, refl, ap, sym, ◌∙◌, Bool, true, false, not, Option, none, some, List, [], ◌∷◌, ◌++◌,
  map, All, ◌⊎◌, inl, inr, if◌then◌else◌, arith,
}
use bazzite_k.Common.Json.{Json}
use bazzite_k.TvControl.{Error, Outcome, ok, raised, Io, ◌>>=◌, ◌>>◌, Link, receive_until}

-- What a loop skips, and where it ends.
pub data Found {A : Type 0} (turn : Json → Outcome (Option A)) (a : A) (js : List (Outcome Json))
    (later : List (Outcome Json)) : Type 0 where
  found :
      (before : List Json) (j : Json)
      → js ≡ map ok before ++ (ok j ∷ later)
      → All (λ k. turn k ≡ ok none) before
      → turn j ≡ ok (some a)
      → Found turn a js later

skip :
    {A : Type 0} (turn : Json → Outcome (Option A)) (a : A) (j : Json)
    (js later : List (Outcome Json))
    → turn j ≡ ok none
    → Found turn a js later
    → Found turn a (ok j ∷ js) later
skip turn a j js later h (Found.found before k e s t) =
    Found.found (j ∷ before) k (ap (λ r. ok j ∷ r) e) (h, s) t

Outcome-cases :
    {A : Type 0} (o : Outcome (Option A))
    → (o ≡ ok none) ⊎ (((a : A) × (o ≡ ok (some a))) ⊎ ((e : Error) × (o ≡ raised e)))
Outcome-cases (ok none) = inl refl
Outcome-cases (ok (some a)) = inr (inl (a, refl))
Outcome-cases (raised e) = inr (inr (e, refl))

pub receive_until-found :
    {A : Type 0} (turn : Json → Outcome (Option A)) (a : A) (js later : List (Outcome Json))
    → receive_until turn js ≡ (ok a, later)
    → Found turn a js later
unfolding receive_until
receive_until-found turn a [] later h = ground arith
receive_until-found turn a (raised e ∷ js) later h = ground arith
receive_until-found turn a (ok j ∷ js) later h = elim (Outcome-cases (turn j)) [
  | inl e ↦
      skip turn a j js later e (receive_until-found turn a js later (rw (receive_until, e) at h))
  | inr (inl (b, e)) ↦
      let same : (ok b, js) ≡ (ok a, later) = rw (receive_until, e) at h in
      rw (sym (ap (λ p. p.1) same)) (Found.found [] j refl tt (e ∙ ap (λ o. ok (some o)) (cc same)))
  | inr (inr (x, e)) ↦
      let bad : (raised x, js) ≡ (ok a, later) = rw (receive_until, e) at h in absurd (cc bad)
]

pub >>-ok :
    {A B : Type 0} (o : Outcome A) (f : A → Outcome B) (b : B)
    → (o >> f) ≡ ok b
    → (a : A) × (o ≡ ok a) × (f a ≡ ok b)
>>-ok (ok a) f b h = (a, refl, h)
>>-ok (raised e) f b h = cc

-- Of a test with a branch that cannot give this result.
pub if-ne {ℓ} :
    {A : Type ℓ} (t : Bool) (x y z : A) → (x ≢ z) → (if t then x else y) ≡ z → (t ≡ false) × (y ≡ z)
if-ne true x y z n h = absurd (n h)
if-ne false x y z n h = (refl, h)

-- A chain that ends in an exception returns nothing.
pub raises_last :
    {A B : Type 0} (o : Outcome A) (f : A → Error) (b : B) → (o >> λ a. raised (f a)) ≢ ok b
raises_last (ok a) f b h = cc
raises_last (raised e) f b h = cc

pub not-false : (b : Bool) → not b ≡ false → b ≡ true
not-false b h = ground arith

-- A loop that finds such messages ends.
pub receive_until-finds :
    {A : Type 0} (turn : Json → Outcome (Option A)) (a : A) (before : List Json) (j : Json)
    (later : List (Outcome Json))
    → All (λ k. turn k ≡ ok none) before
    → turn j ≡ ok (some a)
    → receive_until turn (map ok before ++ (ok j ∷ later)) ≡ (ok a, later)
unfolding receive_until
receive_until-finds turn a [] j later s t = rw t
receive_until-finds turn a (k ∷ before) j later s t =
    rw s.0 (receive_until-finds turn a before j later s.1 t)

pub bound-ok :
    {A B : Type 0} (m : Io A) (f : A → Io B) (b : B) (l n : Link)
    → (m >>= f) l ≡ (ok b, n)
    → (a : A) × (k : Link) × (m l ≡ (ok a, k)) × (f a k ≡ (ok b, n))
bound-ok m f b l n h = step (m l) refl
  where
    step :
        (p : Outcome _ × Link)
        → m l ≡ p
        → (a : _) × (k : Link) × (m l ≡ (ok a, k)) × (f a k ≡ (ok b, n))
    step (ok a, k) e = (a, k, e, rw e at h)
    step (raised x, k) e = absurd (let bad : (raised x, k) ≡ (ok b, n) = rw e at h in cc)
