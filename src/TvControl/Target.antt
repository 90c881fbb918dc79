-- ===== src/TvControl/Target.antt =====
-- examples/tv-control/sleep_av.py: what the loop over the snapshots finds.
use bazzite_k.Common.{
  suc, ℕ, ◌≡◌, refl, ap, ◌∙◌, Bool, true, false, ◌&&◌, Option, none, some, String, if◌then◌else◌,
  text_eq, text_eq_iff, Bool-cases, inl, inr,
}
use bazzite_k.Common.Json.{Json, is_text}
use bazzite_k.TvControl.{ok, Link, return}
use bazzite_k.TvControl.Waiting.{bound-ok}
use bazzite_k.TvControl.Standby.{Config, Snapshot, snapshot, is_target, is_some_text, matches}

-- The television is on and shows the PC, and so is and does the receiver.
abbrev pub IsTarget : Config → Snapshot → Type 0
IsTarget c s = s ≡ ((Json.str "Active", Json.str c.tv_app), (some "ON", some c.avr_input))

-- Two snapshots one after the other, both on target.
abbrev pub Approved : Config → Link → Link → Type 0
Approved c l k =
    (s : Snapshot) × (mid : Link) × (t : Snapshot) × (snapshot l ≡ (ok s, mid))
    × IsTarget c s
    × (snapshot mid ≡ (ok t, k))
    × IsTarget c t

pub is_text-str : (t : String) (j : Json) → is_text t j ≡ true → j ≡ Json.str t
is_text-str t (Json.str s) h = ap Json.str ((text_eq_iff s t).0 h)
is_text-str t Json.null h = cc
is_text-str t (Json.bool b) h = cc
is_text-str t (Json.int n) h = cc
is_text-str t (Json.float n) h = cc
is_text-str t (Json.arr js) h = cc
is_text-str t (Json.obj fs) h = cc

pub is_some_text-some : (t : String) (o : Option String) → is_some_text t o ≡ true → o ≡ some t
is_some_text-some t none h = cc
is_some_text-some t (some s) h = ap some ((text_eq_iff s t).0 h)

pub &&-true : (a b : Bool) → (a && b) ≡ true → (a ≡ true) × (b ≡ true)
&&-true true b h = (refl, h)
&&-true false b h = cc

text_eq_self : (t : String) → text_eq t t ≡ true
text_eq_self t = (text_eq_iff t t).1 refl

is_target-IsTarget : (c : Config) (s : Snapshot) → is_target c s ≡ true → IsTarget c s
unfolding is_target
is_target-IsTarget c ((power, app), (receiver, source)) h =
    let (h1, r1) = &&-true (is_text "Active" power) _ h in
    let (h2, r2) = &&-true (is_text c.tv_app app) _ r1 in
    let (h3, h4) = &&-true (is_some_text "ON" receiver) _ r2 in
    let p1 = is_text-str "Active" power h1 in
    let p2 = is_text-str c.tv_app app h2 in
    let p3 = is_some_text-some "ON" receiver h3 in
    let p4 = is_some_text-some c.avr_input source h4 in λ i. ((p1 i, p2 i), (p3 i, p4 i))

IsTarget-is_target : (c : Config) (s : Snapshot) → IsTarget c s → is_target c s ≡ true
unfolding is_target
IsTarget-is_target c s h =
    ap (is_target c) h ∙ rw (text_eq_self c.tv_app, text_eq_self c.avr_input) refl

-- A turn of the loop that does not return early.
matches_turn :
    (c : Config) (n : ℕ) (l k : Link)
    → matches c (suc n) l ≡ (ok true, k)
    → (s : Snapshot) × (mid : Link) × (snapshot l ≡ (ok s, mid))
      × IsTarget c s
      × (matches c n mid ≡ (ok true, k))
unfolding matches
matches_turn c n l k h =
    let (s, mid, first, rest) =
      bound-ok snapshot (λ s. if is_target c s then matches c n else return false) true l k h in
    elim (Bool-cases (is_target c s)) [
      | inl t ↦ (s, mid, first, is_target-IsTarget c s t, rw t at rest)
      | inr f ↦ absurd (let bad : (ok false, mid) ≡ (ok true, k) = rw f at rest in cc)
    ]

pub matches-Approved : (c : Config) (l k : Link) → matches c 2 l ≡ (ok true, k) → Approved c l k
unfolding matches
matches-Approved c l k h =
    let (s, mid, first, on, more) = matches_turn c 1 l k h in
    let (t, last, second, still, done) = matches_turn c 0 mid k more in
    let same : last ≡ k = ap (λ p. p.1) done in (s, mid, t, first, on, rw same at second, still)

pub Approved-matches : (c : Config) (l k : Link) → Approved c l k → matches c 2 l ≡ (ok true, k)
unfolding matches
Approved-matches c l k (s, mid, t, first, on, second, still) =
    rw (first, IsTarget-is_target c s on, second, IsTarget-is_target c t still) refl
