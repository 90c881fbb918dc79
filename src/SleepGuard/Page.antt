-- ===== src/SleepGuard/Page.antt =====
-- The script that `connected` sends, as it acts on the page of Steam's SharedJSContext. `held` are
-- the handles of `BlockSuspendAction` that have not been released, which keep the suspend screen
-- away; an object `owned` is known by the handle in it.
use mathlib.Core.List.{tail}
use bazzite_k.Common.{
  arith, ℕ, ◌+◌, ◌≤◌, ◌≡◌, Bool, true, false, Option, none, some, List, [], ◌∷◌, ◌++◌, refl, ap,
  inl, inr, Option-cases, ◌==◌, if◌then◌else◌, length,
}

pub record Owned : Type 0 where
  pub handle : ℕ
  pub expiry : Option ℕ  -- owned.timer

pub record Page : Type 0 where
  pub held : List ℕ
  pub owned : Option Owned  -- window[key]
  pub timers : List (ℕ × ℕ)  -- a timer, and the object that its function closes over
  pub fresh : ℕ  -- above every number of a handle or timer

-- `clearTimeout` does nothing for undefined and for a timer that has run.
clear_timeout : Option ℕ → List (ℕ × ℕ) → List (ℕ × ℕ)
clear_timeout none ts = ts
clear_timeout (some t) [] = []
clear_timeout (some t) ((u, o) ∷ ts) = if u == t then ts else (u, o) ∷ clear_timeout (some t) ts

release : ℕ → List ℕ → List ℕ
release h [] = []
release h (k ∷ ks) = if k == h then ks else k ∷ release h ks

-- `owned || (window[key] = {release: store.BlockSuspendAction()})`
take_hold : Page → Owned × Page
take_hold p = elim p.owned [
  | some o ↦ (o, p)
  | none ↦ (
    record { handle = p.fresh; expiry = none },
    record p { held = p.fresh ∷ p.held; fresh = p.fresh + 1 },
  )
]

-- `clearTimeout(owned.timer); owned.timer = setTimeout(…, 15000)`
rearm : Owned → Page → Page
unfolding clear_timeout
rearm o p = record p {
  owned = some (record o { expiry = some p.fresh });
  timers = (p.fresh, o.handle) ∷ clear_timeout o.expiry p.timers;
  fresh = p.fresh + 1;
}

let_go : Owned → Page → Page
unfolding clear_timeout release
let_go o p = record p {
  held = release o.handle p.held;
  owned = none;
  timers = clear_timeout o.expiry p.timers;
}

abbrev owns : Page → Bool
owns p = elim p.owned [ none ↦ false | some o ↦ true ]

-- The script after its check of the store, with BLOCKED replaced by `b`: the page, and `blocked`
-- of the value that it returns.
unfoldable pub evaluate : Bool → Page → Page × Bool
unfolding take_hold rearm let_go
evaluate true p = let (o, p') = take_hold p in let q = rearm o p' in (q, owns q)
evaluate false p = elim p.owned [ none ↦ (p, owns p) | some o ↦ let q = let_go o p in (q, owns q) ]

-- A timer runs: `if (window[key] === owned) { owned.release(); delete window[key]; }`
expire_owned : ℕ → Owned → Page → Page
unfolding release
expire_owned closed_over o p =
    if o.handle == closed_over then record p { held = release o.handle p.held; owned = none } else p

unfoldable pub expire : ℕ × ℕ → Page → Page
unfolding expire_owned clear_timeout
expire (t, closed_over) p =
    let q = record p { timers = clear_timeout (some t) p.timers } in
    elim p.owned [ none ↦ q | some o ↦ expire_owned closed_over o q ]

-- A page that Steam has loaded anew: its handles and timers are gone with the old one.
unfoldable pub loaded : Page
loaded = record { held = []; owned = none; timers = []; fresh = 0 }

pub data Visit : Page → Type 0 where
  load : Visit loaded
  script : {p : Page} (b : Bool) → Visit p → Visit (evaluate b p).0
  timer_runs :
      {p : Page} (t : ℕ × ℕ) (before later : List (ℕ × ℕ))
      → p.timers ≡ before ++ (t ∷ later)
      → Visit p
      → Visit (expire t p)

abbrev pub HasOne : ℕ → Option ℕ → List ℕ → List (ℕ × ℕ) → Type 0
HasOne h none held timers = ⊥
HasOne h (some t) held timers = (held ≡ h ∷ []) × (timers ≡ (t, h) ∷ [])

abbrev pub Holds : Option Owned → List ℕ → List (ℕ × ℕ) → Type 0
Holds none held timers = (held ≡ []) × (timers ≡ [])
Holds (some o) held timers = HasOne o.handle o.expiry held timers

-- With nothing owned, nothing is held and no timer is set; else the one handle is that of the owned
-- object, and the one timer is its own.
abbrev pub IsTidy : Page → Type 0
IsTidy p = Holds p.owned p.held p.timers

take_hold-one :
    (p : Page)
    → IsTidy p
    → let (o, q) = take_hold p in (q.held ≡ o.handle ∷ []) × (clear_timeout o.expiry q.timers ≡ [])
unfolding take_hold clear_timeout
take_hold-one p h = ground arith

let_go-none :
    (p : Page) (o : Owned)
    → p.owned ≡ some o
    → IsTidy p
    → ((let_go o p).held ≡ []) × ((let_go o p).timers ≡ [])
unfolding let_go
let_go-none p o e h = ground arith

-- On a tidy page the script leaves one handle and one timer if sleep is blocked, else none, and
-- its value says which.
pub evaluate-IsTidy :
    (b : Bool) (p : Page)
    → IsTidy p
    → let (q, says) = evaluate b p in
      IsTidy q
      × (says ≡ b)
      × (length q.held ≡ (if b then 1 else 0))
      × (length q.timers ≡ (if b then 1 else 0))
unfolding evaluate
evaluate-IsTidy true p h = ground (arith, take_hold-one p h)
evaluate-IsTidy false p h = elim (Option-cases p.owned) [
  | inl e ↦ rw e (ground arith)
  | inr (o, e) ↦ rw e (ground (arith, let_go-none p o e h))
]

nil_middle {ℓ} : {A : Type ℓ} (t : A) (before later : List A) → [] ≡ before ++ (t ∷ later) → ⊥
nil_middle t [] later e = cc
nil_middle t (b ∷ bs) later e = cc

one_middle {ℓ} :
    {A : Type ℓ} (x t : A) (before later : List A) → x ∷ [] ≡ before ++ (t ∷ later) → t ≡ x
one_middle x t [] later e = cc
one_middle x t (b ∷ bs) later e = absurd (nil_middle t bs later (ap tail e))

-- The timer of a tidy page releases what it holds.
pub expire-IsTidy :
    (t : ℕ × ℕ) (before later : List (ℕ × ℕ)) (p : Page)
    → p.timers ≡ before ++ (t ∷ later)
    → IsTidy p
    → IsTidy (expire t p) × ((expire t p).held ≡ []) × ((expire t p).timers ≡ [])
unfolding expire
expire-IsTidy t before later p e h = elim (Option-cases p.owned) [
  | inl n ↦ absurd (nil_middle t before later (ground arith))
  | inr (o, s) ↦ elim (Option-cases o.expiry) [
    | inl n ↦ absurd (ground arith)
    | inr (u, x) ↦
        let same : t ≡ (u, o.handle) = one_middle (u, o.handle) t before later (ground arith) in
        rw same (ground arith)
  ]
]

Visit-IsTidy : {p : Page} → Visit p → IsTidy p
unfolding loaded
Visit-IsTidy Visit.load = (refl, refl)
Visit-IsTidy (Visit.script {p = p} b v) = (evaluate-IsTidy b p (Visit-IsTidy v)).0
Visit-IsTidy (Visit.timer_runs {p = p} t before later e v) =
    (expire-IsTidy t before later p e (Visit-IsTidy v)).0

holds-le-one : (p : Page) → IsTidy p → (length p.held ≤ 1) × (length p.timers ≡ length p.held)
holds-le-one p h = ground arith

-- However often the script runs, with either value, and its timers too, the page never holds more
-- than one handle, and it has a timer to release that one exactly while it holds it.
pub Visit-held : (p : Page) → Visit p → (length p.held ≤ 1) × (length p.timers ≡ length p.held)
Visit-held p v = holds-le-one p (Visit-IsTidy v)
