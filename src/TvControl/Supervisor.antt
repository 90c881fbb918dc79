-- ===== src/TvControl/Supervisor.antt =====
-- examples/tv-control/direct_av.py: the end of `wake`. Times are milliseconds of the monotonic clock.
use bazzite_k.Common.{
  Option-cases, ◌<◌, ℕ, ◌+◌, ◌≤◌, leb, ltb, ◌≡◌, refl, ap, Bool, true, false, Bool-cases, ◌&&◌, not,
  Option, none, some, List, [], ◌∷◌, ◌++◌, if◌then◌else◌, All, ◌⊎◌, inl, inr, arith,
}
use bazzite_k.TvControl.{Error, Outcome, ok, raised, timeout_error}
use bazzite_k.TvControl.Target.{&&-true}

-- A turn of the loop: the clock in its test and in its body, the exception of a task that has failed,
-- and the two statuses.
pub record Sample : Type 0 where
  pub now : ℕ
  pub later : ℕ
  pub failure : Option Error
  pub tv : Bool
  pub avr : Bool

abbrev pub is_stable : Option ℕ → ℕ → Bool
is_stable none later = false
is_stable (some since) later = leb (since + 5000) later

abbrev pub since : Option ℕ → ℕ → Option ℕ
since none later = some later
since (some t) later = some t

-- The loop, with `stable`; none is that it still runs.
unfoldable pub supervise : ℕ → Option ℕ → List Sample → Option (Outcome (Unit {0}))
supervise deadline stable [] = none
supervise deadline stable (s ∷ ss) =
    let kept = supervise deadline (since stable s.later) ss in
    let reset = supervise deadline none ss in
    if not (ltb s.now deadline) then some (raised timeout_error) else elim s.failure [
      | some e ↦ some (raised e)
      | none ↦
          if s.tv && s.avr then (if is_stable stable s.later then some (ok tt) else kept) else reset
    ]

abbrev pub IsCorrect : ℕ → Sample → Type 0
IsCorrect deadline s = (s.now < deadline) × (s.failure ≡ none) × (s.tv ≡ true) × (s.avr ≡ true)

-- A run of samples that are all correct, over at least five seconds.
pub data Settled (deadline : ℕ) (ss : List Sample) : Type 0 where
  settled :
      (before : List Sample) (first : Sample) (between : List Sample) (last : Sample)
      (after : List Sample)
      → ss ≡ before ++ (first ∷ (between ++ (last ∷ after)))
      → IsCorrect deadline first
      → All (IsCorrect deadline) between
      → IsCorrect deadline last
      → first.later + 5000 ≤ last.later
      → Settled deadline ss

-- The rest of such a run, which began at this time.
data Rest (deadline : ℕ) (t : ℕ) (ss : List Sample) : Type 0 where
  rest :
      (between : List Sample) (last : Sample) (after : List Sample)
      → ss ≡ between ++ (last ∷ after)
      → All (IsCorrect deadline) between
      → IsCorrect deadline last
      → t + 5000 ≤ last.later
      → Rest deadline t ss

skip :
    (deadline : ℕ) (s : Sample) (ss : List Sample) → Settled deadline ss → Settled deadline (s ∷ ss)
skip d s ss (Settled.settled before first between last after e f b l t) =
    Settled.settled (s ∷ before) first between last after (ap (λ r. s ∷ r) e) f b l t

begin :
    (d : ℕ) (s : Sample) (ss : List Sample)
    → IsCorrect d s
    → Rest d s.later ss ⊎ Settled d ss
    → Settled d (s ∷ ss)
begin d s ss c (inr h) = skip d s ss h
begin d s ss c (inl (Rest.rest between last after e b l t)) =
    Settled.settled [] s between last after (ap (λ r. s ∷ r) e) c b l t

go_on :
    (d t : ℕ) (s : Sample) (ss : List Sample)
    → IsCorrect d s
    → Rest d t ss ⊎ Settled d ss
    → Rest d t (s ∷ ss) ⊎ Settled d (s ∷ ss)
go_on d t s ss c (inr h) = inr (skip d s ss h)
go_on d t s ss c (inl (Rest.rest between last after e b l u)) =
    inl (Rest.rest (s ∷ between) last after (ap (λ r. s ∷ r) e) (c, b) l u)

-- What a turn says that does not raise.
data Turn (d : ℕ) (stable : Option ℕ) (s : Sample) (ss : List Sample) : Type 0 where
  returned : IsCorrect d s → is_stable stable s.later ≡ true → Turn d stable s ss
  kept : IsCorrect d s → supervise d (since stable s.later) ss ≡ some (ok tt) → Turn d stable s ss
  reset : supervise d none ss ≡ some (ok tt) → Turn d stable s ss

supervise-Turn :
    (d : ℕ) (stable : Option ℕ) (s : Sample) (ss : List Sample)
    → supervise d stable (s ∷ ss) ≡ some (ok tt)
    → Turn d stable s ss
unfolding supervise
supervise-Turn d stable s ss h = elim (Bool-cases (ltb s.now d)) [
  | inr f ↦ absurd (let bad : some (raised timeout_error) ≡ some (ok tt) = rw f at h in cc)
  | inl t ↦ elim (Option-cases s.failure) [
    | inr (e, q) ↦ absurd (let bad : some (raised e) ≡ some (ok tt) = rw (t, q) at h in cc)
    | inl q ↦ elim (Bool-cases (s.tv && s.avr)) [
      | inr f ↦ reset (rw (t, q, f) at h)
      | inl b ↦
          let correct : IsCorrect d s =
            (let (x, y) = &&-true s.tv s.avr b in (ground arith, q, x, y)) in
          elim (Bool-cases (is_stable stable s.later)) [
            | inl u ↦ returned correct u
            | inr f ↦ kept correct (rw (t, q, b, f) at h)
          ]
    ]
  ]
]

-- What is found when the loop is entered with this `stable`.
abbrev Ended : ℕ → Option ℕ → List Sample → Type 0
Ended d none ss = Settled d ss
Ended d (some t) ss = Rest d t ss ⊎ Settled d ss

supervise-Ended :
    (d : ℕ) (stable : Option ℕ) (ss : List Sample)
    → supervise d stable ss ≡ some (ok tt)
    → Ended d stable ss
unfolding supervise
supervise-Ended d stable [] h = absurd (let bad : none ≡ some (ok tt) = h in cc)
supervise-Ended d none (s ∷ ss) h = elim (supervise-Turn d none s ss h) [
  | returned c u ↦ absurd (cc u)
  | kept c g ↦ begin d s ss c (supervise-Ended d (some s.later) ss g)
  | reset g ↦ skip d s ss (supervise-Ended d none ss g)
]
supervise-Ended d (some t) (s ∷ ss) h = elim (supervise-Turn d (some t) s ss h) [
  | returned c u ↦ inl (Rest.rest [] s ss refl tt c (ground arith))
  | kept c g ↦ go_on d t s ss c (supervise-Ended d (some t) ss g)
  | reset g ↦ inr (skip d s ss (supervise-Ended d none ss g))
]

-- If `wake` returns, then before the deadline there was a run of turns, at least five seconds from the
-- first to the last one, at each of which no task had failed and both statuses were true.
pub supervise_returns :
    (deadline : ℕ) (ss : List Sample)
    → supervise deadline none ss ≡ some (ok tt)
    → Settled deadline ss
supervise_returns deadline ss h = supervise-Ended deadline none ss h

abbrev pub Ends : Option (Outcome (Unit {0})) → Type 0
Ends o = (result : Outcome (Unit {0})) × (o ≡ some result)

if-Ends :
    (t : Bool) (x y : Option (Outcome (Unit {0}))) → Ends x → Ends y → Ends (if t then x else y)
if-Ends true x y h k = h
if-Ends false x y h k = k

-- The loop ends once the deadline is over, whatever the tasks do.
pub supervise-Ends :
    (deadline : ℕ) (stable : Option ℕ) (before : List Sample) (s : Sample) (after : List Sample)
    → deadline ≤ s.now
    → Ends (supervise deadline stable (before ++ (s ∷ after)))
unfolding supervise
supervise-Ends d stable [] s after h =
    let over : ltb s.now d ≡ false = ground arith in (raised timeout_error, rw over refl)
supervise-Ends d stable (b ∷ before) s after h =
    if-Ends (not (ltb b.now d)) (some (raised timeout_error)) _ (raised timeout_error, refl)
      (step b.failure (
        if-Ends (b.tv && b.avr) _ _
          (if-Ends (is_stable stable b.later) (some (ok tt)) _ (ok tt, refl)
            (supervise-Ends d (since stable b.later) before s after h))
          (supervise-Ends d none before s after h)))
  where
    step :
        (o : Option Error) {x : Option (Outcome (Unit {0}))}
        → Ends x
        → Ends (elim o [ some e ↦ some (raised e) | none ↦ x ])
    step none h = h
    step (some e) h = (raised e, refl)
