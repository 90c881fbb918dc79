-- ===== src/ImuClock/Stream.antt =====
-- Every report of a session goes through one `ImuClock`, as in the relay loop of
-- experimental/steam-controller/tester/run-lab.py: the times that Steam sees.
use bazzite_k.Common.{
  ℕ, suc, ◌+◌, ◌^◌, ◌<◌, ◌≡◌, ◌≢◌, inl, inr, Option, none, some, List, [], ◌∷◌, All, Bool-cases,
  if◌then◌else◌, ◌==◌, arith,
}
use bazzite_k.Common.Bytes.{AreBytes}
use bazzite_k.ImuClock.{ImuClock, is_timed, stamp, normalize, next_sent, new}
use bazzite_k.ImuClock.Times.{AreTimes, next_sent-ne}
use bazzite_k.ImuClock.Frames.{
  normalize_timed, normalize_drift, stamp-lt, not_timed, is_timed-normalize,
}

unfoldable pub normalize_all : ImuClock → List (List ℕ) → ImuClock × List (List ℕ)
normalize_all c [] = (c, [])
normalize_all c (r ∷ rs) =
    let (c', out) = normalize c r in let (last, outs) = normalize_all c' rs in (last, out ∷ outs)

-- The times that the reports with a time carry, in order.
unfoldable pub stamps : List (List ℕ) → List ℕ
stamps [] = []
stamps (r ∷ rs) = let rest = stamps rs in if is_timed r then stamp r ∷ rest else rest

-- No time is followed by itself, and the first one differs from `last`.
abbrev pub NoRepeat : Option ℕ → List ℕ → Type 0
NoRepeat last [] = Unit
NoRepeat none (t ∷ ts) = NoRepeat (some t) ts
NoRepeat (some last) (t ∷ ts) = (t ≢ last) × NoRepeat (some t) ts

abbrev pub last_sent : Option (ℕ × ℕ) → Option ℕ
last_sent none = none
last_sent (some (raw, sent)) = some sent

NoRepeat-step :
    (t : Option (ℕ × ℕ)) (raw : ℕ) (ts : List ℕ)
    → AreTimes t
    → raw < 2 ^ 32
    → NoRepeat (some (next_sent t raw)) ts
    → NoRepeat (last_sent t) (next_sent t raw ∷ ts)
NoRepeat-step none raw ts h r n = n
NoRepeat-step (some (p, s)) raw ts h r n = (next_sent-ne p s raw h r, n)

normalize_all-NoRepeat_from :
    (c : ImuClock) (rs : List (List ℕ))
    → AreTimes c.times
    → All AreBytes rs
    → NoRepeat (last_sent c.times) (stamps (normalize_all c rs).1)
unfolding normalize_all stamps
normalize_all-NoRepeat_from c [] v b = tt
normalize_all-NoRepeat_from c (r ∷ rs) v b = elim (Bool-cases (is_timed r)) [
  | inr f ↦
      rw (is_timed-normalize c r, f) (rw (not_timed c r f) (normalize_all-NoRepeat_from c rs v b.1))
  | inl t ↦
      rw (is_timed-normalize c r, t)
        (let n = normalize_timed c r b.0 v t in
          let ih =
            normalize_all-NoRepeat_from (normalize c r).0 rs (normalize_drift c r b.0 v).0 b.1 in
          rw n.1
            (NoRepeat-step c.times (stamp r) _ v (stamp-lt r b.0 t) (rw n.1 at (rw n.0 at ih))))
]

-- Whatever reports come in, no time that goes out is the one sent just before it.
pub normalize_all-NoRepeat :
    (rs : List (List ℕ)) → All AreBytes rs → NoRepeat none (stamps (normalize_all new rs).1)
unfolding new
normalize_all-NoRepeat rs b = normalize_all-NoRepeat_from new rs tt b

-- The reports whose time was changed.
unfoldable pub changes : List (List ℕ) → List (List ℕ) → ℕ
changes [] outs = 0
changes (r ∷ rs) [] = 0
changes (r ∷ rs) (out ∷ outs) =
    let rest = changes rs outs in if stamp out == stamp r then rest else suc rest

normalize-counts :
    (c : ImuClock) (r : List ℕ)
    → AreBytes r
    → AreTimes c.times
    → (normalize c r).0.adjustments
      ≡ (if stamp (normalize c r).1 == stamp r then c.adjustments else c.adjustments + 1)
normalize-counts c r b v = elim (Bool-cases (is_timed r)) [
  | inr f ↦ rw (not_timed c r f) (ground arith)
  | inl t ↦ (normalize_timed c r b v t).3
]

normalize_all-counts_from :
    (c : ImuClock) (rs : List (List ℕ))
    → AreTimes c.times
    → All AreBytes rs
    → (normalize_all c rs).0.adjustments ≡ c.adjustments + changes rs (normalize_all c rs).1
unfolding normalize_all changes
normalize_all-counts_from c [] v b = omega arith
normalize_all-counts_from c (r ∷ rs) v b = ground (
  arith,
  normalize-counts c r b.0 v,
  normalize_all-counts_from (normalize c r).0 rs (normalize_drift c r b.0 v).0 b.1,
)

-- A new clock's `adjustments` is the number of reports whose time was changed.
pub normalize_all-counts :
    (rs : List (List ℕ))
    → All AreBytes rs
    → (normalize_all new rs).0.adjustments ≡ changes rs (normalize_all new rs).1
unfolding new
normalize_all-counts rs b = omega (arith, normalize_all-counts_from new rs tt b)
