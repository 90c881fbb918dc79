-- ===== src/ImuClock/Frames.antt =====
-- `normalize` on one report: which bytes change, and the time that the result carries.
use bazzite_k.Common.{
  ℕ, ◌+◌, ◌^◌, ◌≤◌, ◌<◌, ◌≡◌, ◌≢◌, ◌⊎◌, inl, inr, true, false, Option, some, List, [], ◌∷◌, ◌++◌,
  length, take, drop, refl, ap, sym, ◌∙◌, length-append, length-take, length-drop, take-append,
  drop-append, drop-drop, All-take, All-drop, Bool-cases, ◌==◌, if◌then◌else◌, arith,
}
use native.Mathlib.Decide.{ℕ_discrete}
use bazzite_k.Common.Bytes.{AreBytes, to_bytes, length-to_bytes, from_bytes-to_bytes, from_bytes-lt}
use bazzite_k.ImuClock.{ImuClock, is_timed, stamp_bytes, stamp, next_sent, with_stamp, normalize}
use bazzite_k.ImuClock.Times.{
  gap, AreTimes, next_sent-AreTimes, next_sent_forward, next_sent_genuine,
}

-- A report that carries a time has at least the 34 bytes up to the end of the time.
is_timed-length : (report : List ℕ) → is_timed report ≡ true → 34 ≤ length report
unfolding is_timed
is_timed-length [] h = cc
is_timed-length (kind ∷ rest) h = ground arith

length-take_30 : (r : List ℕ) → 34 ≤ length r → length (take 30 r) ≡ 30
length-take_30 r h = omega (arith, length-take 30 r)

take-with_stamp : (r : List ℕ) (t : ℕ) → 34 ≤ length r → take 30 (with_stamp r t) ≡ take 30 r
unfolding with_stamp
take-with_stamp r t h = take-append (take 30 r) (to_bytes t 4 ++ drop 34 r) 30 (length-take_30 r h)

drop_30-with_stamp :
    (r : List ℕ) (t : ℕ) → 34 ≤ length r → drop 30 (with_stamp r t) ≡ to_bytes t 4 ++ drop 34 r
unfolding with_stamp
drop_30-with_stamp r t h =
    drop-append (take 30 r) (to_bytes t 4 ++ drop 34 r) 30 (length-take_30 r h)

drop_34-with_stamp : (r : List ℕ) (t : ℕ) → 34 ≤ length r → drop 34 (with_stamp r t) ≡ drop 34 r
drop_34-with_stamp r t h =
    sym (drop-drop 4 30 (with_stamp r t))
    ∙ ap (drop 4) (drop_30-with_stamp r t h)
    ∙ drop-append (to_bytes t 4) (drop 34 r) 4 (length-to_bytes t 4)

length-with_stamp : (r : List ℕ) (t : ℕ) → 34 ≤ length r → length (with_stamp r t) ≡ length r
unfolding with_stamp
length-with_stamp r t h = omega (
  arith,
  length-append {0} (take 30 r) (to_bytes t 4 ++ drop 34 r),
  length-append {0} (to_bytes t 4) (drop 34 r),
  length-to_bytes t 4,
  length-take 30 r,
  length-drop 34 r,
)

stamp-with_stamp : (r : List ℕ) (t : ℕ) → 34 ≤ length r → t < 2 ^ 32 → stamp (with_stamp r t) ≡ t
unfolding stamp
stamp-with_stamp r t h lt =
    rw (drop_30-with_stamp r t h) (
      rw (take-append (to_bytes t 4) (drop 34 r) 4 (length-to_bytes t 4))
        (from_bytes-to_bytes t lt))

pub not_timed : (c : ImuClock) (r : List ℕ) → is_timed r ≡ false → normalize c r ≡ (c, r)
unfolding normalize
not_timed c r h = rw h

abbrev sent_time : ImuClock → List ℕ → ℕ
sent_time c r = next_sent c.times (stamp r)

AreTimes-sent :
    (t : Option (ℕ × ℕ)) (raw : ℕ) → AreTimes t → raw < 2 ^ 32 → next_sent t raw < 2 ^ 32
AreTimes-sent t raw h r = (next_sent-AreTimes t raw h r).1

-- What the early return leaves: the two branches on `sent == raw`.
timed_kept :
    (c : ImuClock) (r : List ℕ)
    → is_timed r ≡ true
    → sent_time c r ≡ stamp r
    → normalize c r ≡ (record c { times = some (stamp r, stamp r) }, r)
unfolding normalize
timed_kept c r h e = rw (h, e) ground (arith)

timed_moved :
    (c : ImuClock) (r : List ℕ)
    → is_timed r ≡ true
    → sent_time c r ≢ stamp r
    → normalize c r ≡ (
      record { times = some (stamp r, sent_time c r); adjustments = c.adjustments + 1 },
      with_stamp r (sent_time c r),
    )
unfolding normalize
timed_moved c r h e = rw h (ground arith)

-- Every byte but the four of the time is forwarded as it came, and so is the length; a report
-- with no time is forwarded whole.
pub normalize_bytes :
    (c : ImuClock) (r : List ℕ)
    → let out = (normalize c r).1 in
      (take 30 out ≡ take 30 r)
      × (drop 34 out ≡ drop 34 r)
      × (length out ≡ length r)
      × (is_timed r ≡ false → out ≡ r)
normalize_bytes c r = elim (Bool-cases (is_timed r)) [
  | inr f ↦ rw (not_timed c r f) (refl, refl, refl, λ _. refl)
  | inl t ↦ elim (ℕ_discrete (sent_time c r) (stamp r)) [
    | yes e ↦ rw (timed_kept c r t e) (refl, refl, refl, λ f. cc)
    | no e ↦
        let h = is_timed-length r t in
        rw (timed_moved c r t e)
          (take-with_stamp r _ h, drop_34-with_stamp r _ h, length-with_stamp r _ h, λ f. cc)
  ]
]

pub stamp-lt : (r : List ℕ) → AreBytes r → is_timed r ≡ true → stamp r < 2 ^ 32
unfolding stamp
stamp-lt r b t =
    from_bytes-lt (stamp_bytes r)
      (All-take (λ x. x < 256) 4 (drop 30 r) (All-drop (λ x. x < 256) 30 r b))
      (omega (arith, length-take 4 (drop 30 r), length-drop 30 r, is_timed-length r t))

-- On a report with a time: the clock keeps the sensor's time and the one sent, the report that
-- goes out carries the latter, and the count grows exactly if the two differ.
pub normalize_timed :
    (c : ImuClock) (r : List ℕ)
    → AreBytes r
    → AreTimes c.times
    → is_timed r ≡ true
    → let (c', out) = normalize c r in
      (c'.times ≡ some (stamp r, stamp out))
      × (stamp out ≡ next_sent c.times (stamp r))
      × (stamp out < 2 ^ 32)
      × (c'.adjustments ≡ (if stamp out == stamp r then c.adjustments else c.adjustments + 1))
normalize_timed c r b v t =
    let lt = stamp-lt r b t in
    let bound = AreTimes-sent c.times (stamp r) v lt in
    elim (ℕ_discrete (sent_time c r) (stamp r)) [
      | yes e ↦ rw (timed_kept c r t e) (refl, sym e, lt, ground arith)
      | no e ↦
          let h = stamp-with_stamp r (sent_time c r) (is_timed-length r t) bound in
          rw (timed_moved c r t e, h) (refl, refl, bound, ground arith)
    ]

is_timed_head :
    (kind : ℕ) (xs ys : List ℕ)
    → length (kind ∷ ys) ≡ length (kind ∷ xs)
    → is_timed (kind ∷ ys) ≡ is_timed (kind ∷ xs)
unfolding is_timed
is_timed_head kind xs ys h = ground arith

is_timed-with_stamp : (r : List ℕ) (t : ℕ) → 34 ≤ length r → is_timed (with_stamp r t) ≡ is_timed r
unfolding with_stamp
is_timed-with_stamp [] t h = absurd (omega arith)
is_timed-with_stamp (kind ∷ rest) t h =
    is_timed_head kind rest _ (length-with_stamp (kind ∷ rest) t h)

-- A report that goes out has a time exactly if the one that came in has.
pub is_timed-normalize : (c : ImuClock) (r : List ℕ) → is_timed (normalize c r).1 ≡ is_timed r
is_timed-normalize c r = elim (Bool-cases (is_timed r)) [
  | inr f ↦ rw (not_timed c r f)
  | inl t ↦ elim (ℕ_discrete (sent_time c r) (stamp r)) [
    | yes e ↦ rw (timed_kept c r t e)
    | no e ↦ rw (timed_moved c r t e) (is_timed-with_stamp r _ (is_timed-length r t))
  ]
]

-- Any report keeps the clock's times in range, and one with a time is sent at most 1000 ahead of
-- the sensor, modulo 2 ^ 32.
pub normalize_drift :
    (c : ImuClock) (r : List ℕ)
    → AreBytes r
    → AreTimes c.times
    → AreTimes (normalize c r).0.times
      × (is_timed r ≡ true → gap (stamp (normalize c r).1) (stamp r) ≤ 1000)
normalize_drift c r b v = elim (Bool-cases (is_timed r)) [
  | inr f ↦ rw (not_timed c r f) (v, λ t. cc)
  | inl t ↦
      let n = normalize_timed c r b v t in
      let k = next_sent-AreTimes c.times (stamp r) v (stamp-lt r b t) in
      (rw n.0 (rw n.1 k), λ _. rw n.1 k.2)
]

module _ (c : ImuClock) (r : List ℕ) (p s : ℕ) (b : AreBytes r) (v : AreTimes c.times)
    (t : is_timed r ≡ true) (e : c.times ≡ some (p, s)) where
  kept_times : AreTimes (some (p, s))
  kept_times = rw e at v

  -- After a sensor time `p` that went out as `s`: unless the sensor's clock went back, or stood
  -- still while `s` is already 1000 ahead, the time that goes out is later than `s`, by less than
  -- half the 32-bit range.
  pub normalize_forward :
      gap (stamp r) p < 2 ^ 31
      → (stamp r ≢ p) ⊎ (gap s p < 1000)
      → (1 ≤ gap (stamp (normalize c r).1) s) × (gap (stamp (normalize c r).1) s < 2 ^ 31)
  normalize_forward f d =
      rw ((normalize_timed c r b v t).1, e)
        (next_sent_forward p s (stamp r) kept_times (stamp-lt r b t) f d)

  -- After a sensor time `p` that went out as `s`: a sensor time that has moved on from `p` by more
  -- than `s` had, a jump back included, goes out in an unchanged report.
  pub normalize_genuine : gap s p < gap (stamp r) p → (normalize c r).1 ≡ r
  normalize_genuine f =
      rw (timed_kept c r t (rw e (next_sent_genuine p s (stamp r) kept_times (stamp-lt r b t) f)))
