-- ===== src/ImuClock/Examples.antt =====
-- Tests after test_imu_clock.py, and the theorems at inputs that meet their hypotheses.
use bazzite_k.Common.{
  ℕ, suc, zero, ◌^◌, ◌≤◌, ◌<◌, ◌≡◌, inr, false, none, some, List, [], ◌∷◌, ◌++◌, refl, length, take,
  drop, arith,
}
use bazzite_k.Common.Bytes.{to_bytes, from_bytes}
use bazzite_k.ImuClock.{ImuClock, is_timed, stamp, normalize, with_stamp, next_sent, new}
use bazzite_k.ImuClock.Times.{gap}
use bazzite_k.ImuClock.Frames.{normalize_bytes, normalize_forward}
use bazzite_k.ImuClock.Stream.{normalize_all, stamps, NoRepeat, normalize_all-NoRepeat}

abbrev zeros : ℕ → List ℕ
zeros zero = []
zeros (suc n) = 0 ∷ zeros n

-- A full report with the four bytes of its time.
abbrev report : ℕ → ℕ → ℕ → ℕ → List ℕ
report a b c d = (0x42 ∷ zeros 29) ++ ((a ∷ b ∷ c ∷ d ∷ []) ++ zeros 20)

-- The last time before the clock wraps, twice; 0; 4000; and a reset to 10.
abbrev session : List (List ℕ)
session =
    report 255 255 255 255
    ∷ report 255 255 255 255
    ∷ report 0 0 0 0
    ∷ (1 ∷ [])
    ∷ report 160 15 0 0
    ∷ report 10 0 0 0
    ∷ []

session-stamps : stamps (normalize_all new session).1 ≡ 4294967295 ∷ 0 ∷ 1 ∷ 4000 ∷ 10 ∷ []
unfolding normalize_all stamps normalize is_timed stamp with_stamp next_sent from_bytes to_bytes new
session-stamps = refl

normalize_all-NoRepeat_example : NoRepeat none (stamps (normalize_all new session).1)
normalize_all-NoRepeat_example = normalize_all-NoRepeat session (omega arith)

-- The sensor's 4000 went out as 4001.
abbrev ahead : ImuClock
ahead = record { times = some (4000, 4001); adjustments = 1 }

normalize_bytes_example :
    let out = (normalize ahead (report 160 15 0 0)).1 in
    (take 30 out ≡ take 30 (report 160 15 0 0))
    × (drop 34 out ≡ drop 34 (report 160 15 0 0))
    × (length out ≡ length (report 160 15 0 0))
    × (is_timed (report 160 15 0 0) ≡ false → out ≡ report 160 15 0 0)
normalize_bytes_example = normalize_bytes ahead (report 160 15 0 0)

normalize_forward_example :
    let out = (normalize ahead (report 160 15 0 0)).1 in
    (1 ≤ gap (stamp out) 4001) × (gap (stamp out) 4001 < 2 ^ 31)
unfolding is_timed stamp from_bytes
normalize_forward_example =
    normalize_forward ahead (report 160 15 0 0) 4000 4001 (omega arith) (omega arith) refl refl
      (omega arith) (inr (omega arith))
