-- ===== src/ImuClock/Times.antt =====
-- The sensor times that `normalize` sends, modulo 2 ^ 32.
use bazzite_k.Common.{ℕ, ◌+◌, ◌-◌, ◌%◌, ◌^◌, ◌≤◌, ◌<◌, ◌≡◌, ◌≢◌, ◌⊎◌, Option, none, some, arith}
use bazzite_k.ImuClock.{next_sent}

-- `(a - b) & 0xffffffff`
abbrev pub gap : ℕ → ℕ → ℕ
gap a b = (a + 2 ^ 32 - b) % 2 ^ 32

-- The times kept are 32-bit, and the one sent is at most 1000 ahead of the sensor's.
abbrev pub AreTimes : Option (ℕ × ℕ) → Type 0
AreTimes none = Unit {0}
AreTimes (some (raw, sent)) = (raw < 2 ^ 32) × (sent < 2 ^ 32) × (gap sent raw ≤ 1000)

pub next_sent-AreTimes :
    (t : Option (ℕ × ℕ)) (raw : ℕ)
    → AreTimes t
    → raw < 2 ^ 32
    → AreTimes (some (raw, next_sent t raw))
unfolding next_sent
next_sent-AreTimes none raw h r = (r, r, omega arith)
next_sent-AreTimes (some (p, s)) raw h r = ground arith

-- The time sent is never the one sent before.
pub next_sent-ne :
    (p s raw : ℕ) → AreTimes (some (p, s)) → raw < 2 ^ 32 → next_sent (some (p, s)) raw ≢ s
unfolding next_sent
next_sent-ne p s raw h r = ground arith

pub next_sent_forward :
    (p s raw : ℕ)
    → AreTimes (some (p, s))
    → raw < 2 ^ 32
    → gap raw p < 2 ^ 31
    → ((raw ≢ p) ⊎ (gap s p < 1000))
    → (1 ≤ gap (next_sent (some (p, s)) raw) s) × (gap (next_sent (some (p, s)) raw) s < 2 ^ 31)
unfolding next_sent
next_sent_forward p s raw h r fwd e = ground arith

-- A sensor time past what was sent, or one before the last sensor time, is sent as it is.
pub next_sent_genuine :
    (p s raw : ℕ)
    → AreTimes (some (p, s))
    → raw < 2 ^ 32
    → (gap s p < gap raw p)
    → next_sent (some (p, s)) raw ≡ raw
unfolding next_sent
next_sent_genuine p s raw h r fwd = ground arith
