-- ===== src/ImuClock.antt =====
-- experimental/steam-controller/tester/imu_clock.py: `ImuClock.normalize`, which keeps the sensor
-- times of forwarded reports apart. A report is a list of bytes; `& 0xffffffff` is `% 2 ^ 32`, and
-- a difference adds the modulus first, since `-` on ℕ stops at 0.
pub mod Times
pub mod Frames
pub mod Stream
mod Examples
use bazzite_k.Common.{
  ℕ, zero, suc, ◌+◌, ◌-◌, ◌%◌, ◌^◌, Bool, true, false, ◌&&◌, ◌||◌, not, Option, none, some, List,
  [], ◌∷◌, ◌++◌, ltb, ◌==◌, if◌then◌else◌, length, take, drop,
}
use bazzite_k.Common.Bytes.{from_bytes, to_bytes}

-- The fields of `ImuClock`. `raw` and `sent` are both None at first and are always set together.
pub record ImuClock : Type 0 where
  pub times : Option (ℕ × ℕ)  -- `self.raw`, `self.sent`
  pub adjustments : ℕ

unfoldable pub new : ImuClock
new = record { times = none; adjustments = 0 }

-- The dict `expected`: the length of a report by its first byte.
abbrev pub expected : ℕ → Option ℕ
expected kind = if kind == 0x42 then some 54 else if kind == 0x45 then some 46 else none

-- The early return, negated: a report that carries a sensor time.
unfoldable pub is_timed : List ℕ → Bool
is_timed [] = false
is_timed (kind ∷ rest) = elim (expected kind) [ none ↦ false | some n ↦ length (kind ∷ rest) == n ]

-- `report[30:34]`
abbrev pub stamp_bytes : List ℕ → List ℕ
stamp_bytes report = take 4 (drop 30 report)

unfoldable pub stamp : List ℕ → ℕ
stamp report = from_bytes (stamp_bytes report)

-- The time to send for the sensor time `raw`.
unfoldable pub next_sent : Option (ℕ × ℕ) → ℕ → ℕ
next_sent none raw = raw
next_sent (some (prev_raw, prev_sent)) raw =
    let advance = (raw + 2 ^ 32 - prev_raw) % 2 ^ 32 in
    let ahead = (prev_sent + 2 ^ 32 - raw) % 2 ^ 32 in
    if ltb advance 0x8000_0000 && ltb ahead 1000 then (prev_sent + 1) % 2 ^ 32 else raw

-- `result[30:34] = sent.to_bytes(4, 'little')`
unfoldable pub with_stamp : List ℕ → ℕ → List ℕ
with_stamp report sent = take 30 report ++ (to_bytes sent 4 ++ drop 34 report)

unfoldable pub normalize : ImuClock → List ℕ → ImuClock × List ℕ
normalize c report =
    if not (is_timed report)
    then (c, report)
    else (let raw = stamp report in
        let sent = next_sent c.times raw in
        if sent == raw then (record c { times = some (raw, sent) }, report) else (
          record { times = some (raw, sent); adjustments = c.adjustments + 1 },
          with_stamp report sent,
        ))
