-- ===== src/RunLab.antt =====
-- experimental/steam-controller/tester/run-lab.py: the loop that relays lines between the gateway at
-- the controller (`linux`) and the broker at the Windows host (`windows`), and that gives each
-- report of the controller to `ImuClock`. A line handed to a process is listed without its newline.
pub mod Forwarding
pub mod Stream
pub mod Session
pub mod Ended
mod Examples
use bazzite_k.Common.{
  ℕ, suc, ◌+◌, Bool, true, false, Option, none, some, List, [], ◌∷◌, ◌++◌, String, ltb,
  if◌then◌else◌, length, drop, has_prefix,
}
use bazzite_k.Common.Bytes.{bytes}
use bazzite_k.Common.Hex.{hex, from_hex}
use bazzite_k.Common.Lines.{lines}
use bazzite_k.ImuClock
use bazzite_k.ImuClock.{ImuClock, normalize}

pub data Endpoint : Type 0 where
  linux windows : Endpoint

pub record Relay : Type 0 where
  pub linux_buffer : List ℕ
  pub windows_buffer : List ℕ
  pub to_windows : List (List ℕ)  -- written to the broker
  pub to_linux : List (List ℕ)  -- written to the gateway
  pub count : ℕ
  pub imu_clock : ImuClock
  pub error : Option String  -- what ended the loop

unfoldable pub new : Relay
new = record {
  linux_buffer = [];
  windows_buffer = [];
  to_windows = [];
  to_linux = [];
  count = 0;
  imu_clock = ImuClock.new;
  error = none;
}

-- `line.startswith(b'I ')`
abbrev pub is_input : List ℕ → Bool
is_input line = has_prefix (bytes "I ") line

abbrev pub counted : List ℕ → ℕ → ℕ
counted line n = if is_input line then n + 1 else n

-- `line = b'I ' + report.hex()`, or the ValueError of `fromhex`
abbrev send_report : Option (List ℕ) → Relay → Relay
send_report none r = record r { error = some "non-hexadecimal number found in fromhex() arg" }
send_report (some report) r =
    let (clock, out) = normalize r.imu_clock report in
    record r { imu_clock = clock; to_windows = r.to_windows ++ ((bytes "I " ++ hex out) ∷ []) }

-- The body of the inner loop.
unfoldable pub forward : Endpoint → List ℕ → Relay → Relay
forward linux line r =
    let r' = record r { count = counted line r.count } in
    if is_input line
    then send_report (from_hex (drop 2 line)) r'
    else record r' { to_windows = r.to_windows ++ (line ∷ []) }
forward windows line r = record r {
  count = counted line r.count;
  to_linux = r.to_linux ++ (line ∷ []);
}

abbrev pub goes_on : Option String → Bool
goes_on none = true
goes_on (some e) = false

unfoldable pub forward_all : Endpoint → List (List ℕ) → Relay → Relay
forward_all from [] r = r
forward_all from (line ∷ rest) r =
    let next = forward_all from rest (forward from line r) in if goes_on r.error then next else r

abbrev pub buffer : Endpoint → Relay → List ℕ
buffer linux r = r.linux_buffer
buffer windows r = r.windows_buffer

abbrev pub with_buffer : Endpoint → List ℕ → Relay → Relay
with_buffer linux b r = record r { linux_buffer = b }
with_buffer windows b r = record r { windows_buffer = b }

-- One readable endpoint: `data = key.fileobj.read(65536)`
unfoldable pub on_data : Endpoint → List ℕ → Relay → Relay
on_data from [] r = record r { error = some "Relay endpoint disconnected" }
on_data from (c ∷ cs) r =
    let pending = buffer from r ++ (c ∷ cs) in
    if ltb 131072 (length pending)
    then record (with_buffer from pending r) { error = some "Oversized relay message" }
    else forward_all from (lines pending).0 (with_buffer from (lines pending).1 r)

-- What `selector.select` returns until the time limit, in order.
unfoldable pub relay : List (Endpoint × List ℕ) → Relay → Relay
relay [] r = r
relay ((from, data_read) ∷ rest) r =
    let next = relay rest (on_data from data_read r) in if goes_on r.error then next else r

-- `1 <= args.minutes <= 120`
abbrev pub valid_minutes : ℕ → Bool
valid_minutes m = if ltb m 1 then false else if ltb 120 m then false else true
