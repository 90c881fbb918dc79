-- ===== src/DiagnosticRelay.antt =====
-- experimental/steam-controller/windows-native/relay.py: lines in both directions between the gateway
-- at the controller (`linux`) and the broker at the Windows host (`windows`), counted and logged. A line
-- handed to a process or to the log is listed without its newline.
pub mod Joined
pub mod Forwarding
pub mod Lossless
pub mod Logged
pub mod Counted
pub mod Replay
pub mod Answers
pub mod Examples
use bazzite_k.Common.{
  ℕ, zero, suc, ◌+◌, Bool, true, false, ◌==◌, Option, none, some, List, [], ◌∷◌, ◌++◌, String,
  if◌then◌else◌, has_prefix, codes_eq,
}
use bazzite_k.Common.Processes.{Child, stopped, Goodbye, said_goodbye}
use bazzite_k.Common.Bytes.{bytes}
use bazzite_k.Common.Lines.{lines}
use bazzite_k.Common.Utf8.{decodes}

pub data Endpoint : Type 0 where
  linux windows : Endpoint

pub record Relay : Type 0 where
  pub linux_buffer : List ℕ
  pub windows_buffer : List ℕ
  pub to_windows : List (List ℕ)
  pub to_linux : List (List ℕ)
  pub transactions : List (List ℕ)  -- the lines of the log, without their times
  pub inputs : ℕ
  pub queries : ℕ
  pub error : Option String  -- what ended the loop

unfoldable pub new : Relay
new = record {
  linux_buffer = [];
  windows_buffer = [];
  to_windows = [];
  to_linux = [];
  transactions = [];
  inputs = 0;
  queries = 0;
  error = none;
}

abbrev pub is_input : List ℕ → Bool
is_input line = has_prefix (bytes "I ") line

abbrev pub is_query : List ℕ → Bool
is_query line = has_prefix (bytes "Q ") line

abbrev pub plus_one : Bool → ℕ → ℕ
plus_one counts n = if counts then n + 1 else n

-- Counted, or written to the log, which decodes it.
abbrev pub noted : List ℕ → Relay → Relay
noted line r =
    if is_input line
    then record r { inputs = r.inputs + 1 }
    else if decodes line
    then record r {
      transactions = r.transactions ++ (line ∷ []);
      queries = plus_one (is_query line) r.queries;
    }
    else record r { error = some "UnicodeDecodeError" }

abbrev pub sent : Endpoint → List ℕ → Relay → Relay
sent linux line r = record r { to_windows = r.to_windows ++ (line ∷ []) }
sent windows line r = record r { to_linux = r.to_linux ++ (line ∷ []) }

abbrev pub goes_on : Option String → Bool
goes_on none = true
goes_on (some e) = false

-- The inner loop. `accepts` lines are taken by the other process, and then its pipe is broken.
unfoldable pub forward_all : Endpoint → ℕ → List (List ℕ) → Relay → Relay
forward_all from accepts [] r = r
forward_all from zero (line ∷ rest) r =
    let r' = noted line r in
    if goes_on r'.error then record r' { error = some "BrokenPipeError" } else r'
forward_all from (suc n) (line ∷ rest) r =
    let r' = noted line r in
    let next = forward_all from n rest (sent from line r') in if goes_on r'.error then next else r'

abbrev pub buffer : Endpoint → Relay → List ℕ
buffer linux r = r.linux_buffer
buffer windows r = r.windows_buffer

abbrev pub with_buffer : Endpoint → List ℕ → Relay → Relay
with_buffer linux b r = record r { linux_buffer = b }
with_buffer windows b r = record r { windows_buffer = b }

-- What is read from a process that is ready, and how much its peer accepts.
pub record Chunk : Type 0 where
  pub from : Endpoint
  pub data_read : List ℕ
  pub accepts : ℕ

unfoldable pub on_data : Chunk → Relay → Relay
on_data c r = elim c.data_read [
  | [] ↦ record r { error = some "endpoint closed" }
  | x ∷ xs ↦
      let pending = buffer c.from r ++ (x ∷ xs) in
      forward_all c.from c.accepts (lines pending).0 (with_buffer c.from (lines pending).1 r)
]

-- What `sel.select` returns until the end, in order.
unfoldable pub relay : List Chunk → Relay → Relay
relay [] r = r
relay (c ∷ rest) r =
    let r' = on_data c r in let next = relay rest r' in if goes_on r'.error then next else r'

-- The haptic probe, if there is one: whether it ends in time, and with which code.
pub record Probe : Type 0 where
  pub ends : Bool
  pub returncode : ℕ

pub data Result : Type 0 where
  raised : String → Result
  printed : ℕ → ℕ → Result  -- the inputs and the queries

abbrev checked : Option Probe → Relay → Result
checked none r = Result.printed r.inputs r.queries
checked (some p) r =
    if p.ends
    then (if p.returncode == 0
        then Result.printed r.inputs r.queries
        else Result.raised "Windows native haptic probe failed")
    else Result.raised "TimeoutExpired"

abbrev ended : Option Probe → Relay → Result
ended probe r = elim r.error [ none ↦ checked probe r | some e ↦ Result.raised e ]

pub record Processes : Type 0 where
  pub linux : Child
  pub windows : Child
  pub probe : Child

-- `greeting` is the first line of the gateway; `probe` is none without `--rumble`.
unfoldable pub tried : List ℕ → Option Probe → List Chunk → Result × Processes
tried greeting probe chunks =
    let probing : Child = elim probe [ none ↦ Child.absent | some p ↦ Child.running ] in
    if codes_eq greeting (bytes "READY\n")
    then (
      ended probe (relay chunks new),
      record { linux = Child.running; windows = Child.running; probe = probing },
    )
    else (
      Result.raised "physical endpoint unavailable",
      record { linux = Child.running; windows = Child.absent; probe = Child.absent },
    )

-- The `finally`: the probe is killed.
abbrev pub closed : Goodbye → Goodbye → Processes → Processes
closed w l ps = record {
  probe = stopped ps.probe;
  windows = (said_goodbye w ps.windows).0;
  linux = (said_goodbye l ps.linux).0;
}

unfoldable pub main : List ℕ → Option Probe → List Chunk → Goodbye → Goodbye → Result × Processes
main greeting probe chunks w l = let r = tried greeting probe chunks in (r.0, closed w l r.1)
