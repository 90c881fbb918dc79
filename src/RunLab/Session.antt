-- ===== src/RunLab/Session.antt =====
-- experimental/steam-controller/tester/run-lab.py around its relay: the greeting of the gateway, the
-- path of the broker, the ends of the loop, and the `finally` that ends both processes.
use bazzite_k.Common.{
  ℕ, Bool, true, false, ◌&&◌, ◌||◌, ◌==◌, leb, Option, none, some, List, [], ◌∷◌, String,
  if◌then◌else◌, codes_eq, contains,
}
use bazzite_k.Common.Bytes.{bytes}
use bazzite_k.Common.Processes.{Child, Goodbye, said_goodbye}
use bazzite_k.RunLab.{Endpoint, Relay, new, relay}

abbrev pub is_letter : ℕ → Bool
is_letter c = (leb b'A' c && leb c b'Z') || (leb b'a' c && leb c b'z')

-- `[A-Za-z0-9_./-]`
abbrev pub is_path_char : ℕ → Bool
is_path_char c = is_letter c || (leb b'0' c && leb c b'9') || contains (bytes "_./-") c

abbrev pub all_path_chars : List ℕ → Bool
all_path_chars [] = true
all_path_chars (c ∷ cs) = is_path_char c && all_path_chars cs

-- `[A-Za-z]:/[A-Za-z0-9_./-]+`, all of the text
unfoldable pub valid_broker : List ℕ → Bool
valid_broker (drive ∷ colon ∷ slash ∷ c ∷ cs) =
    is_letter drive && (colon == b':' && (slash == b'/' && all_path_chars (c ∷ cs)))
valid_broker _ = false

pub data Outcome : Type 0 where
  time_limit : ℕ → Outcome  -- the number of the reports is printed
  stopping : Outcome
  raised : String → Outcome

-- The processes, the path that the broker was started with, and how the program ended.
pub record Session : Type 0 where
  pub linux : Child
  pub windows : Child
  pub started : Option (List ℕ)
  pub outcome : Outcome

abbrev loop_outcome : Bool → Relay → Outcome
loop_outcome interrupted r = elim r.error [
  | none ↦ if interrupted then Outcome.stopping else Outcome.time_limit r.count
  | some e ↦ Outcome.raised e
]

-- The `try`. `starts` tells whether the second ssh can be started; the loop ends by its time limit or
-- by an interrupt.
unfoldable pub tried : List ℕ → List ℕ → Bool → Bool → List (Endpoint × List ℕ) → Session
tried greeting broker starts interrupted events =
    let failed : String → Session = λ e. record {
      linux = Child.running;
      windows = Child.absent;
      started = none;
      outcome = Outcome.raised e;
    } in
    if codes_eq greeting (bytes "READY\n")
    then (if valid_broker broker
        then (if starts
            then record {
              linux = Child.running;
              windows = Child.running;
              started = some broker;
              outcome = loop_outcome interrupted (relay events new);
            }
            else failed "FileNotFoundError")
        else failed "Invalid broker path")
    else failed "Physical endpoint unavailable; check device and passwordless sudo"

abbrev pub finish : Goodbye → Goodbye → Session → Session
finish w l s = record s {
  windows = (said_goodbye w s.windows).0;
  linux = (said_goodbye l s.linux).0;
}

unfoldable pub run_lab :
    List ℕ → List ℕ → Bool → Bool → List (Endpoint × List ℕ) → Goodbye → Goodbye → Session
run_lab greeting broker starts interrupted events w l =
    finish w l (tried greeting broker starts interrupted events)
